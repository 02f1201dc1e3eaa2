-- ===== src/Ipa/Classes/Group/Members.antt =====
-- What `handle_members` queues and reports.
use mathlib.Core.List.{append-nil}
use freeipa_cloud_prov.Prelude.{
  String, ◌≡◌, refl, ◌∙◌, string_eq, Bool, true, false, ◌||◌, Option, none, some, List, [], ◌∷◌,
  ◌++◌, arith, if◌then◌else◌,
}
use freeipa_cloud_prov.Dict.{Dict, get}
use freeipa_cloud_prov.Result.{ok}
use freeipa_cloud_prov.Ipa.Values.{Atom, Value, atom, list}
use freeipa_cloud_prov.Ipa.Client.{Task}
use freeipa_cloud_prov.Ipa.Session.{Entry, Run}
use freeipa_cloud_prov.Ipa.Hooks.{base_mod_request_params, key_values}
use freeipa_cloud_prov.Ipa.Ensure.{entry}
use freeipa_cloud_prov.Ipa.Ensure.Queue.{first-append}
use freeipa_cloud_prov.Ipa.Ensure.Quiet.{
  tracks-append, IsQuiet, IsQuiet-same, quiet, rem-IsQuiet, add_or_mod-IsQuiet, AllQuiet,
}
use freeipa_cloud_prov.Ipa.Classes.Group.{
  group_spec, group_client, members_item, queue_members, handle_members, group_changes,
}

-- The entry for members to add or to remove, where there are any.
abbrev pub member_entries : Task → String → Option (Dict Value) → List Entry
member_entries t method none = []
member_entries t method (some item) =
    entry method
      (record { method = method; name = key_values group_spec t.params ++ []; item = item })
    ∷ []

abbrev pub is_there {ℓ} : {A : Type ℓ} → Option A → Bool
is_there none = false
is_there (some _) = true

-- The run after one round of the loop.
abbrev after_members : Task → String → Option (Dict Value) → Run → Run
after_members t method o r = record r {
  requests = if t.check_mode then r.requests else r.requests ++ member_entries t method o;
  changed = is_there o || r.changed;
}

queue_members_lem :
    (t : Task) (method : String) (o : Option (Dict Value)) (r : Run)
    → queue_members t method o r ≡ (ok tt, after_members t method o r)
unfolding queue_members base_mod_request_params
queue_members_lem t method none r = ground (arith, append-nil r.requests)
queue_members_lem t method (some item) r = ground arith

-- The names under `k`, where there are any.
abbrev pub names_under : String → Option (List Atom) → Dict Value
names_under k none = []
names_under k (some vs) = (k, list vs) ∷ []

-- One request for the users and the groups; none where there are neither.
abbrev pub member_requests : Task → String → Option (List Atom) → Option (List Atom) → List Entry
member_requests t method users groups =
    if is_there users || is_there groups
    then entry method (record {
      method = method;
      name = key_values group_spec t.params;
      item =
          ("all", atom (Atom.bool true)) ∷ (names_under "user" users ++ names_under "group" groups);
    })
      ∷ []
    else []

member_entries-members_item :
    (t : Task) (method : String) (users groups : Option (List Atom))
    → member_entries t method (members_item users groups) ≡ member_requests t method users groups
unfolding members_item string_eq
member_entries-members_item t method none none = refl
member_entries-members_item t method (some us) none =
    rw (append-nil (key_values group_spec t.params)) refl
member_entries-members_item t method none (some gs) =
    rw (append-nil (key_values group_spec t.params)) refl
member_entries-members_item t method (some us) (some gs) =
    rw (append-nil (key_values group_spec t.params)) refl

is_there-members_item :
    (users groups : Option (List Atom))
    → is_there (members_item users groups) ≡ (is_there users || is_there groups)
unfolding members_item
is_there-members_item none none = refl
is_there-members_item (some us) none = refl
is_there-members_item none (some gs) = refl
is_there-members_item (some us) (some gs) = refl

module _ (t : Task) (r : Run) where
  abbrev pub added : Option (Dict Value)
  added = members_item (get "member_user" r.diffs.list_add) (get "member_group" r.diffs.list_add)

  abbrev pub removed : Option (Dict Value)
  removed = members_item (get "member_user" r.diffs.list_del) (get "member_group" r.diffs.list_del)

  -- The same by the items that the loop makes.
  pub handle_members_entries : handle_members t r ≡ (
    ok false,
    record r {
      requests =
          if t.check_mode
          then r.requests
          else (r.requests ++ member_entries t "group_add_member" added)
            ++ member_entries t "group_remove_member" removed;
      changed = is_there added || (is_there removed || r.changed);
    },
  )
  unfolding handle_members
  handle_members_entries =
      let step1 = queue_members_lem t "group_add_member" added r in
      let r1 : Run = after_members t "group_add_member" added r in
      let step2 = queue_members_lem t "group_remove_member" removed r1 in
      ground (arith, step1, step2)

  -- Users and groups to add give one request with those of either kind that there are, then those
  -- to remove give one; without any there is no request. Either marks the group as changed. In
  -- check mode nothing is queued, and the mark is set all the same.
  pub handle_members_lem : handle_members t r ≡ (
    ok false,
    record r {
      requests =
          if t.check_mode
          then r.requests
          else (r.requests
              ++ member_requests t "group_add_member"
                  (get "member_user" r.diffs.list_add)
                  (get "member_group" r.diffs.list_add))
            ++ member_requests t "group_remove_member"
                (get "member_user" r.diffs.list_del)
                (get "member_group" r.diffs.list_del);
      changed =
          (is_there (get "member_user" r.diffs.list_add)
            || is_there (get "member_group" r.diffs.list_add))
          || ((is_there (get "member_user" r.diffs.list_del)
                || is_there (get "member_group" r.diffs.list_del))
              || r.changed);
    },
  )
  handle_members_lem =
      handle_members_entries
      ∙ rw
          (
            member_entries-members_item t "group_add_member" (get "member_user" r.diffs.list_add)
                (get "member_group" r.diffs.list_add),
            member_entries-members_item t "group_remove_member" (get "member_user" r.diffs.list_del)
                (get "member_group" r.diffs.list_del),
            is_there-members_item (get "member_user" r.diffs.list_add)
                (get "member_group" r.diffs.list_add),
            is_there-members_item (get "member_user" r.diffs.list_del)
                (get "member_group" r.diffs.list_del),
          )
          refl

queue_members-IsQuiet :
    (t : Task) (method : String) (o : Option (Dict Value)) → IsQuiet t (queue_members t method o)
unfolding queue_members
queue_members-IsQuiet t method none = IsQuiet-same t _
queue_members-IsQuiet t method (some item) = record {
  at = λ r. ground arith;
  first = λ r q h. ground (arith, first-append r.requests q);
  honest = λ r a real done h. ground (arith, tracks-append r.requests);
}

pub handle_members-IsQuiet : (t : Task) → IsQuiet t (handle_members t)
unfolding handle_members
handle_members-IsQuiet t = search (quiet, queue_members-IsQuiet)

pub group_changes-AllQuiet : (t : Task) → AllQuiet t (group_changes t)
group_changes-AllQuiet t = (
  rem-IsQuiet group_client t,
  (add_or_mod-IsQuiet group_client t, (handle_members-IsQuiet t, tt)),
)
