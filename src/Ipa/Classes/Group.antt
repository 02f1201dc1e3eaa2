-- ===== src/Ipa/Classes/Group.antt =====
-- lib/modules/ipa_group.py
pub mod Members
use freeipa_cloud_prov.Prelude.{
  String, Bool, true, false, not, Option, none, some, List, [], ◌∷◌, ◌++◌, string_eq, if◌then◌else◌,
}
use freeipa_cloud_prov.Dict.{Dict, get, set}
use freeipa_cloud_prov.Exec.{pure, lift, gets, modify, ◌>>=◌, ◌>>◌}
use freeipa_cloud_prov.Ipa.Values.{Atom, Value, list}
use freeipa_cloud_prov.Ipa.Client.{
  ClassSpec, Kind, str_kind, int_kind, bool_kind, list_kind, base_methods, Task,
}
use freeipa_cloud_prov.Ipa.Diff.{Changes}
use freeipa_cloud_prov.Ipa.Session.{Request, Run, M}
use freeipa_cloud_prov.Ipa.Hooks.{Client, base_client, true_value}
use freeipa_cloud_prov.Ipa.Ensure.{entry, enqueue, base_changes}
use freeipa_cloud_prov.Ipa.Classes.Zone.{of_kind}

abbrev pub group_spec : ClassSpec
group_spec = record {
  name = "group";
  methods = base_methods;
  kw_args =
      ("cn", of_kind str_kind)
      ∷ ("description", of_kind str_kind)
      ∷ ("gidnumber", of_kind int_kind)
      ∷ ("nonposix", of_kind bool_kind)
      ∷ ("external", of_kind bool_kind)
      ∷ ("member_group", of_kind list_kind)
      ∷ ("member_user", of_kind list_kind)
      ∷ [];
  param_keys = "cn" ∷ [];
  own_base_keys = some ("description" ∷ "gidnumber" ∷ "nonposix" ∷ "external" ∷ []);
}

abbrev pub group_client : Client
group_client = base_client group_spec

-- `if vs is not None: item[k] = vs`
abbrev put_members : String → Option (List Atom) → Dict Value → Dict Value
put_members k none item = item
put_members k (some vs) item = set k (list vs) item

-- The item of a request to add or remove these members; `none` where there is none of either kind.
unfoldable pub members_item : Option (List Atom) → Option (List Atom) → Option (Dict Value)
members_item none none = none
members_item users groups =
    some (put_members "group" groups (put_members "user" users (("all", true_value) ∷ [])))

abbrev pub mark_changed : M (Unit {0})
mark_changed = modify (λ r. record r { changed = true })

module _ (t : Task) where
  -- One round of the loop of `handle_members`, with the list that it takes members from.
  unfoldable pub queue_members : String → Option (Dict Value) → M (Unit {0})
  queue_members method none = pure tt
  queue_members method (some item) = do
    mark_changed
    if t.check_mode then pure tt else (do
      name ← lift (group_client.mod_request_params t)
      enqueue (entry method (record { method = method; name = name; item = item })))

  unfoldable pub handle_members : M Bool
  unfolding members_item queue_members
  handle_members = do
    diffs ← gets (λ r. r.diffs)
    queue_members "group_add_member"
        (members_item (get "member_user" diffs.list_add) (get "member_group" diffs.list_add))
    queue_members "group_remove_member"
        (members_item (get "member_user" diffs.list_del) (get "member_group" diffs.list_del))
    pure false

  abbrev pub group_changes : List (M Bool)
  group_changes = base_changes group_client t ++ (handle_members ∷ [])
