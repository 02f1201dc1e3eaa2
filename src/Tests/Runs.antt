-- ===== src/Tests/Runs.antt =====
-- The theorems on whole runs, applied to CAs, groups and DNS zones on a concrete server.
use freeipa_cloud_prov.Prelude.{
  String, ◌≡◌, refl, Bool, true, false, none, some, [], ◌∷◌, ◌++◌, arith, ◌==◌, string_eq,
  if◌then◌else◌,
}
use freeipa_cloud_prov.Dict.{Dict}
use freeipa_cloud_prov.Result.{ok}
use freeipa_cloud_prov.Ipa.Values.{Value, atom, list, str, bool, atom_eq}
use freeipa_cloud_prov.Ipa.Client.{State, Task}
use freeipa_cloud_prov.Ipa.Session.{
  Request, object, objects, Outer, Server, Reply, replied, Entry, Run, no_changes,
}
use freeipa_cloud_prov.Ipa.Hooks.{base_client}
use freeipa_cloud_prov.Ipa.Ensure.{exists, queue_requests, base_changes, entry}
use freeipa_cloud_prov.Ipa.Ensure.Outcomes.{
  removal_request, bare_add_request, queue_removal_lem, queue_absent_creates,
}
use freeipa_cloud_prov.Ipa.Classes.Ca.{ca_spec}
use freeipa_cloud_prov.Ipa.Classes.Group.{handle_members}
use freeipa_cloud_prov.Ipa.Classes.Group.Members.{member_requests, handle_members_lem}

abbrev pub text : String → Value
text s = atom (str s)

abbrev pub ask : State → Bool → Dict Value → Task
ask s check_mode params = record { state = s; check_mode = check_mode; params = params }

abbrev pub logged_in : Reply
logged_in = replied 200 "" none

-- The CA is there, with the description `old`; other requests are answered by an empty object.
abbrev pub server : Server
server posted q = replied 200 "OK" (
    some (record {
      error = none;
      result = some (record {
        inner = some (
            if q.method == "ca_find"
            then objects ((("description", list (str "old" ∷ [])) ∷ []) ∷ [])
            else object []);
        count = some 1;
        others = [];
      });
    }))

abbrev pub describe : Bool → Task
describe check_mode =
    ask State.present check_mode (("cn", text "vpn") ∷ ("description", text "new") ∷ [])

abbrev find_vpn : Request
find_vpn = record {
  method = "ca_find";
  name = [];
  item = ("all", atom (bool true)) ∷ ("cn", text "vpn") ∷ [];
}

abbrev modify_vpn : Request
modify_vpn = record {
  method = "ca_mod";
  name = text "vpn" ∷ [];
  item = ("description", text "new") ∷ ("all", atom (bool true)) ∷ [];
}

-- A CA that was found, and what a run knows of it after `find`.
abbrev found_ca : Entry
found_ca = record {
  name = "find";
  request = find_vpn;
  response = none;
  response_cleaned = ("description", text "old") ∷ [];
}

abbrev after_find : Entry → Dict Value → Outer → Run
after_find e canon o = record {
  requests = e ∷ [];
  responses = ("ca_find", record { error = none; result = some o }) ∷ [];
  changed = false;
  canon_params = canon;
  diffs = no_changes;
  posted = find_vpn ∷ [];
}

abbrev one_found : Outer
one_found = record { inner = none; count = some 1; others = [] }

abbrev none_found : Outer
none_found = record { inner = none; count = some 0; others = [] }

queue_removal_lem_example :
    queue_requests
      (base_changes (base_client ca_spec) (ask State.absent false (("cn", text "vpn") ∷ [])))
      (after_find found_ca [] one_found)
    ≡ (
      ok tt,
      record (after_find found_ca [] one_found) {
        requests =
            found_ca
            ∷ entry "rem"
                (removal_request ca_spec (ask State.absent false (("cn", text "vpn") ∷ [])))
            ∷ [];
      },
    )
queue_removal_lem_example =
    queue_removal_lem ca_spec (ask State.absent false (("cn", text "vpn") ∷ []))
      (after_find found_ca [] one_found) found_ca refl refl refl

-- No CA was found, and a description is to be absent.
abbrev nothing_found : Entry
nothing_found = record found_ca { response_cleaned = [] }

abbrev undescribe : Task
undescribe = ask State.absent false (("cn", text "vpn") ∷ ("description", text "new") ∷ [])

abbrev missing_run : Run
missing_run = after_find nothing_found (("description", text "new") ∷ []) none_found

missing_there : (exists ca_spec missing_run).0 ≡ ok false
unfolding exists string_eq
missing_there = refl

queue_absent_creates_example :
    queue_requests (base_changes (base_client ca_spec) undescribe) missing_run ≡ (
      ok tt,
      record missing_run {
        requests = nothing_found ∷ entry "add_or_mod" (bare_add_request ca_spec undescribe) ∷ [];
      },
    )
queue_absent_creates_example =
    queue_absent_creates ca_spec undescribe missing_run nothing_found refl refl (λ e. ground arith)
      refl refl missing_there

abbrev member_run : Run
member_run = record (after_find found_ca [] one_found) {
  diffs = record { scalars = []; list_add = ("member_user", str "alice" ∷ []) ∷ []; list_del = [] };
}

abbrev admins : Task
admins = ask State.present false (("cn", text "admins") ∷ [])

handle_members_lem_example : handle_members admins member_run ≡ (
  ok false,
  record member_run {
    requests =
        (member_run.requests
          ++ member_requests admins "group_add_member" (some (str "alice" ∷ [])) none)
        ++ member_requests admins "group_remove_member" none none;
    changed = true;
  },
)
unfolding string_eq
handle_members_lem_example = handle_members_lem admins member_run
