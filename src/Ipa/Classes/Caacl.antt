-- ===== src/Ipa/Classes/Caacl.antt =====
-- lib/modules/ipa_caacl.py
pub mod Dry
pub mod Agreement
use freeipa_cloud_prov.Prelude.{
  String, ◌<>◌, Bool, true, false, not, Option, none, some, List, [], ◌∷◌, ◌++◌, map, string_eq,
  if◌then◌else◌,
}
use freeipa_cloud_prov.Prelude.Lists.{is_empty}
use freeipa_cloud_prov.Dict.{Dict, get, set, erase, keys}
use freeipa_cloud_prov.Result.{Result, ok}
use freeipa_cloud_prov.Exec.{pure, gets, ◌>>=◌, ◌>>◌}
use freeipa_cloud_prov.Ipa.Values.{Atom, Value, list, Failure}
use freeipa_cloud_prov.Ipa.Client.{
  ClassSpec, Kind, str_kind, bool_kind, list_kind, base_methods, Task,
}
use freeipa_cloud_prov.Ipa.Diff.{Changes}
use freeipa_cloud_prov.Ipa.Session.{Run, M}
use freeipa_cloud_prov.Ipa.Hooks.{Client, base_munge_response, true_value}
use freeipa_cloud_prov.Ipa.Enablable.{
  EnableSpec, enablable_spec, enablable_client, enablable_changes,
}
use freeipa_cloud_prov.Ipa.Classes.Zone.{of_kind}
use freeipa_cloud_prov.Ipa.Classes.Words.{after_prefix, before}
use freeipa_cloud_prov.Ipa.Classes.Queueing.{queue_method, mark, pick, sort_atoms}

abbrev pub caacl_spec : ClassSpec
caacl_spec = record {
  name = "caacl";
  methods = base_methods;
  kw_args =
      ("cn", of_kind str_kind)
      ∷ ("description", of_kind str_kind)
      ∷ ("ipaenabledflag", of_kind bool_kind)
      ∷ ("user", of_kind list_kind)
      ∷ ("group", of_kind list_kind)
      ∷ ("host", of_kind list_kind)
      ∷ ("hostgroup", of_kind list_kind)
      ∷ ("service", of_kind list_kind)
      ∷ ("certprofile", of_kind list_kind)
      ∷ ("ca", of_kind list_kind)
      ∷ [];
  param_keys = "cn" ∷ [];
  own_base_keys = some ("description" ∷ []);
}

abbrev pub caacl_enable : EnableSpec
caacl_enable = record { enablekey = "ipaenabledflag"; sense_inverted = false }

abbrev pub member_prefixes : List String
member_prefixes =
    "memberuser_" ∷ "memberhost_" ∷ "memberservice_" ∷ "ipamembercertprofile_" ∷ "ipamemberca_" ∷ []

-- `key.split('_')[1]` of a key with one of the prefixes, each of which has its only `_` at the end
unfoldable pub member_key : List String → String → Option String
member_key [] key = none
member_key (p ∷ ps) key =
    let rest = member_key ps key in
    elim (after_prefix p key) [ none ↦ rest | some s ↦ some (before b'_' s) ]

abbrev pub rename : String → Option String → Dict Value → Dict Value
rename key none item = item
rename key (some new_key) item = elim (get key item) [
  | none ↦ item
  | some v ↦ set new_key v (erase key item)
]

-- `munge_response_keys`, over the keys that the response has at first
unfoldable pub rename_keys : List String → Dict Value → Dict Value
rename_keys [] item = item
rename_keys (key ∷ ks) item = rename_keys ks (rename key (member_key member_prefixes key) item)

unfoldable pub caacl_munge_response : Task → Dict Value → Result Failure (Dict Value)
caacl_munge_response t response =
    base_munge_response (enablable_spec caacl_spec caacl_enable) t
      (rename_keys (keys response) response)

abbrev pub caacl_client : Client
caacl_client = record (enablable_client caacl_spec caacl_enable) {
  munge_response = caacl_munge_response;
}

-- The methods, each with the attributes it takes.
abbrev pub member_methods : List (String × List String)
member_methods =
    ("user", "user" ∷ "group" ∷ [])
    ∷ ("host", "host" ∷ "hostgroup" ∷ [])
    ∷ ("profile", "certprofile" ∷ [])
    ∷ ("ca", "ca" ∷ [])
    ∷ ("service", "service" ∷ [])
    ∷ []

abbrev pub as_is : List String → List (String × String)
as_is [] = []
as_is (k ∷ ks) = (k, k) ∷ as_is ks

-- `sorted` for the values of each attribute
abbrev pub sort_values : Dict Value → Dict Value
sort_values [] = []
sort_values ((k, list vs) ∷ d) = (k, list (sort_atoms vs)) ∷ sort_values d
sort_values ((k, v) ∷ d) = (k, v) ∷ sort_values d

module _ (t : Task) where
  -- The end of the inner loop: the request for the attributes of one method.
  unfoldable pub queue_items : String → String → Dict Value → M (Unit {0})
  queue_items op method item = if is_empty item then pure tt else (do
    mark
    if t.check_mode
        then pure tt
        else queue_method (op <> ("_" <> method)) ("caacl_" <> (op <> ("_" <> method)))
            (caacl_client.mod_request_params t) (set "all" true_value item))

  -- The inner loop of `add_remove_list_items`, over one dict of changes.
  unfoldable pub queue_each : String → Dict (List Atom) → List (String × List String) → M (Unit {0})
  queue_each op changes [] = pure tt
  queue_each op changes ((method, attrs) ∷ methods) = do
    queue_items op method (sort_values (pick (as_is attrs) changes))
    queue_each op changes methods

  unfoldable pub add_remove_list_items : M Bool
  add_remove_list_items = do
    diffs ← gets (λ r. r.diffs)
    queue_each "add" diffs.list_add member_methods
    queue_each "remove" diffs.list_del member_methods
    pure false

  abbrev pub caacl_changes : List (M Bool)
  caacl_changes = enablable_changes caacl_client caacl_enable t ++ (add_remove_list_items ∷ [])
