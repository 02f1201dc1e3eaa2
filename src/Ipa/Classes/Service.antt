-- ===== src/Ipa/Classes/Service.antt =====
-- lib/modules/ipa_service.py
use freeipa_cloud_prov.Prelude.{
  String, ◌<>◌, Bool, true, false, ◌||◌, Option, none, some, List, [], ◌∷◌, ◌++◌, ◌==◌, string_eq,
  if◌then◌else◌,
}
use freeipa_cloud_prov.Prelude.Lists.{is_empty}
use freeipa_cloud_prov.Dict.{Dict, get, set, erase}
use freeipa_cloud_prov.Result.{Result, ok, err, ◌>>=◌ as ◌>>=ᵣ◌}
use freeipa_cloud_prov.Exec.{pure, gets, ◌>>=◌, ◌>>◌}
use freeipa_cloud_prov.Ipa.Values.{
  Atom, null, str, wrapped, same_value, Value, atom, list, Failure, value_error, type_error,
  atom_eq,
}
use freeipa_cloud_prov.Ipa.Client.{
  ClassSpec, ParamSpec, Kind, str_kind, list_kind, base_methods, Task,
}
use freeipa_cloud_prov.Ipa.Diff.{Changes, get_or}
use freeipa_cloud_prov.Ipa.Session.{M}
use freeipa_cloud_prov.Ipa.Hooks.{Client, base_client, base_munge_response, true_value}
use freeipa_cloud_prov.Ipa.Ensure.{base_changes}
use freeipa_cloud_prov.Ipa.Classes.Zone.{of_kind}
use freeipa_cloud_prov.Ipa.Classes.Queueing.{queue_method, pick}

abbrev flag : Bool → ParamSpec
flag b = record { kind = Kind.bool_kind; default = some (atom (Atom.bool b)) }

abbrev pub service_spec : ClassSpec
service_spec = record {
  name = "service";
  methods = base_methods;
  kw_args =
      ("krbcanonicalname", of_kind str_kind)
      ∷ ("usercertificate", of_kind str_kind)
      ∷ ("krbprincipalauthind", of_kind str_kind)
      ∷ ("ipakrbrequirespreauth", flag true)
      ∷ ("ipakrbokasdelegate", flag false)
      ∷ ("ipakrboktoauthasdelegate", flag false)
      ∷ ("krbprincipalname", of_kind list_kind)
      ∷ ("managedby_host", of_kind list_kind)
      ∷ ("ipaallowedtoperform_write_keys_user", of_kind list_kind)
      ∷ ("ipaallowedtoperform_write_keys_group", of_kind list_kind)
      ∷ ("ipaallowedtoperform_write_keys_host", of_kind list_kind)
      ∷ ("ipaallowedtoperform_write_keys_hostgroup", of_kind list_kind)
      ∷ ("ipaallowedtoperform_read_keys_user", of_kind list_kind)
      ∷ ("ipaallowedtoperform_read_keys_group", of_kind list_kind)
      ∷ ("ipaallowedtoperform_read_keys_host", of_kind list_kind)
      ∷ ("ipaallowedtoperform_read_keys_hostgroup", of_kind list_kind)
      ∷ [];
  param_keys = "krbcanonicalname" ∷ [];
  own_base_keys = some (
      "krbcanonicalname" ∷ "usercertificate" ∷ "krbprincipalauthind" ∷ "ipakrbrequirespreauth"
      ∷ "ipakrbokasdelegate" ∷ "ipakrboktoauthasdelegate" ∷ "krbprincipalname"
      ∷ "write_keytab_users" ∷ "write_keytab_groups" ∷ "write_keytab_hosts"
      ∷ "write_keytab_hostgroups" ∷ "read_keytab_users" ∷ "read_keytab_groups" ∷ "read_keytab_hosts"
      ∷ "read_keytab_hostgroups" ∷ []);
}

-- The certificate in `{'__base64__': …}`
abbrev pub plain_cert : Value → Value
plain_cert (atom (wrapped k s)) = if k == "__base64__" then atom (str s) else atom (wrapped k s)
plain_cert v = v

-- `munge_response_usercertificate`, of a cleaned response: the value is no list
unfoldable pub service_certificate : Dict Value → Dict Value
service_certificate item = elim (get "usercertificate" item) [
  | none ↦ item
  | some v ↦ set "usercertificate" (plain_cert v) (erase "usercertificate" item)
]

-- `xs.remove(v)`
unfoldable pub remove_first : List Atom → Value → Result Failure (List Atom)
remove_first [] v = err value_error
remove_first (x ∷ xs) v =
    if same_value (atom x) v then ok xs else remove_first xs v >>=ᵣ λ rest. ok (x ∷ rest)

abbrev pub put_names : List Atom → Dict Value → Dict Value
put_names [] item = item
put_names (x ∷ xs) item = set "krbprincipalname" (list (x ∷ xs)) item

-- `munge_response_krbprincipalname`; the cleaned value is a list
abbrev pub without_canonical : Value → Option Value → Dict Value → Result Failure (Dict Value)
without_canonical name none item = ok item
without_canonical name (some (list xs)) item =
    remove_first xs name >>=ᵣ λ rest. ok (put_names rest (erase "krbprincipalname" item))
without_canonical name (some _) item = err type_error

unfoldable pub service_principals : Task → Dict Value → Result Failure (Dict Value)
service_principals t item =
    without_canonical (get_or "krbcanonicalname" (atom null) t.params) (get "krbprincipalname" item)
      item

unfoldable pub service_munge_response : Task → Dict Value → Result Failure (Dict Value)
service_munge_response t response = base_munge_response service_spec t response >>=ᵣ λ item.
    service_principals t (service_certificate item)

abbrev pub service_client : Client
service_client = record (base_client service_spec) { munge_response = service_munge_response }

-- The rows of the loop of `handle_allow_keytab`: from the values to add, or to remove.
abbrev pub keytab_rows : List (Bool × String × String)
keytab_rows =
    (true, "service_allow_create_keytab", "write")
    ∷ (false, "service_disallow_create_keytab", "write")
    ∷ (true, "service_allow_retrieve_keytab", "read")
    ∷ (false, "service_disallow_retrieve_keytab", "read")
    ∷ []

abbrev pub keytab_key : String → String → String × String
keytab_key mode kind = ("ipaallowedtoperform_" <> (mode <> ("_keys_" <> kind)), kind)

abbrev pub keytab_keys : String → List (String × String)
keytab_keys mode =
    keytab_key mode "user"
    ∷ keytab_key mode "group"
    ∷ keytab_key mode "host"
    ∷ keytab_key mode "hostgroup"
    ∷ []

module _ (t : Task) where
  -- The end of both loops: nothing for an empty item and in check mode.
  unfoldable pub queue_item : String → Dict Value → Dict Value → M (Unit {0})
  queue_item method item whole =
      if is_empty item || t.check_mode
      then pure tt
      else queue_method method method (service_client.mod_request_params t) whole

  unfoldable pub queue_hosts : String → Dict (List Atom) → M (Unit {0})
  queue_hosts method changes =
      let item : Dict Value = pick (("managedby_host", "host") ∷ []) changes in
      queue_item method item (("all", true_value) ∷ item)

  unfoldable pub handle_managedby_host : M Bool
  handle_managedby_host = do
    diffs ← gets (λ r. r.diffs)
    queue_hosts "service_add_host" diffs.list_add
    queue_hosts "service_remove_host" diffs.list_del
    pure false

  unfoldable pub queue_keytabs : Changes → List (Bool × String × String) → M (Unit {0})
  queue_keytabs diffs [] = pure tt
  queue_keytabs diffs ((adds, method, mode) ∷ rows) =
      let rest = queue_keytabs diffs rows in
      let item : Dict Value =
        pick (keytab_keys mode) (if adds then diffs.list_add else diffs.list_del) in
      (do queue_item method item (set "all" true_value item); rest)

  unfoldable pub handle_allow_keytab : M Bool
  handle_allow_keytab = do diffs ← gets (λ r. r.diffs); queue_keytabs diffs keytab_rows; pure false

  abbrev pub service_changes : List (M Bool)
  service_changes =
      base_changes service_client t ++ (handle_managedby_host ∷ handle_allow_keytab ∷ [])
