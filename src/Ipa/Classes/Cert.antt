-- ===== src/Ipa/Classes/Cert.antt =====
-- lib/modules/ipa_cert.py
pub mod Revoke
use freeipa_cloud_prov.Prelude.{
  String, Bool, true, false, Option, none, some, List, [], ◌∷◌, ◌++◌, string_eq, if◌then◌else◌,
}
use freeipa_cloud_prov.Dict.{Dict, get, has, set, erase}
use freeipa_cloud_prov.Result.{Result, ok, err, ◌>>=◌}
use freeipa_cloud_prov.Ipa.Values.{
  Atom, str, same_value, Value, atom, Failure, fail_json, type_error, atom_eq,
}
use freeipa_cloud_prov.Ipa.Client.{
  State, absent, ClassSpec, Kind, str_kind, int_kind, MethodKey, add, rem, mod_, base_methods, Task,
  text_value,
}
use freeipa_cloud_prov.Ipa.Diff.{Changes, compute_changes}
use freeipa_cloud_prov.Ipa.Session.{M}
use freeipa_cloud_prov.Ipa.Hooks.{Client, base_client, base_munge_module_params, true_value}
use freeipa_cloud_prov.Ipa.Enablable.{truth}
use freeipa_cloud_prov.Ipa.Classes.Zone.{of_kind}
use freeipa_cloud_prov.Ipa.Classes.Words.{cn_before_o}
use freeipa_cloud_prov.Ipa.Classes.Queueing.{item_at}

abbrev pub cert_methods : MethodKey → String
cert_methods add = "_request"
cert_methods mod_ = "_request"
cert_methods rem = "_revoke"
cert_methods k = base_methods k

abbrev pub cert_spec : ClassSpec
cert_spec = record {
  name = "cert";
  methods = cert_methods;
  kw_args =
      ("principal", of_kind str_kind)
      ∷ ("cacn", record { kind = str_kind; default = some (text_value "ipa") })
      ∷ ("req", of_kind str_kind)
      ∷ ("serial_number", of_kind str_kind)
      ∷ ("revocation_reason", of_kind int_kind)
      ∷ [];
  param_keys = "serial_number" ∷ "req" ∷ [];
  own_base_keys = none;
}

abbrev or_whole : String → Option String → String
or_whole s none = s
or_whole s (some name) = name

-- `re.match` takes a text only.
unfoldable pub subject_to_principal : Value → Result Failure Value
subject_to_principal (atom (str s)) = ok (text_value (or_whole s (cn_before_o s)))
subject_to_principal _ = err type_error

unfoldable pub cert_munge_module_params : Task → Result Failure (Dict Value)
cert_munge_module_params t = do
  item ← base_munge_module_params cert_spec t
  subject ← item_at "principal" item
  principal ← subject_to_principal subject
  ok (set "principal" principal (erase "principal" item))

unfoldable pub cert_mod_request_params : Task → Result Failure (List Value)
cert_mod_request_params t = elim (get "req" t.params) [
  | none ↦ err (fail_json "req" "Certificate requests must include \"req\" parameter")
  | some req ↦ ok (req ∷ [])
]

unfoldable pub cert_rem_request_params :
    Task → Dict Value → Dict Value → Result Failure (List Value)
cert_rem_request_params t curr canon = do serial ← item_at "serial_number" curr; ok (serial ∷ [])

unfoldable pub cert_rem_request_item : Dict Value → Dict Value → Result Failure (Dict Value)
cert_rem_request_item curr canon = elim (get "revocation_reason" canon) [
  | none ↦ err (fail_json "revoke certificate" "revocation_reason parameter required")
  | some reason ↦
      item_at "cacn" curr >>= λ cacn. ok (("cacn", cacn) ∷ ("revocation_reason", reason) ∷ [])
]

-- A serial number that is given and not empty bounds the search from both sides.
abbrev pub with_serial : Option Value → Dict Value → Dict Value
with_serial none item = item
with_serial (some sn) item =
    if truth sn then set "max_serial_number" sn (set "min_serial_number" sn item) else item

unfoldable pub cert_find_request_item : Task → Result Failure (Dict Value)
cert_find_request_item t = do
  subject ← item_at "principal" t.params
  principal ← subject_to_principal subject
  cacn ← item_at "cacn" t.params
  ok (
      with_serial (get "serial_number" t.params) (
        ("all", true_value)
        ∷ ("subject", principal)
        ∷ ("cacn", cacn)
        ∷ ("exactly", true_value)
        ∷ []))

-- `munge_response`, which does not call the base class's
unfoldable pub cert_munge_response : Task → Dict Value → Result Failure (Dict Value)
cert_munge_response t item = elim (get "subject" item) [
  | none ↦ ok item
  | some subject ↦ subject_to_principal subject >>= λ principal. ok (set "principal" principal item)
]

-- `find_filter`: certificates that are neither expired nor revoked
unfoldable pub cert_filter : Dict Value → Result Failure Bool
cert_filter i = do status ← item_at "status" i; ok (same_value status (text_value "VALID"))

abbrev pub drop_scalars : State → Changes → Changes
drop_scalars absent ch = record ch { scalars = [] }
drop_scalars _ ch = ch

unfoldable pub cert_compute_changes : Task → Dict Value → Dict Value → Result Failure Changes
cert_compute_changes t change curr = do
  ch ← compute_changes cert_spec t.state change curr
  ok (drop_scalars t.state ch)

abbrev pub cert_client : Client
cert_client = record (base_client cert_spec) {
  find_filter = λ t. some cert_filter;
  munge_module_params = cert_munge_module_params;
  find_request_item = cert_find_request_item;
  munge_response = cert_munge_response;
  compute_changes_ = cert_compute_changes;
  mod_request_params = cert_mod_request_params;
  is_rem_param_request = λ canon. false;
  rem_request_params = cert_rem_request_params;
  rem_request_item = cert_rem_request_item;
}
