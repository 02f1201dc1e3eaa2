-- ===== src/Ipa/Classes/Ca.antt =====
-- lib/modules/ipa_ca.py
pub mod Check
use freeipa_cloud_prov.Prelude.{
  String, Bool, true, false, not, Option, none, some, List, [], ◌∷◌, ◌==◌, string_eq, if◌then◌else◌,
}
use freeipa_cloud_prov.Prelude.Lists.{is_empty}
use freeipa_cloud_prov.Dict.{Dict, keys}
use freeipa_cloud_prov.Result.{Result, ok, err}
use freeipa_cloud_prov.Ipa.Values.{Failure, fail_json}
use freeipa_cloud_prov.Ipa.Client.{ClassSpec, Kind, str_kind, base_methods, without_keys, Task}
use freeipa_cloud_prov.Ipa.Session.{Request}
use freeipa_cloud_prov.Ipa.Hooks.{Client, base_client}
use freeipa_cloud_prov.Ipa.Classes.Zone.{of_kind}

abbrev pub ca_spec : ClassSpec
ca_spec = record {
  name = "ca";
  methods = base_methods;
  kw_args =
      ("cn", of_kind str_kind)
      ∷ ("ipacasubjectdn", of_kind str_kind)
      ∷ ("description", of_kind str_kind)
      ∷ [];
  param_keys = "cn" ∷ [];
  own_base_keys = none;
}

-- The check that `mod_rewrite_list_changes` adds: a `ca_mod` request may set the description
-- only. The text that names the other keys is left out of the failure.
unfoldable pub check_ca_request : Request → Result Failure Request
check_ca_request q =
    if not (q.method == "ca_mod")
    then ok q
    else if is_empty (without_keys ("all" ∷ "description" ∷ []) (keys q.item))
    then ok q
    else err (fail_json "" "Unable to modify CA parameters other than description")

abbrev pub ca_client : Client
ca_client = record (base_client ca_spec) { check_mod_request = check_ca_request }
