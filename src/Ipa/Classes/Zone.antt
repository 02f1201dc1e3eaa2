-- ===== src/Ipa/Classes/Zone.antt =====
-- lib/modules/ipa_dnszone.py
use freeipa_cloud_prov.Prelude.{Bool, false, none, List, [], ◌∷◌}
use freeipa_cloud_prov.Ipa.Client.{
  ClassSpec, ParamSpec, Kind, str_kind, bool_kind, list_kind, base_methods, Task,
}
use freeipa_cloud_prov.Ipa.Enablable.{EnableSpec, enablable_client, enablable_changes}
use freeipa_cloud_prov.Ipa.Hooks.{Client}
use freeipa_cloud_prov.Ipa.Session.{M}

-- A parameter with no default.
abbrev pub of_kind : Kind → ParamSpec
of_kind k = record { kind = k; default = none }

abbrev pub dnszone_spec : ClassSpec
dnszone_spec = record {
  name = "dnszone";
  methods = base_methods;
  kw_args =
      ("idnsname", of_kind str_kind)
      ∷ ("idnssoarname", of_kind str_kind)
      ∷ ("idnssoamname", of_kind str_kind)
      ∷ ("idnszoneactive", of_kind bool_kind)
      ∷ ("idnssoaserial", of_kind str_kind)
      ∷ ("idnssoarefresh", of_kind str_kind)
      ∷ ("idnssoaretry", of_kind str_kind)
      ∷ ("idnssoaexpire", of_kind str_kind)
      ∷ ("idnssoaminimum", of_kind str_kind)
      ∷ ("idnsallowquery", of_kind str_kind)
      ∷ ("idnsallowtransfer", of_kind str_kind)
      ∷ ("idnsallowdynupdate", of_kind bool_kind)
      ∷ ("idnsupdatepolicy", of_kind str_kind)
      ∷ ("nsrecord", of_kind list_kind)
      ∷ [];
  param_keys = "idnsname" ∷ [];
  own_base_keys = none;
}

abbrev pub dnszone_enable : EnableSpec
dnszone_enable = record { enablekey = "idnszoneactive"; sense_inverted = false }

abbrev pub dnszone_client : Client
dnszone_client = enablable_client dnszone_spec dnszone_enable

abbrev pub dnszone_changes : Task → List (M Bool)
dnszone_changes t = enablable_changes dnszone_client dnszone_enable t
