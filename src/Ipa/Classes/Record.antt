-- ===== src/Ipa/Classes/Record.antt =====
-- lib/modules/ipa_dnsrecord.py
use freeipa_cloud_prov.Prelude.{
  String, Bool, true, none, some, List, [], ◌∷◌, string_eq, if◌then◌else◌,
}
use freeipa_cloud_prov.Dict.{Dict, get, set}
use freeipa_cloud_prov.Result.{Result, ok, err, ◌>>=◌}
use freeipa_cloud_prov.Ipa.Values.{
  Value, atom, str, wrapped, list, Failure, key_error, same_value, atom_eq,
}
use freeipa_cloud_prov.Ipa.Client.{
  ClassSpec, ParamSpec, str_kind, list_kind, base_methods, Task, text_value,
}
use freeipa_cloud_prov.Ipa.Clean.{clean}
use freeipa_cloud_prov.Ipa.Session.{Request}
use freeipa_cloud_prov.Ipa.Hooks.{Client, base_client, true_value}
use freeipa_cloud_prov.Ipa.Classes.Zone.{of_kind}

abbrev pub record_kinds : List String
record_kinds =
    "arecord" ∷ "aaaarecord" ∷ "a6record" ∷ "afsdbrecord" ∷ "cnamerecord" ∷ "certrecord"
    ∷ "dlvrecord" ∷ "dnamerecord" ∷ "dsrecord" ∷ "ksrecord" ∷ "locrecord" ∷ "mxrecord"
    ∷ "naptrrecord" ∷ "nsrecord" ∷ "ptrrecord" ∷ "srvrecord" ∷ "sshfprecord" ∷ "tlsarecord"
    ∷ "txtrecord" ∷ []

abbrev pub list_params : List String → Dict ParamSpec
list_params [] = []
list_params (k ∷ ks) = (k, of_kind list_kind) ∷ list_params ks

abbrev pub dnsrecord_spec : ClassSpec
dnsrecord_spec = record {
  name = "dnsrecord";
  methods = base_methods;
  kw_args = ("zone", of_kind str_kind) ∷ ("idnsname", of_kind str_kind) ∷ list_params record_kinds;
  param_keys = "idnsname" ∷ "zone" ∷ [];
  own_base_keys = none;
}

-- `d[k]`
abbrev pub lookup : String → Dict Value → Result Failure Value
lookup k d = elim (get k d) [ none ↦ err (key_error k) | some v ↦ ok v ]

-- `{'__dns_name__': v}`; only a text can be the value
abbrev pub dns_name : Value → Value
dns_name (atom (str s)) = atom (wrapped "__dns_name__" s)
dns_name v = v

unfoldable pub record_zone : Task → Result Failure (List Value)
record_zone t = do
  params ← clean dnsrecord_spec t.params
  zone ← lookup "zone" params
  ok (zone ∷ [])

-- `is_origin`, which `find_request_item` sets
unfoldable pub is_origin : Task → Result Failure Bool
is_origin t = do
  params ← clean dnsrecord_spec t.params
  name ← lookup "idnsname" params
  ok (same_value name (text_value "@"))

unfoldable pub record_find_item : Task → Result Failure (Dict Value)
record_find_item t = do
  params ← clean dnsrecord_spec t.params
  name ← lookup "idnsname" params
  ok (
      if same_value name (text_value "@")
      then ("all", true_value) ∷ []
      else ("all", true_value) ∷ ("idnsname", dns_name name) ∷ [])

-- `find_filter`: for the origin, only the record whose name is `['@']`
unfoldable pub record_filter : Task → Dict Value → Result Failure Bool
record_filter t item = do
  origin ← is_origin t
  if origin
      then (do name ← lookup "idnsname" item; ok (same_value name (list (str "@" ∷ []))))
      else ok true

unfoldable pub record_mod_params : Task → Result Failure (List Value)
record_mod_params t = do
  params ← clean dnsrecord_spec t.params
  zone ← lookup "zone" params
  name ← lookup "idnsname" params
  ok (zone ∷ dns_name name ∷ [])

-- `rem_request_cleanup`
unfoldable pub record_removal : Request → Request
record_removal q = record q { item = set "del_all" true_value q.item }

abbrev pub dnsrecord_client : Client
dnsrecord_client = record (base_client dnsrecord_spec) {
  find_filter = λ t. some (record_filter t);
  find_request_params = record_zone;
  find_request_item = record_find_item;
  mod_request_params = record_mod_params;
  rem_request_params = λ t curr canon. record_mod_params t;
  rem_request_cleanup = record_removal;
}
