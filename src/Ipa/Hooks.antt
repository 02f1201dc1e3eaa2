-- ===== src/Ipa/Hooks.antt =====
-- The methods of `IPAClient` that subclasses override, as a record with the base class's own.
use freeipa_cloud_prov.Prelude.{
  String, Bool, true, not, none, some, List, [], ◌∷◌, ◌++◌, contains, string_eq, if◌then◌else◌,
}
use freeipa_cloud_prov.Prelude.Lists.{is_empty}
use freeipa_cloud_prov.Dict.{Dict, get, has, set}
use freeipa_cloud_prov.Result.{Result, ok, ◌>>=◌}
use freeipa_cloud_prov.Ipa.Values.{Atom, Value, Failure}
use freeipa_cloud_prov.Ipa.Client.{ClassSpec, Task}
use freeipa_cloud_prov.Ipa.Clean.{clean, munge_pop_request_keys, munge_state_exact_add_defaults}
use freeipa_cloud_prov.Ipa.Diff.{Changes, compute_changes}
use freeipa_cloud_prov.Ipa.Session.{Filter, Request}

-- `rem_request_*` read the cleaned find response and the cleaned parameters, in this order.
pub record Client : Type 0 where
  pub spec : ClassSpec
  pub find_filter : Task → Filter
  pub munge_module_params : Task → Result Failure (Dict Value)
  pub find_request_params : Task → Result Failure (List Value)
  pub find_request_item : Task → Result Failure (Dict Value)
  pub munge_response : Task → Dict Value → Result Failure (Dict Value)
  pub compute_changes_ : Task → Dict Value → Dict Value → Result Failure Changes
  pub mod_request_params : Task → Result Failure (List Value)
  pub check_mod_request : Request → Result Failure Request
  pub is_rem_param_request : Dict Value → Bool
  pub rem_request_params : Task → Dict Value → Dict Value → Result Failure (List Value)
  pub rem_request_item : Dict Value → Dict Value → Result Failure (Dict Value)
  pub rem_request_cleanup : Request → Request

abbrev pub true_value : Value
true_value = Value.atom (Atom.bool true)

-- `munge_module_params`
unfoldable pub base_munge_module_params : ClassSpec → Task → Result Failure (Dict Value)
base_munge_module_params c t = do
  item ← clean c t.params
  ok (munge_state_exact_add_defaults c t.state (munge_pop_request_keys c item))

-- The loop of `find_request_item` over `param_keys`.
abbrev pub request_keys : List String → Dict Value → Dict Value → Dict Value
request_keys [] params item = item
request_keys (k ∷ ks) params item =
    request_keys ks params (elim (get k params) [ none ↦ item | some v ↦ set k v item ])

unfoldable pub base_find_request_item : ClassSpec → Task → Result Failure (Dict Value)
base_find_request_item c t = ok (request_keys c.param_keys t.params (("all", true_value) ∷ []))

-- `munge_response`
unfoldable pub base_munge_response : ClassSpec → Task → Dict Value → Result Failure (Dict Value)
base_munge_response c t response = do item ← clean c response; ok (munge_pop_request_keys c item)

-- The loop of `mod_request_params` over the module's parameters.
abbrev pub key_values : ClassSpec → Dict Value → List Value
key_values c [] = []
key_values c ((k, v) ∷ params) =
    let rest = key_values c params in
    if has k c.kw_args then (if contains c.param_keys k then v ∷ rest else rest) else rest

-- `mod_request_params`, with the values of `extra_vals` behind the keys
unfoldable pub base_mod_request_params : ClassSpec → List Value → Task → Result Failure (List Value)
base_mod_request_params c extra_vals t = ok (key_values c t.params ++ extra_vals)

-- `IPAClient` itself, for the attributes of a class that overrides no method
abbrev pub base_client : ClassSpec → Client
base_client c = record {
  spec = c;
  find_filter = λ t. none;
  munge_module_params = base_munge_module_params c;
  find_request_params = λ t. ok [];
  find_request_item = base_find_request_item c;
  munge_response = base_munge_response c;
  compute_changes_ = λ t change curr. compute_changes c t.state change curr;
  mod_request_params = base_mod_request_params c [];
  check_mod_request = λ q. ok q;
  is_rem_param_request = λ canon. not (is_empty canon);
  rem_request_params = λ t curr canon. base_mod_request_params c [] t;
  rem_request_item = λ curr canon. ok [];
  rem_request_cleanup = λ q. q;
}
