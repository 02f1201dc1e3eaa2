-- ===== src/Ipa/Enablable.antt =====
-- `EnablableIPAClient` of lib/python/ipa.py.
pub mod Flag
use freeipa_cloud_prov.Prelude.{
  ℕ, zero, suc, ◌==◌, String, Bool, true, false, not, Option, none, some, List, [], ◌∷◌, string_eq,
  if◌then◌else◌,
}
use freeipa_cloud_prov.Prelude.Lists.{is_empty}
use freeipa_cloud_prov.Dict.{Dict, get, set, keys}
use freeipa_cloud_prov.Result.{Result, ok, err, ◌>>=◌ as ◌>>=ᵣ◌}
use freeipa_cloud_prov.Exec.{pure, lift, gets, ◌>>=◌, ◌>>◌}
use freeipa_cloud_prov.Ipa.Values.{
  ℤ, Atom, Value, atom, list, table, bool, int, str, null, wrapped, nested, Failure,
}
use freeipa_cloud_prov.Ipa.Client.{
  State, present, absent, exact, enabled, disabled, ClassSpec, ParamSpec, base_keys, method_name,
  enabled_, disabled_, without_keys, Task,
}
use freeipa_cloud_prov.Ipa.Session.{Request, M}
use freeipa_cloud_prov.Ipa.Hooks.{Client, base_client, base_munge_module_params}
use freeipa_cloud_prov.Ipa.Ensure.{response_cleaned, is_absent, entry, enqueue, add_or_mod, rem}

-- The attributes that a subclass sets.
pub record EnableSpec : Type 0 where
  pub enablekey : String
  pub sense_inverted : Bool

-- `base_keys` of a class that does not define it: the key to enable with is taken out.
abbrev pub enablable_base_keys : ClassSpec → EnableSpec → List String
enablable_base_keys c x = elim c.own_base_keys [
  | some ks ↦ ks
  | none ↦ without_keys (x.enablekey ∷ []) (without_keys c.param_keys (keys c.kw_args))
]

-- The class as `init_kw_args` leaves it.
abbrev pub enablable_spec : ClassSpec → EnableSpec → ClassSpec
enablable_spec c x = record c { own_base_keys = some (enablable_base_keys c x) }

abbrev pub flip_if : Bool → Bool → Bool
flip_if true b = not b
flip_if false b = b

-- The value that the state asks of the key, if any.
abbrev pub requested_flag : EnableSpec → State → Option Bool
requested_flag x enabled = some (flip_if x.sense_inverted true)
requested_flag x disabled = some (flip_if x.sense_inverted false)
requested_flag x _ = none

abbrev pub put_flag : EnableSpec → State → Dict Value → Dict Value
put_flag x s item = elim (requested_flag x s) [
  | none ↦ item
  | some b ↦ set x.enablekey (atom (bool b)) item
]

unfoldable pub enablable_munge_module_params :
    ClassSpec → EnableSpec → Task → Result Failure (Dict Value)
enablable_munge_module_params c x t =
    base_munge_module_params c t >>=ᵣ λ item. ok (put_flag x t.state item)

-- A value as a condition.
abbrev pub truth : Value → Bool
truth (atom null) = false
truth (atom (bool b)) = b
truth (atom (int (ℤ.pos zero))) = false
truth (atom (int _)) = true
truth (atom (str s)) = not (s == "")
truth (atom (wrapped _ _)) = true
truth (atom (nested t)) = not (is_empty t)
truth (list xs) = not (is_empty xs)
truth (table t) = not (is_empty t)

abbrev pub asks_flag : State → Bool
asks_flag enabled = true
asks_flag disabled = true
asks_flag _ = false

module _ (c : Client) (x : EnableSpec) (t : Task) where
  -- The end of `enable_or_disable`.
  unfoldable pub queue_flag : Value → M Bool
  queue_flag v = do
    name ← lift (c.mod_request_params t)
    enqueue (
        entry "enable_or_disable" (record {
          method =
              method_name c.spec
                (if flip_if x.sense_inverted (truth v) then enabled_ else disabled_);
          name = name;
          item = [];
        }))
    pure false

  abbrev flag_change : Option Value → M Bool
  flag_change none = pure false
  flag_change (some v) = do
    missing ← is_absent
    if missing
        then pure false
        else if not (asks_flag t.state)
        then pure false
        else if t.check_mode
        then pure false
        else queue_flag v

  unfoldable pub enable_or_disable : M Bool
  enable_or_disable = do diffs ← gets (λ r. r.diffs); flag_change (get x.enablekey diffs.scalars)

-- `EnablableIPAClient`, for a class that overrides nothing else
abbrev pub enablable_client : ClassSpec → EnableSpec → Client
enablable_client c x = record (base_client (enablable_spec c x)) {
  munge_module_params = enablable_munge_module_params (enablable_spec c x) x;
}

abbrev pub enablable_changes : Client → EnableSpec → Task → List (M Bool)
enablable_changes c x t = rem c t ∷ add_or_mod c t ∷ enable_or_disable c x t ∷ []
