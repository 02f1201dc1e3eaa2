-- ===== src/Ipa/Diff/Scalars.antt =====
-- The scalar parameters: what the changes set, and what they lead to.
use freeipa_cloud_prov.Prelude.{
  String, ◌≡◌, refl, Bool, true, false, not, Option, none, some, List, [], ◌∷◌, ◌++◌, arith, inl,
  inr, contains, contains-append, ◌==◌, ◌&&◌, ◌||◌, string_eq, if◌then◌else◌, Bool-cases,
}
use freeipa_cloud_prov.Dict.{Dict, get, is_some, keys, contains-keys, NodupKeys}
use freeipa_cloud_prov.Result.{ok, ◌>>=◌, >>=-eq-ok}
use freeipa_cloud_prov.Ipa.Values.{null, Value, atom, same_value}
use freeipa_cloud_prov.Ipa.Client.{
  ClassSpec, ParamSpec, State, absent, exact, argument_spec, without_keys,
}
use freeipa_cloud_prov.Ipa.Diff.{
  is_list_param, scalar_slice, list_add_of, list_del_of, Changes, new_or_changed, keys_with_default,
  scalar_keys, spec_default, get_or, set_scalars, reset_scalars, scalars_of, compute_changes,
}
use freeipa_cloud_prov.Ipa.Diff.Lists.{contains-without_keys}

-- The default of a key, where `argument_spec` has the key.
abbrev pub default_at : ClassSpec → String → Value
default_at c k = elim (get k (argument_spec c)) [
  | none ↦ atom null
  | some p ↦ elim p.default [ none ↦ atom null | some v ↦ v ]
]

-- Whether a parameter of this name has a default.
abbrev pub with_default : Dict ParamSpec → String → Bool
with_default [] k = false
with_default ((j, p) ∷ spec) k = (k == j && is_some p.default) || with_default spec k

abbrev pub has_default : ClassSpec → String → Bool
has_default c k = with_default (argument_spec c) k

pub contains-keys_with_default :
    (spec : Dict ParamSpec) (k : String) → contains (keys_with_default spec) k ≡ with_default spec k
contains-keys_with_default [] k = refl
contains-keys_with_default ((j, p) ∷ spec) k = ground (arith, contains-keys_with_default spec k)

-- Whether a given value differs from what there is.
abbrev pub differs : Value → Option Value → Bool
differs v none = true
differs v (some w) = not (same_value v w)

-- What is written to a scalar parameter, if anything: the parameter's default stands after the
-- value that is given for it and the value that there is.
abbrev pub written : State → Value → Bool → Option Value → Option Value → Option Value
written absent d defaulted none there = none
written absent d defaulted (some v) there =
    if same_value v (elim there [ none ↦ atom null | some w ↦ w ]) then some d else none
written exact d defaulted none none = none
written exact d defaulted none (some w) = if defaulted then none else some d
written _ d defaulted none there = none
written _ d defaulted (some v) there = if differs v there then some v else none

pub get-scalar_slice :
    (c : ClassSpec) (k : String) (d : Dict Value)
    → get k (scalar_slice c d) ≡ (if is_list_param c k then none else get k d)
unfolding scalar_slice
get-scalar_slice c k [] = ground arith
get-scalar_slice c k (_ ∷ d) = ground (arith, get-scalar_slice c k d)

scalar_slice-NodupKeys :
    (c : ClassSpec) (d : Dict Value) → NodupKeys d → NodupKeys (scalar_slice c d)
unfolding scalar_slice
scalar_slice-NodupKeys c [] u = tt
scalar_slice-NodupKeys c ((k, _) ∷ d) (fresh, u) =
    ground (arith, scalar_slice-NodupKeys c d u, get-scalar_slice c k d)

get-set_scalars :
    (c : ClassSpec) (change : Dict Value) (ks : List String) (k : String) (res : Dict Value)
    → set_scalars c change ks ≡ ok res
    → get k res ≡ (if contains ks k then some (get_or k (default_at c k) change) else none)
unfolding set_scalars
get-set_scalars c change [] k res h = ground arith
get-set_scalars c change (j ∷ ks) k res h =
    let (d, pd, h1) = >>=-eq-ok (spec_default c j) _ h in
    let (rest, pr, h2) = >>=-eq-ok (set_scalars c change ks) _ h1 in
    ground (arith, get-set_scalars c change ks k rest pr)

contains-new_or_changed :
    (change curr : Dict Value) (k : String)
    → NodupKeys change
    → contains (new_or_changed change curr) k
      ≡ elim (get k change) [ none ↦ false | some v ↦ differs v (get k curr) ]
contains-new_or_changed [] curr k u = refl
contains-new_or_changed ((j, v) ∷ change) curr k (fresh, u) =
    ground (arith, contains-new_or_changed change curr k u)

get-reset_scalars :
    (c : ClassSpec) (change curr : Dict Value) (k : String) (res : Dict Value)
    → NodupKeys change
    → reset_scalars c change curr ≡ ok res
    → get k res ≡ written absent (default_at c k) false (get k change) (get k curr)
unfolding reset_scalars
get-reset_scalars c [] curr k res u h = ground arith
get-reset_scalars c ((j, v) ∷ change) curr k res (fresh, u) h =
    elim (Bool-cases (same_value v (get_or j (atom null) curr))) [
      | inl hit ↦
          let h0 : (spec_default c j >>= λ d.
          reset_scalars c change curr >>= λ rest. ok ((j, d) ∷ rest))
              ≡ ok res =
            rw hit at h in
          let (d, pd, h1) = >>=-eq-ok (spec_default c j) _ h0 in
          let (rest, pr, h2) = >>=-eq-ok (reset_scalars c change curr) _ h1 in
          ground (arith, get-reset_scalars c change curr k rest u pr)
      | inr miss ↦ ground (arith, get-reset_scalars c change curr k res u (rw miss at h))
    ]

get-scalars_of :
    (c : ClassSpec) (s : State) (change curr : Dict Value) (k : String) (res : Dict Value)
    → NodupKeys change
    → scalars_of c s change curr ≡ ok res
    → get k res ≡ written s (default_at c k) (has_default c k) (get k change) (get k curr)
unfolding scalars_of
get-scalars_of c absent change curr k res u h =
    ground (arith, get-reset_scalars c change curr k res u h)
get-scalars_of c exact change curr k res u h = ground (
  arith,
  get-set_scalars c change (scalar_keys c exact change curr) k res h,
  contains-new_or_changed change curr k u,
  contains-append (new_or_changed change curr)
      (without_keys (keys change ++ keys_with_default (argument_spec c)) (keys curr)) k,
  contains-without_keys (keys change ++ keys_with_default (argument_spec c)) (keys curr) k,
  contains-append (keys change) (keys_with_default (argument_spec c)) k,
  contains-keys_with_default (argument_spec c) k,
  contains-keys k change,
  contains-keys k curr,
)
get-scalars_of c _ change curr k res u h = ground (
  arith,
  get-set_scalars c change (new_or_changed change curr) k res h,
  contains-new_or_changed change curr k u,
)

written-none : (s : State) (d : Value) (defaulted : Bool) → written s d defaulted none none ≡ none
written-none absent d defaulted = refl
written-none exact d defaulted = refl
written-none _ d defaulted = refl

-- A list parameter is not among the scalars.
pub scalars-compute_changes_ne :
    (c : ClassSpec) (s : State) (change curr : Dict Value) (ch : Changes) (k : String)
    → NodupKeys change
    → compute_changes c s change curr ≡ ok ch
    → is_list_param c k ≡ true
    → get k ch.scalars ≡ none
unfolding compute_changes
scalars-compute_changes_ne c s change curr ch k u h is_list =
    let (added, pa, h1) = >>=-eq-ok (list_add_of s _ _) _ h in
    let (removed, pr, h2) = >>=-eq-ok (list_del_of s _ _) _ h1 in
    let (scalars, ps, h3) = >>=-eq-ok (scalars_of c s _ _) _ h2 in
    ground (
      arith,
      get-scalars_of c s (scalar_slice c change) (scalar_slice c curr) k scalars
          (scalar_slice-NodupKeys c change u) ps,
      get-scalar_slice c k change,
      get-scalar_slice c k curr,
      written-none s (default_at c k) (has_default c k),
    )

-- What a successful `compute_changes` writes to a scalar parameter is what the state asks for: a
-- given value that differs; in state `exact`, for one that is not given and has no default, a null
-- where there was a value; in state `absent`, the default where the given value is there. The
-- parameters have no key twice.
pub scalars-compute_changes :
    (c : ClassSpec) (s : State) (change curr : Dict Value) (ch : Changes) (k : String)
    → NodupKeys change
    → compute_changes c s change curr ≡ ok ch
    → is_list_param c k ≡ false
    → get k ch.scalars ≡ written s (default_at c k) (has_default c k) (get k change) (get k curr)
unfolding compute_changes
scalars-compute_changes c s change curr ch k u h scalar =
    let (added, pa, h1) = >>=-eq-ok (list_add_of s _ _) _ h in
    let (removed, pr, h2) = >>=-eq-ok (list_del_of s _ _) _ h1 in
    let (scalars, ps, h3) = >>=-eq-ok (scalars_of c s _ _) _ h2 in
    ground (
      arith,
      get-scalars_of c s (scalar_slice c change) (scalar_slice c curr) k scalars
          (scalar_slice-NodupKeys c change u) ps,
      get-scalar_slice c k change,
      get-scalar_slice c k curr,
    )
