-- ===== src/Ipa/Diff.antt =====
-- `get_slice`, `op` and `compute_changes` of lib/python/ipa.py.
pub mod Lists
pub mod Scalars
pub mod Again
use freeipa_cloud_prov.Prelude.{
  String, Bool, true, false, not, ◌&&◌, ◌||◌, Option, none, some, List, [], ◌∷◌, ◌++◌, contains,
  string_eq, if◌then◌else◌,
}
use freeipa_cloud_prov.Prelude.Lists.{is_empty}
use freeipa_cloud_prov.Dict.{Dict, get, has, set, keys}
use freeipa_cloud_prov.Result.{Result, ok, err, ◌>>=◌}
use freeipa_cloud_prov.Ipa.Values.{
  Atom, Value, null, atom, list, Failure, key_error, set_of, same_value, difference, intersection,
}
use freeipa_cloud_prov.Ipa.Client.{
  State, present, absent, exact, Kind, list_kind, ParamSpec, ClassSpec, argument_spec, default_of,
  without_keys,
}

abbrev pub is_list : Kind → Bool
is_list list_kind = true
is_list _ = false

-- `self.param_data.get(key,{}).get('type',None) == 'list'`
abbrev pub is_list_param : ClassSpec → String → Bool
is_list_param c k = elim (get k c.kw_args) [ none ↦ false | some p ↦ is_list p.kind ]

-- `get_slice(params)['list']`
unfoldable pub list_slice : ClassSpec → Dict Value → Dict Value
list_slice c [] = []
list_slice c ((k, v) ∷ d) =
    let rest = list_slice c d in if is_list_param c k then (k, v) ∷ rest else rest

-- `get_slice(params)['scalar']`
unfoldable pub scalar_slice : ClassSpec → Dict Value → Dict Value
scalar_slice c [] = []
scalar_slice c ((k, v) ∷ d) =
    let rest = scalar_slice c d in if is_list_param c k then rest else (k, v) ∷ rest

-- `set(d.get(k, []))`
unfoldable pub values_at : String → Dict Value → Result Failure (List Atom)
values_at k d = elim (get k d) [ none ↦ ok [] | some v ↦ set_of v ]

-- A key stays out of the result where no value is left.
abbrev pub keep_some : String → List Atom → Dict (List Atom) → Dict (List Atom)
keep_some k vs res = if is_empty vs then res else (k, vs) ∷ res

unfoldable pub op_keys :
    (List Atom → List Atom → List Atom)
    → Dict Value
    → Dict Value
    → List String
    → Result Failure (Dict (List Atom))
op_keys f a b [] = ok []
op_keys f a b (k ∷ ks) = do
  xs ← values_at k a
  ys ← values_at k b
  res ← op_keys f a b ks
  ok (keep_some k (f xs ys) res)

-- `op`, over `set(a) | set(b)`
unfoldable pub op :
    (List Atom → List Atom → List Atom)
    → Dict Value
    → Dict Value
    → Result Failure (Dict (List Atom))
unfolding op_keys
op f a b = op_keys f a b (keys a ++ without_keys (keys a) (keys b))

pub record Changes : Type 0 where
  pub scalars : Dict Value
  pub list_add : Dict (List Atom)
  pub list_del : Dict (List Atom)

-- Values to add, with the list slices of what is wanted and what there is.
unfoldable pub list_add_of : State → Dict Value → Dict Value → Result Failure (Dict (List Atom))
list_add_of absent change curr = ok []
list_add_of _ change curr = op difference change curr

-- Values to remove.
unfoldable pub list_del_of : State → Dict Value → Dict Value → Result Failure (Dict (List Atom))
list_del_of exact change curr = op difference curr change
list_del_of absent change curr = op intersection change curr
list_del_of _ change curr = ok []

-- The keys of `change` that `curr` lacks, or whose values differ.
abbrev pub new_or_changed : Dict Value → Dict Value → List String
new_or_changed [] curr = []
new_or_changed ((k, v) ∷ change) curr =
    let rest = new_or_changed change curr in
    elim (get k curr) [ none ↦ k ∷ rest | some w ↦ if same_value v w then rest else k ∷ rest ]

-- `[k for k in self.argument_spec if 'default' in self.argument_spec[k]]`
abbrev pub keys_with_default : Dict ParamSpec → List String
keys_with_default [] = []
keys_with_default ((k, p) ∷ spec) =
    let rest = keys_with_default spec in elim p.default [ none ↦ rest | some _ ↦ k ∷ rest ]

-- The keys of scalars to set, outside state `absent`.
abbrev pub scalar_keys : ClassSpec → State → Dict Value → Dict Value → List String
scalar_keys c exact change curr =
    new_or_changed change curr
    ++ without_keys (keys change ++ keys_with_default (argument_spec c)) (keys curr)
scalar_keys c _ change curr = new_or_changed change curr

-- `self.argument_spec[k].get('default', None)`
abbrev pub spec_default : ClassSpec → String → Result Failure Value
spec_default c k = elim (get k (argument_spec c)) [
  | none ↦ err (key_error k)
  | some p ↦ ok (default_of p)
]

-- `change_params.get(k, default)`
abbrev pub get_or : String → Value → Dict Value → Value
get_or k default d = elim (get k d) [ none ↦ default | some v ↦ v ]

-- `for k in scalar_keys`; the default is looked up for a key of `change_params` too
unfoldable pub set_scalars : ClassSpec → Dict Value → List String → Result Failure (Dict Value)
set_scalars c change [] = ok []
set_scalars c change (k ∷ ks) = do
  d ← spec_default c k
  rest ← set_scalars c change ks
  ok ((k, get_or k d change) ∷ rest)

-- State `absent`: a scalar that has the given value, or is missing where that is null, is reset.
unfoldable pub reset_scalars : ClassSpec → Dict Value → Dict Value → Result Failure (Dict Value)
reset_scalars c [] curr = ok []
reset_scalars c ((k, v) ∷ change) curr =
    let reset : Result Failure (Dict Value) = do
      d ← spec_default c k
      rest ← reset_scalars c change curr
      ok ((k, d) ∷ rest)
    in let rest = reset_scalars c change curr in
      if same_value v (get_or k (atom null) curr) then reset else rest

unfoldable pub scalars_of :
    ClassSpec → State → Dict Value → Dict Value → Result Failure (Dict Value)
unfolding set_scalars reset_scalars
scalars_of c absent change curr = reset_scalars c change curr
scalars_of c s change curr = set_scalars c change (scalar_keys c s change curr)

unfoldable pub compute_changes :
    ClassSpec → State → Dict Value → Dict Value → Result Failure Changes
compute_changes c s change curr = do
  added ← list_add_of s (list_slice c change) (list_slice c curr)
  removed ← list_del_of s (list_slice c change) (list_slice c curr)
  scalars ← scalars_of c s (scalar_slice c change) (scalar_slice c curr)
  ok (record { scalars = scalars; list_add = added; list_del = removed })
