-- ===== src/Ipa/Clean.antt =====
-- `clean`, `munge_pop_request_keys` and `munge_state_exact_add_defaults` of lib/python/ipa.py.
pub mod NoNull
pub mod Typed
use freeipa_cloud_prov.Prelude.{
  String, true, false, Option, none, some, List, [], ◌∷◌, contains, map, string_eq, if◌then◌else◌,
}
use freeipa_cloud_prov.Prelude.Texts.{lower_is}
use freeipa_cloud_prov.Dict.{Dict, get, has, set, keys, erase}
use freeipa_cloud_prov.Result.{Result, ok, err, ◌>>=◌}
use freeipa_cloud_prov.Ipa.Values.{
  ℤ, Atom, nested, Value, null, bool, int, str, atom, list, Failure, value_error, index_error,
  int_of,
}
use freeipa_cloud_prov.Ipa.Texts.{text_of}
use freeipa_cloud_prov.Ipa.Client.{
  State, Kind, str_kind, bool_kind, int_kind, list_kind, ParamSpec, ClassSpec, argument_spec,
}

-- A dict as an element of a list
abbrev pub nested_of : List (String × List Atom) → Atom
nested_of t = nested (map (λ e. (e.0, map text_of (e.1))) t)

-- A list parameter: a scalar or a dict is put into a list, and an empty value (`none`) is ignored.
unfoldable pub clean_list : Value → Option Value
clean_list (list []) = none
clean_list (list (null ∷ _)) = none
clean_list (list (a ∷ xs)) = some (list (a ∷ xs))
clean_list (atom null) = none
clean_list (atom a) = some (list (a ∷ []))
clean_list (Value.table t) = some (list (nested_of t ∷ []))

-- A scalar parameter: a list is replaced by its head.
unfoldable pub clean_scalar : Value → Result Failure (Option Value)
clean_scalar (list []) = err index_error
clean_scalar (list (null ∷ _)) = ok none
clean_scalar (list (a ∷ _)) = ok (some (atom a))
clean_scalar (atom null) = ok none
clean_scalar (atom a) = ok (some (atom a))
clean_scalar (Value.table t) = ok (some (Value.table t))

-- 'TRUE' and 'FALSE' become booleans, in a boolean parameter.
unfoldable pub to_bool : Value → Value
to_bool (atom (str s)) =
    if lower_is s "true"
    then atom (bool true)
    else if lower_is s "false"
    then atom (bool false)
    else atom (str s)
to_bool v = v

parsed_int : Option ℤ → Result Failure Value
parsed_int none = err value_error
parsed_int (some n) = ok (atom (int n))

-- A text becomes a number, in an integer parameter.
unfoldable pub to_int : Value → Result Failure Value
unfolding parsed_int
to_int (atom (str s)) = parsed_int (int_of s)
to_int v = ok v

convert_int : Option Value → Result Failure (Option Value)
convert_int none = ok none
convert_int (some v) = do n ← to_int v; ok (some n)

convert_bool : Option Value → Option Value
convert_bool none = none
convert_bool (some v) = some (to_bool v)

-- One value, by the kind of its parameter; `none` where the loop goes on to the next key.
unfoldable pub clean_value : Kind → Value → Result Failure (Option Value)
unfolding clean_list clean_scalar to_bool to_int convert_int convert_bool
clean_value list_kind v = ok (clean_list v)
clean_value str_kind v = clean_scalar v
clean_value bool_kind v = do c ← clean_scalar v; ok (convert_bool c)
clean_value int_kind v = do c ← clean_scalar v; convert_int c

abbrev pub put_value : String → Option Value → Dict Value → Dict Value
put_value k none d = d
put_value k (some v) d = set k v d

-- The loop of `clean` over the items of `dirty`.
unfoldable pub clean_onto : Dict ParamSpec → Dict Value → Dict Value → Result Failure (Dict Value)
clean_onto kw item [] = ok item
clean_onto kw item ((k, v) ∷ dirty) = elim (get k kw) [
  | none ↦ clean_onto kw item dirty
  | some p ↦ clean_value p.kind v >>= λ c. clean_onto kw (put_value k c item) dirty
]

-- `clean`, over `param_data`, which has the keys and types of `kw_args`
unfoldable pub clean : ClassSpec → Dict Value → Result Failure (Dict Value)
unfolding clean_onto
clean c dirty = clean_onto c.kw_args [] dirty

-- The loop of `munge_pop_request_keys` over a copy of the keys.
abbrev pub pop_keys : List String → List String → Dict Value → Dict Value
pop_keys param_keys [] item = item
pop_keys param_keys (k ∷ ks) item =
    pop_keys param_keys ks (if contains param_keys k then erase k item else item)

unfoldable pub munge_pop_request_keys : ClassSpec → Dict Value → Dict Value
munge_pop_request_keys c item = pop_keys c.param_keys (keys item) item

-- The loop over `argument_spec`: a key that is set or has no default is passed over.
abbrev pub add_defaults : Dict ParamSpec → Dict Value → Dict Value
add_defaults [] item = item
add_defaults ((k, p) ∷ spec) item =
    add_defaults spec
      (if has k item then item else elim p.default [ none ↦ item | some v ↦ set k v item ])

unfoldable pub munge_state_exact_add_defaults : ClassSpec → State → Dict Value → Dict Value
munge_state_exact_add_defaults c State.exact item = add_defaults (argument_spec c) item
munge_state_exact_add_defaults c _ item = item
