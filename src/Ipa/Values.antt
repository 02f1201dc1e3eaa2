-- ===== src/Ipa/Values.antt =====
-- The values that module parameters and API replies hold, with Python's `==`, its sets and `int`.
pub mod Sets
use Prim.Native.String
use mathlib.Core.List.{foldl}
use native.Mathlib.Decide.{ℕ_discrete}
use freeipa_cloud_prov.Prelude.{
  ℕ, suc, ◌+◌, ◌-◌, ◌*◌, String, ◌≡◌, refl, Bool, true, false, not, ◌&&◌, ◌||◌, Option, none, some,
  List, [], ◌∷◌, ◌++◌, map, arith, Eq, ◌==◌, string_eq, if◌then◌else◌, leb, eqb,
}
use freeipa_cloud_prov.Prelude.Lists.{select}
pub use freeipa_cloud_prov.Prelude.Numerals.{ℤ, pos, negsuc}
unfoldable pub use freeipa_cloud_prov.Prelude.Numerals.{int_of}
use freeipa_cloud_prov.Result.{Result, ok, err, ◌>>=◌}

-- A scalar, or a dict with one text such as `{'__dns_name__': 'host1'}`, or another dict that is an
-- element of a list: `nested` has its keys, each with the texts of its values.
pub data Atom : Type 0 where
  null : Atom
  bool : Bool → Atom
  int : ℤ → Atom
  str : String → Atom
  wrapped : String → String → Atom
  nested : List (String × List String) → Atom

-- `table` is the dict of lists that `add_or_mod` keeps under `addattr` and `delattr`.
pub data Value : Type 0 where
  atom : Atom → Value
  list : List Atom → Value
  table : List (String × List Atom) → Value

-- What ends a module: a call of `fail_json` with its message and error, or an exception.
pub data Failure : Type 0 where
  fail_json : String → String → Failure
  type_error : Failure
  value_error : Failure
  index_error : Failure
  attribute_error : Failure
  key_error : String → Failure
  raised : String → Failure

-- Python 2 compares a boolean as the number that it is.
abbrev pub norm : Atom → Atom
norm (bool true) = int (pos 1)
norm (bool false) = int (pos 0)
norm null = null
norm (int n) = int n
norm (str s) = str s
norm (wrapped k s) = wrapped k s
norm (nested t) = nested t

Atom-discrete : Discrete Atom
Atom-discrete = hlevel (ℕ_discrete, string_eq.dec)

instance unfoldable pub atom_eq : Eq Atom
unfolding Atom-discrete
atom_eq = record { dec = Atom-discrete }

-- `a == b`
abbrev pub same : Atom → Atom → Bool
same a b = norm a == norm b

-- `a in xs`
abbrev pub member : List Atom → Atom → Bool
member [] a = false
member (x ∷ xs) a = same a x || member xs a

abbrev pub same_list : List Atom → List Atom → Bool
same_list [] [] = true
same_list (a ∷ xs) (b ∷ ys) = same a b && same_list xs ys
same_list [] (_ ∷ _) = false
same_list (_ ∷ _) [] = false

abbrev pub same_table : List (String × List Atom) → List (String × List Atom) → Bool
same_table [] [] = true
same_table ((j, xs) ∷ t) ((k, ys) ∷ u) = j == k && same_list xs ys && same_table t u
same_table [] (_ ∷ _) = false
same_table (_ ∷ _) [] = false

-- `==` of two attribute values; tables are compared in order.
abbrev pub same_value : Value → Value → Bool
same_value (atom a) (atom b) = same a b
same_value (list xs) (list ys) = same_list xs ys
same_value (table t) (table u) = same_table t u
same_value _ _ = false

-- `set(xs)`, each element once
abbrev pub to_set : List Atom → List Atom
to_set [] = []
to_set (x ∷ xs) = let rest = to_set xs in x ∷ select (λ y. not (same x y)) rest

-- A dict cannot be an element of a set.
abbrev pub hashable : Atom → Bool
hashable (wrapped _ _) = false
hashable (nested _) = false
hashable _ = true

abbrev pub all_hashable : List Atom → Bool
all_hashable [] = true
all_hashable (x ∷ xs) = hashable x && all_hashable xs

abbrev pub letters : String → List Atom
letters String.[] = []
letters (String.◌∷◌ c s) = str (String.◌∷◌ c String.[]) ∷ letters s

-- `set(v)`: of a string its letters, of a dict its keys
unfoldable pub set_of : Value → Result Failure (List Atom)
set_of (list xs) = if all_hashable xs then ok (to_set xs) else err type_error
set_of (atom (str s)) = ok (to_set (letters s))
set_of (atom (wrapped k _)) = ok (str k ∷ [])
set_of (atom (nested t)) = ok (to_set (map (λ e. str (e.0)) t))
set_of (atom _) = err type_error
set_of (table t) = ok (to_set (map (λ e. str (e.0)) t))

abbrev pub difference : List Atom → List Atom → List Atom
difference xs ys = select (λ x. not (member ys x)) xs

abbrev pub intersection : List Atom → List Atom → List Atom
intersection xs ys = select (λ x. member ys x) xs
