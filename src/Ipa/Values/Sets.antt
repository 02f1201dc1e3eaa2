-- ===== src/Ipa/Values/Sets.antt =====
-- Membership in Python's sets of scalars.
use freeipa_cloud_prov.Prelude.{
  String, string_eq, ◌≡◌, refl, ap, Bool, true, false, not, ◌&&◌, List, [], ◌∷◌, arith, ==_iff,
}
use freeipa_cloud_prov.Prelude.Lists.{select}
use freeipa_cloud_prov.Ipa.Values.{
  Atom, Value, atom, list, table, same_list, same_table, same_value, norm, atom_eq, same, member,
  to_set, difference, intersection,
}

pub same_refl : (a : Atom) → same a a ≡ true
same_refl a = (==_iff (norm a) (norm a)).1 refl

pub member-same : (xs : List Atom) (a b : Atom) → same a b ≡ true → member xs a ≡ member xs b
member-same [] a b h = refl
member-same (x ∷ xs) a b h = ground (arith, member-same xs a b h)

-- A test that does not tell equal scalars apart.
abbrev pub Respects : (Atom → Bool) → Type 0
Respects p = (a b : Atom) → same a b ≡ true → p a ≡ p b

pub member-select :
    (p : Atom → Bool) (xs : List Atom) (a : Atom)
    → Respects p
    → member (select p xs) a ≡ (member xs a && p a)
member-select p [] a h = refl
member-select p (x ∷ xs) a h = ground (arith, member-select p xs a h, h a x)

pub member-to_set : (xs : List Atom) (a : Atom) → member (to_set xs) a ≡ member xs a
member-to_set [] a = refl
member-to_set (x ∷ xs) a = ground (
  arith,
  member-to_set xs a,
  member-select (λ y. not (same x y)) (to_set xs) a (λ b c h. ground arith),
)

pub member-difference :
    (xs ys : List Atom) (a : Atom)
    → member (difference xs ys) a ≡ (member xs a && not (member ys a))
member-difference xs ys a =
    member-select (λ x. not (member ys x)) xs a (λ b c h. ap not (member-same ys b c h))

pub member-intersection :
    (xs ys : List Atom) (a : Atom) → member (intersection xs ys) a ≡ (member xs a && member ys a)
member-intersection xs ys a = member-select (λ x. member ys x) xs a (member-same ys)

-- A list with no member is empty.
pub eq_nil_of_member : (xs : List Atom) → ((a : Atom) → member xs a ≡ false) → xs ≡ []
eq_nil_of_member [] h = refl
eq_nil_of_member (x ∷ xs) h = ground (arith, h x, same_refl x)

same_list_refl : (xs : List Atom) → same_list xs xs ≡ true
same_list_refl [] = refl
same_list_refl (x ∷ xs) = ground (arith, same_list_refl xs, same_refl x)

same_table_refl : (t : List (String × List Atom)) → same_table t t ≡ true
same_table_refl [] = refl
same_table_refl ((k, xs) ∷ t) =
    ground (arith, same_table_refl t, same_list_refl xs, (==_iff k k).1 refl)

pub same_value_refl : (v : Value) → same_value v v ≡ true
same_value_refl (atom a) = same_refl a
same_value_refl (list xs) = same_list_refl xs
same_value_refl (table t) = same_table_refl t
