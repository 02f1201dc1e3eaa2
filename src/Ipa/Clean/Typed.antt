-- ===== src/Ipa/Clean/Typed.antt =====
-- What `clean` of lib/python/ipa.py makes of each value, by the kind of its parameter.
use freeipa_cloud_prov.Prelude.{
  String, ◌≡◌, subst, Bool, true, false, not, ◌&&◌, Option, none, some, [], ◌∷◌, arith, string_eq,
  inl, inr, Option-cases,
}
use freeipa_cloud_prov.Prelude.Texts.{lower_is}
use freeipa_cloud_prov.Dict.{Dict, get, set, get-set}
use freeipa_cloud_prov.Result.{ok, >>=-eq-ok}
use freeipa_cloud_prov.Ipa.Values.{Value, null, str, atom, list}
use freeipa_cloud_prov.Ipa.Client.{Kind, bool_kind, int_kind, list_kind, ParamSpec, ClassSpec}
use freeipa_cloud_prov.Ipa.Clean.{
  clean_list, clean_scalar, to_bool, to_int, clean_value, put_value, clean_onto, clean,
}

-- A value of a parameter: a list parameter has a list that does not begin with a null; another has
-- a scalar or a dict, and where a boolean or an integer is due no text that could be
-- read as one.
abbrev pub fits : Kind → Value → Bool
fits list_kind (list []) = false
fits list_kind (list (null ∷ _)) = false
fits list_kind (list (_ ∷ _)) = true
fits list_kind (atom _) = false
fits list_kind (Value.table _) = false
fits _ (list _) = false
fits _ (atom null) = false
fits bool_kind (atom (str s)) = not (lower_is s "true") && not (lower_is s "false")
fits int_kind (atom (str s)) = false
fits _ _ = true

clean_value-fits :
    (kind : Kind) (v w : Value) → clean_value kind v ≡ ok (some w) → fits kind w ≡ true
unfolding clean_value clean_list clean_scalar to_bool to_int
clean_value-fits kind v w h = ground arith

-- The parameter of a key, which the value fits.
abbrev pub Declared : Dict ParamSpec → String → Value → Type 0
Declared kw k v = (p : ParamSpec) × (get k kw ≡ some p) × (fits p.kind v ≡ true)

abbrev AllDeclared : Dict ParamSpec → Dict Value → Type 0
AllDeclared kw d = (k : String) (v : Value) → get k d ≡ some v → Declared kw k v

set-AllDeclared :
    (kw : Dict ParamSpec) (j : String) (w : Value) (d : Dict Value)
    → Declared kw j w
    → AllDeclared kw d
    → AllDeclared kw (set j w d)
set-AllDeclared kw j w d declared all k v h = elim (string_eq.dec k j) [
  | yes e ↦
      let same : w ≡ v =
        ground (arith, get-set j j w d, subst (λ i. get i (set j w d) ≡ some v) e h) in
      rw e (subst (Declared kw j) same declared)
  | no n ↦ all k v (ground (arith, get-set k j w d))
]

put_value-AllDeclared :
    (kw : Dict ParamSpec) (k : String) (p : ParamSpec) (v : Value) (cleaned : Option Value)
    (d : Dict Value)
    → get k kw ≡ some p
    → clean_value p.kind v ≡ ok cleaned
    → AllDeclared kw d
    → AllDeclared kw (put_value k cleaned d)
put_value-AllDeclared kw k p v none d there h all = all
put_value-AllDeclared kw k p v (some w) d there h all =
    set-AllDeclared kw k w d (p, there, clean_value-fits p.kind v w h) all

clean_onto-AllDeclared :
    (kw : Dict ParamSpec) (item dirty out : Dict Value)
    → clean_onto kw item dirty ≡ ok out
    → AllDeclared kw item
    → AllDeclared kw out
unfolding clean_onto
clean_onto-AllDeclared kw item [] out h all =
    let same : item ≡ out = cc in subst (AllDeclared kw) same all
clean_onto-AllDeclared kw item ((k, v) ∷ dirty) out h all = elim (Option-cases (get k kw)) [
  | inl none_there ↦ clean_onto-AllDeclared kw item dirty out (rw (clean_onto, none_there) at h) all
  | inr (p, there) ↦
      let (cleaned, hc, rest) = >>=-eq-ok (clean_value p.kind v) _ (rw (clean_onto, there) at h) in
      clean_onto-AllDeclared kw (put_value k cleaned item) dirty out rest
        (put_value-AllDeclared kw k p v cleaned item there hc all)
]

-- Each value that `clean` gives belongs to a parameter of the class and fits its kind: a list
-- parameter has a list that does not begin with a null; another has a scalar other than null, or a
-- dict, with no text where an integer is due, and no text that reads as a boolean where a boolean
-- is.
pub clean-Declared :
    (c : ClassSpec) (dirty out : Dict Value) (k : String) (v : Value)
    → clean c dirty ≡ ok out
    → get k out ≡ some v
    → Declared c.kw_args k v
unfolding clean
clean-Declared c dirty out k v h =
    clean_onto-AllDeclared c.kw_args [] dirty out h (λ j w e. ground arith) k v
