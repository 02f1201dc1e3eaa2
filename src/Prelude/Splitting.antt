-- ===== src/Prelude/Splitting.antt =====
-- `split` undoes `join` for parts without the mark, and `join` undoes `split`.
use Prim.Native.Nat.{ℕ}
use mathlib.Core.Path.{◌≡◌, refl, ap, ◌∙◌}
use mathlib.Core.Bool.{false}
use mathlib.Core.List.{List, [], ◌∷◌, ◌++◌}
use native.Mathlib.Omega.{arith}
use package.freeipa_cloud_prov.Prelude.Tests.{eqb, Bool-cases}
use mathlib.Core.Logic.{inl, inr}
use package.freeipa_cloud_prov.Prelude.Lists.{is_empty}
use package.freeipa_cloud_prov.Prelude.Texts.{Text, split, join, onto_first}

module _ (mark : ℕ) where
  -- A text in which the mark does not occur.
  abbrev pub Without : Text → Type 0
  Without [] = Unit
  Without (c ∷ cs) = (eqb c mark ≡ false) × Without cs

  abbrev pub AllWithout : List Text → Type 0
  AllWithout [] = Unit
  AllWithout (part ∷ parts) = Without part × AllWithout parts

  pub split-Without : (part : Text) → Without part → split mark part ≡ part ∷ []
  unfolding split
  split-Without [] h = refl
  split-Without (c ∷ cs) (other, h) = ground (arith, split-Without cs h)

  pub split-append :
      (part rest : Text)
      → Without part
      → split mark (part ++ (mark ∷ rest)) ≡ part ∷ split mark rest
  unfolding split
  split-append [] rest h = ground arith
  split-append (c ∷ cs) rest (other, h) = ground (arith, split-append cs rest h)

  pub split-join :
      (part : Text) (parts : List Text)
      → Without part
      → AllWithout parts
      → split mark (join (mark ∷ []) (part ∷ parts)) ≡ part ∷ parts
  unfolding join
  split-join part [] h k = split-Without part h
  split-join part (next ∷ parts) h (n, k) =
      split-append part (join (mark ∷ []) (next ∷ parts)) h
      ∙ ap (λ ps. part ∷ ps) (split-join next parts n k)

  onto_first-AllWithout :
      (c : ℕ) (parts : List Text)
      → eqb c mark ≡ false
      → AllWithout parts
      → AllWithout (onto_first c parts)
  onto_first-AllWithout c [] h a = ((h, tt), tt)
  onto_first-AllWithout c (part ∷ parts) h (p, a) = ((h, p), a)

  pub split-AllWithout : (text : Text) → AllWithout (split mark text)
  unfolding split
  split-AllWithout [] = (tt, tt)
  split-AllWithout (c ∷ cs) = elim (Bool-cases (eqb c mark)) [
    | inl hit ↦ rw hit (tt, split-AllWithout cs)
    | inr other ↦ rw other (onto_first-AllWithout c (split mark cs) other (split-AllWithout cs))
  ]

  split_some : (text : Text) → is_empty (split mark text) ≡ false
  unfolding split
  split_some [] = refl
  split_some (c ∷ cs) = ground (arith, split_some cs)

  join-mark :
      (parts : List Text)
      → is_empty parts ≡ false
      → join (mark ∷ []) ([] ∷ parts) ≡ mark ∷ join (mark ∷ []) parts
  unfolding join
  join-mark [] h = cc
  join-mark (part ∷ parts) h = refl

  join-onto_first :
      (c : ℕ) (parts : List Text)
      → is_empty parts ≡ false
      → join (mark ∷ []) (onto_first c parts) ≡ c ∷ join (mark ∷ []) parts
  unfolding join
  join-onto_first c [] h = cc
  join-onto_first c (part ∷ []) h = refl
  join-onto_first c (part ∷ next ∷ parts) h = refl

  pub join-split : (text : Text) → join (mark ∷ []) (split mark text) ≡ text
  unfolding split
  join-split [] = unfold join in refl
  join-split (c ∷ cs) = elim (Bool-cases (eqb c mark)) [
    | inl hit ↦ rw hit (join-mark (split mark cs) (split_some cs) ∙ ground (arith, join-split cs))
    | inr other ↦
        rw other
          (join-onto_first c (split mark cs) (split_some cs) ∙ ap (λ t. c ∷ t) (join-split cs))
  ]
