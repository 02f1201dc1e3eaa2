-- ===== src/Prelude/SameText.antt =====
-- `==` and `in` of texts.
use mathlib.Core.Path.{◌≡◌, refl, ap}
use mathlib.Core.Bool.{true}
use mathlib.Core.List.{List, [], ◌∷◌}
use native.Mathlib.Omega.{arith}
use package.freeipa_cloud_prov.Prelude.Texts.{Text, same_text, text_in}

pub same_text_refl : (t : Text) → same_text t t ≡ true
same_text_refl [] = refl
same_text_refl (c ∷ cs) = ground (arith, same_text_refl cs)

pub same_text_eq : (s t : Text) → same_text s t ≡ true → s ≡ t
same_text_eq [] [] h = refl
same_text_eq [] (_ ∷ _) h = cc
same_text_eq (_ ∷ _) [] h = cc
same_text_eq (a ∷ s) (b ∷ t) h = ground (arith, same_text_eq s t)

pub text_in_same :
    (xs : List Text) (s t : Text) → same_text s t ≡ true → text_in xs s ≡ text_in xs t
text_in_same xs s t h = ap (text_in xs) (same_text_eq s t h)
