-- ===== src/Result.antt =====
-- Results of code that may raise an exception or end the module with `fail_json`.
use freeipa_cloud_prov.Prelude.{◌≡◌, refl, ◌⊎◌, inl, inr}

pub data Result {ℓ κ} (E : Type ℓ) (A : Type κ) : Type (ℓ ⊔ κ) where
  ok : A → Result E A
  err : E → Result E A

infixl 5 ◌>>=◌
abbrev pub ◌>>=◌ {ℓ κ μ} :
    {E : Type ℓ} {A : Type κ} {B : Type μ} → Result E A → (A → Result E B) → Result E B
ok a >>= f = f a
err e >>= f = err e

module _ {ℓ κ μ} {E : Type ℓ} {A : Type κ} {B : Type μ} where
  -- Where both steps in a row succeed, the first has a value, and the second succeeds from it.
  pub >>=-eq-ok :
      (first : Result E A) (next : A → Result E B) {out : B}
      → (first >>= next) ≡ ok out
      → (x : A) × (first ≡ ok x) × (next x ≡ ok out)
  >>=-eq-ok (err e) next fails = cc
  >>=-eq-ok (ok x) next succeeds = (x, refl, succeeds)

pub Result-cases {ℓ κ} :
    {E : Type ℓ} {A : Type κ} (m : Result E A) → ((a : A) × (m ≡ ok a)) ⊎ ((e : E) × (m ≡ err e))
Result-cases (ok a) = inl (a, refl)
Result-cases (err e) = inr (e, refl)

module _ {ℓ κ} {E : Type ℓ} {A : Type κ} where
  -- A result is one of the two, and has one value.
  pub err_or_ok {μ} : {B : Type μ} (r : Result E A) {e : E} {a : A} → r ≡ err e → r ≡ ok a → B
  err_or_ok r fails succeeds = cc

  pub ok_unique : (r : Result E A) {a b : A} → r ≡ ok a → r ≡ ok b → b ≡ a
  ok_unique r one other = cc
