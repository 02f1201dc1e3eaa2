-- ===== src/Exec.antt =====
-- Methods that change an object and may fail. What was changed before a failure stays changed, so
-- the state comes back beside the error too.
pub mod Preserves
pub mod Returns
use freeipa_cloud_prov.Prelude.{◌≡◌, refl}
use freeipa_cloud_prov.Result.{Result, ok, err}

abbrev pub Exec {ℓ} : Type ℓ → Type ℓ → Type ℓ → Type ℓ
Exec E S A = S → Result E A × S

module _ {ℓ} {E S A : Type ℓ} where
  abbrev pub pure : A → Exec E S A
  pure a s = (ok a, s)

  abbrev pub raise : E → Exec E S A
  raise e s = (err e, s)

  abbrev pub lift : Result E A → Exec E S A
  lift r s = (r, s)

  abbrev pub gets : (S → A) → Exec E S A
  gets f s = (ok (f s), s)

module _ {ℓ} {E S : Type ℓ} where
  abbrev pub modify : (S → S) → Exec E S (Unit {ℓ})
  modify f s = (ok tt, f s)

module _ {ℓ} {E S A B : Type ℓ} where
  abbrev pub continue : Result E A → (A → Exec E S B) → Exec E S B
  continue (ok a) f s = f a s
  continue (err e) f s = (err e, s)

  infixl 5 ◌>>=◌
  abbrev pub ◌>>=◌ : Exec E S A → (A → Exec E S B) → Exec E S B
  ◌>>=◌ m f s = let r = m s in continue r.0 f r.1

module _ {ℓ} {E S B : Type ℓ} where
  infixl 5 ◌>>◌
  abbrev pub ◌>>◌ : Exec E S (Unit {ℓ}) → Exec E S B → Exec E S B
  m >> n = m >>= λ _. n

module _ {ℓ} {E S A B : Type ℓ} where
  continue_ok :
      (x : Result E A) (f : A → Exec E S B) (s : S) (b : B)
      → (continue x f s).0 ≡ ok b
      → (a : A) × (x ≡ ok a) × (continue x f s ≡ f a s)
  continue_ok (ok a) f s b h = (a, refl, refl)
  continue_ok (err e) f s b h = cc

  -- Inversion of a step that does not fail: so do its parts.
  pub bind_ok :
      (m : Exec E S A) (f : A → Exec E S B) (s : S) (b : B)
      → ((m >>= f) s).0 ≡ ok b
      → (a : A) × ((m s).0 ≡ ok a) × ((m >>= f) s ≡ f a (m s).1)
  bind_ok m f s b h = continue_ok (m s).0 f (m s).1 b h
