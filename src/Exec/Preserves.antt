-- ===== src/Exec/Preserves.antt =====
-- Invariants of steps that may fail: they hold after the step, whether it succeeds or not.
use freeipa_cloud_prov.Prelude.{Bool, true, false, if◌then◌else◌}
use freeipa_cloud_prov.Result.{Result, ok, err}
use freeipa_cloud_prov.Exec.{Exec, pure, lift, gets, continue, ◌>>=◌}

pub record Preserves {ℓ} {E S A : Type ℓ} (P : S → Type ℓ) (m : Exec E S A) : Type ℓ where
  pub after : (s : S) → P s → P (m s).1

module _ {ℓ} {E S A : Type ℓ} {P : S → Type ℓ} where
  -- A step that leaves the state as it is.
  pub Preserves-same : (m : S → Result E A) → Preserves {E = E} P (λ s. (m s, s))
  Preserves-same m = record { after = λ s h. h }

  pub Preserves-lift : (r : Result E A) → Preserves P (lift r)
  Preserves-lift r = record { after = λ s h. h }

  pub Preserves-gets : (f : S → A) → Preserves P (gets {E = E} f)
  Preserves-gets f = record { after = λ s h. h }

  pub Preserves-pure : (a : A) → Preserves P (pure {E = E} a)
  Preserves-pure a = record { after = λ s h. h }

  pub Preserves-if :
      (b : Bool) {m n : Exec E S A}
      → Preserves P m
      → Preserves P n
      → Preserves P (if b then m else n)
  Preserves-if true p q = p
  Preserves-if false p q = q

module _ {ℓ} {E S A B : Type ℓ} {P : S → Type ℓ} where
  continue-after :
      (x : Result E A) (f : A → Exec E S B) (s : S)
      → ((a : A) → Preserves P (f a))
      → P s
      → P (continue x f s).1
  continue-after (ok a) f s k h = (k a).after s h
  continue-after (err e) f s k h = h

  pub Preserves-bind :
      {m : Exec E S A} {f : A → Exec E S B}
      → Preserves P m
      → ((a : A) → Preserves P (f a))
      → Preserves P (m >>= f)
  Preserves-bind {m} {f} pm pf = record {
    after = λ s h. continue-after (m s).0 f (m s).1 pf (pm.after s h);
  }
