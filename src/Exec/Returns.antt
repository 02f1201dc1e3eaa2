-- ===== src/Exec/Returns.antt =====
-- What steps that may fail return, where they succeed.
use freeipa_cloud_prov.Prelude.{◌≡◌, subst, Bool, true, false, if◌then◌else◌}
use freeipa_cloud_prov.Result.{ok}
use freeipa_cloud_prov.Exec.{Exec, pure, ◌>>=◌, bind_ok}

pub record Returns {ℓ} {E S A : Type ℓ} (Q : A → Type ℓ) (m : Exec E S A) : Type ℓ where
  pub value : (s : S) (a : A) → (m s).0 ≡ ok a → Q a

module _ {ℓ} {E S A : Type ℓ} {Q : A → Type ℓ} where
  pub Returns-pure : (a : A) → Q a → Returns Q (pure {E = E} {S = S} a)
  Returns-pure a h = record { value = λ s b e. let same : a ≡ b = cc in subst Q same h }

  pub Returns-if :
      (b : Bool) {m n : Exec E S A} → Returns Q m → Returns Q n → Returns Q (if b then m else n)
  Returns-if true p q = p
  Returns-if false p q = q

module _ {ℓ} {E S A B : Type ℓ} {Q : B → Type ℓ} where
  pub Returns-bind :
      {P : A → Type ℓ} {m : Exec E S A} {f : A → Exec E S B}
      → Returns P m
      → ((a : A) → P a → Returns Q (f a))
      → Returns Q (m >>= f)
  Returns-bind {P} {m} {f} first next = record {
    value = λ s b h.
        let (a, ha, step) = bind_ok m f s b h in
        (next a (first.value s a ha)).value (m s).1 b (rw step at h);
  }

  pub Returns-after :
      (m : Exec E S A) {f : A → Exec E S B} → ((a : A) → Returns Q (f a)) → Returns Q (m >>= f)
  Returns-after m {f} next = record {
    value =
        λ s b h. let (a, ha, step) = bind_ok m f s b h in (next a).value (m s).1 b (rw step at h);
  }
