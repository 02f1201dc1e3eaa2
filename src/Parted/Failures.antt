-- ===== src/Parted/Failures.antt =====
-- What ends the module: a call of `fail_json`, or an exception.
use freeipa_cloud_prov.Prelude.{ℕ, zero, suc, Option, none, some, List, [], ◌∷◌}
use freeipa_cloud_prov.Prelude.Texts.{Text}
use freeipa_cloud_prov.Prelude.Numerals.{ℤ, int_of_codes}
use freeipa_cloud_prov.Result.{Result, ok, err}

pub data Failure : Type 0 where
  fail_json : Text → Failure
  value_error : Failure
  index_error : Failure
  type_error : Failure

abbrev pub R : Type 0 → Type 0
R A = Result Failure A

-- `xs[i]`
unfoldable pub item {ℓ} : {A : Type ℓ} → List A → ℕ → Result Failure A
item [] i = err index_error
item (x ∷ xs) zero = ok x
item (x ∷ xs) (suc i) = item xs i

abbrev pub or_value_error {ℓ} : {A : Type ℓ} → Option A → Result Failure A
or_value_error none = err value_error
or_value_error (some a) = ok a

-- `int(text)`
unfoldable pub int : Text → Result Failure ℤ
int text = or_value_error (int_of_codes text)
