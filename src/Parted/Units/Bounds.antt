-- ===== src/Parted/Units/Bounds.antt =====
-- How large the sizes are that `format_disk_size` shows.
use freeipa_cloud_prov.Prelude.{
  ℕ, zero, suc, ◌+◌, ◌-◌, ◌*◌, ◌/◌, ◌≤◌, ◌<◌, ◌≡◌, false, [], ◌∷◌, arith, eqb,
}
use freeipa_cloud_prov.Prelude.Texts.{Text, lower, to_lower}
use freeipa_cloud_prov.Parted.Units.{
  count_digits, digit_count, compact_index, power_at, multiplier, pow10,
}

pow10_pos : (k : ℕ) → 0 < pow10 k
unfolding pow10
pow10_pos zero = omega arith
pow10_pos (suc k) = omega (arith, pow10_pos k)

count_digits-lt : (fuel n : ℕ) → n ≤ fuel → n < pow10 (count_digits fuel n)
unfolding count_digits pow10
count_digits-lt zero n h = omega arith
count_digits-lt (suc fuel) n h = ground (arith, count_digits-lt fuel (n / 10) (omega arith))

-- The power below the number of digits.
abbrev pub below : ℕ → ℕ
below zero = 0
below (suc k) = pow10 k

pow10_le_of_below : (c q n : ℕ) → below c ≤ q → 10 * q ≤ n → 0 < n → pow10 c ≤ n
unfolding pow10
pow10_le_of_below zero q n h k l = omega arith
pow10_le_of_below (suc c) q n h k l = omega arith

count_digits-le : (fuel n : ℕ) → n ≤ fuel → below (count_digits fuel n) ≤ n
unfolding count_digits
count_digits-le zero n h = omega arith
count_digits-le (suc fuel) n h = ground (
  arith,
  count_digits-le fuel (n / 10) (omega arith),
  pow10_le_of_below (count_digits fuel (n / 10)) (n / 10) n,
)

-- A number is below the power of ten that `digit_count` gives, and not below the power before.
pub digit_count_bounds : (n : ℕ) → (below (digit_count n) ≤ n) × (n < pow10 (digit_count n))
unfolding digit_count
digit_count_bounds n = (count_digits-le n n (omega arith), count_digits-lt n n (omega arith))

pub pow10_le : (a b : ℕ) → a ≤ b → pow10 a ≤ pow10 b
unfolding pow10
pow10_le zero b h = omega (arith, pow10_pos b)
pow10_le (suc a) zero h = absurd (omega arith)
pow10_le (suc a) (suc b) h = omega (arith, pow10_le a b (omega arith))

index_bounds :
    (count n : ℕ)
    → below count ≤ n
    → n < pow10 count
    → 10 ≤ n
    → (pow10 (3 * ((count - 2) / 3) + 1) ≤ n) × (n < pow10 (3 * ((count - 2) / 3) + 4))
unfolding pow10
index_bounds zero n low high h = absurd (omega arith)
index_bounds (suc zero) n low high h = absurd (omega arith)
index_bounds (suc (suc k)) n low high h = (
  omega (arith, pow10_le (3 * ((suc (suc k) - 2) / 3) + 1) (suc k) (omega arith)),
  omega (arith, pow10_le (suc (suc k)) (3 * ((suc (suc k) - 2) / 3) + 4) (omega arith)),
)

-- The unit chosen for a size from ten on shows it with two to four digits before the dot.
pub compact_index_bounds :
    (n : ℕ) → 10 ≤ n → (pow10 (3 * compact_index n + 1) ≤ n) × (n < pow10 (3 * compact_index n + 4))
unfolding compact_index
compact_index_bounds n h =
    let (low, high) = digit_count_bounds n in index_bounds (digit_count n) n low high h

lower-si :
    (c : ℕ)
    → (eqb (to_lower c) b'B' ≡ false)
      × (eqb (to_lower c) b'K' ≡ false)
      × (eqb (to_lower c) b'M' ≡ false)
      × (eqb (to_lower c) b'G' ≡ false)
      × (eqb (to_lower c) b'T' ≡ false)
lower-si c = (ground arith, ground arith, ground arith, ground arith, ground arith)

pub multiplier-lower : (unit : Text) → multiplier (lower unit) ≡ 1
unfolding multiplier power_at
multiplier-lower [] = ground arith
multiplier-lower (c ∷ cs) = ground (arith, lower-si c)
