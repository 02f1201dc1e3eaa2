-- ===== src/Parted/Units/Format.antt =====
-- What `format_disk_size` returns.
use freeipa_cloud_prov.Prelude.{
  ℕ, zero, suc, ◌+◌, ◌*◌, ◌<◌, ◌≤◌, List, [], ◌∷◌, Option, none, some, ◌≡◌, subst, true, false,
}
use freeipa_cloud_prov.Prelude.Texts.{Text, codes, lower}
use freeipa_cloud_prov.Prelude.Numerals.{pos}
use freeipa_cloud_prov.Result.{ok}
use freeipa_cloud_prov.Parted.Units.{
  pow10, nth_unit, units_si, multiplier, compact_index, asks_compact, sized, format_disk_size,
}
use freeipa_cloud_prov.Parted.Units.Bounds.{compact_index_bounds}
use freeipa_cloud_prov.Parted.Units.Doubles.{Near}

-- The units that a size is shown in where none is given, with their bytes.
abbrev pub si_scales : List (Text × ℕ)
si_scales =
    (codes "B", 1)
    ∷ (codes "KB", 1000)
    ∷ (codes "MB", 1000000)
    ∷ (codes "GB", 1000000000)
    ∷ (codes "TB", 1000000000000)
    ∷ []

abbrev pub entry_at : ℕ → List (Text × ℕ) → Option (Text × ℕ)
entry_at i [] = none
entry_at zero (x ∷ xs) = some x
entry_at (suc i) (x ∷ xs) = entry_at i xs

-- The unit for `n` bytes has `scale` bytes: the number in it has two to four digits before the dot,
-- unless there are less than ten bytes.
pub record Fits (n : ℕ) (shown : Text) (scale : ℕ) : Type 0 where
  pub index : ℕ
  pub listed : entry_at index si_scales ≡ some (shown, scale)
  pub low : 10 ≤ n → 10 * scale ≤ n
  pub high : n < 10000 * scale
  pub few : n < 10 → scale ≡ 1

digits :
    (n i : ℕ) → compact_index n ≡ i → 10 ≤ n → (pow10 (3 * i + 1) ≤ n) × (n < pow10 (3 * i + 4))
digits n i e h =
    subst (λ j. (pow10 (3 * j + 1) ≤ n) × (n < pow10 (3 * j + 4))) e (compact_index_bounds n h)

abbrev Scaled : ℕ → ℕ → Type 0
Scaled n i =
    (scale : ℕ) × Fits n (nth_unit units_si i) scale
    × (multiplier (nth_unit units_si i) ≡ scale)
    × (0 < scale)
    × (scale ≤ 1000000000000)

-- What is shown of `n` bytes: a number within half of its last decimal of the size in a unit.
pub record Shown (n : ℕ) (unit : Text) : Type 0 where
  pub shown : Text
  pub scale : ℕ
  pub places : ℕ
  pub number : ℕ
  pub returned :
      format_disk_size (pos n) unit
      ≡ ok (sized (record { mantissa = pos number; places = places }) shown)
  pub compact : asks_compact (lower unit) ≡ true → Fits n shown scale
  pub given : asks_compact (lower unit) ≡ false → (shown ≡ lower unit) × (scale ≡ 1)
  pub near : Near (n * pow10 places) scale number
