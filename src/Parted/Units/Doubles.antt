-- ===== src/Parted/Units/Doubles.antt =====
-- How close the sizes that `format_disk_size` rounds are to the quotients.
use native.Mathlib.Nat.{
  mul_assoc, mul_comm, mul-add, mod-lt, mul-le-mul_left, lt_of_mul-lt-mul_left,
  mul-lt-mul_of_pos_left,
}
use native.Mathlib.Omega.{div_any}
use freeipa_cloud_prov.Prelude.{
  ℕ, zero, suc, ◌+◌, ◌*◌, ◌/◌, ◌%◌, ◌≤◌, ◌<◌, ◌≡◌, refl, sym, ◌∙◌, ap, subst, arith, ltb, inl, inr,
  Bool-cases,
}
use freeipa_cloud_prov.Prelude.Numerals.{pos}
use freeipa_cloud_prov.Parted.Units.{
  nearest, widened, narrowed, float_of, float_quotient, round_to, rounded, digit_count, pow10,
}

-- A number doubled so many times
unfoldable pub doubled : ℕ → ℕ → ℕ
doubled zero a = a
doubled (suc k) a = doubled k (2 * a)

doubled_le : (k a b : ℕ) → a ≤ b → doubled k a ≤ doubled k b
unfolding doubled
doubled_le zero a b h = h
doubled_le (suc k) a b h = doubled_le k (2 * a) (2 * b) (omega (arith, h))

-- With enough fuel the numerator is 2 ^ 52 times the denominator or more.
pub widened-enough :
    (fuel a d m : ℕ)
    → 4503599627370496 * m ≤ doubled fuel a
    → 4503599627370496 * m ≤ (widened fuel a d m).0
unfolding widened doubled
widened-enough zero a d m h = h
widened-enough (suc fuel) a d m h = elim (Bool-cases (ltb a (4503599627370496 * m))) [
  | inl small ↦ rw small (widened-enough fuel (2 * a) (2 * d) m h)
  | inr large ↦ rw large (ground arith)
]

pub enough_128 : (a m : ℕ) → 0 < a → m ≤ 1000000000000 → 4503599627370496 * m ≤ doubled 128 a
unfolding doubled
enough_128 a m h k = omega (arith, doubled_le 128 1 a (omega (arith, h)), k)

-- What is near a quotient: the whole part, or one more.
abbrev pub Near : ℕ → ℕ → ℕ → Type 0
Near a b c = (2 * (b * c) ≤ 2 * a + b) × (2 * a ≤ 2 * (b * c) + b)

Near-below : (a b q r : ℕ) → b * q + r ≡ a → 2 * r ≤ b → Near a b q
Near-below a b q r h k = (omega (arith, h, k), omega (arith, h, k))

Near-above : (a b q r : ℕ) → b * q + r ≡ a → b ≤ 2 * r → r < b → Near a b (q + 1)
Near-above a b q r h k l =
    let next : b * (q + 1) ≡ b * q + b = mul-add b q 1 ∙ ap (λ t. b * q + t) (omega arith) in
    (omega (arith, h, k, l, next), omega (arith, h, k, l, next))

Near-tie : (a b q r c : ℕ) → b * q + r ≡ a → 2 * r ≡ b → r < b → c < 2 → Near a b (q + c)
Near-tie a b q r zero h k l two =
    subst (Near a b) (omega arith) (Near-below a b q r h (omega (arith, k)))
Near-tie a b q r (suc zero) h k l two = Near-above a b q r h (omega (arith, k)) l
Near-tie a b q r (suc (suc c)) h k l two = absurd (omega (arith, two))

-- The nearest whole number is within a half.
nearest_bounds : (a b : ℕ) → 0 < b → Near a b (nearest a b)
unfolding nearest
nearest_bounds a b h =
    let whole = div_any a b in
    let small = mod-lt a {m = b} h in
    elim (Bool-cases (ltb (2 * (a % b)) b)) [
      | inl below ↦ rw below (Near-below a b (a / b) (a % b) whole (ground arith))
      | inr more ↦ rw more (elim (Bool-cases (ltb b (2 * (a % b)))) [
        | inl above ↦ rw above (Near-above a b (a / b) (a % b) whole (ground arith) small)
        | inr tie ↦ rw tie (
            Near-tie a b (a / b) (a % b) (a / b % 2) whole (ground (arith, more, tie)) small
              (mod-lt (a / b) {m = 2} (omega arith)))
      ])
    ]

-- A quotient that is within a half, rounded to a multiple of 1 / P, is within a half of that where
-- the quotient has bits enough.
Near-both :
    (n d m q r P : ℕ) → 0 < d → m * P < d → Near (n * d) m q → Near (q * P) d r → Near (n * P) m r
Near-both n d m q r P positive fine (q_low, q_high) (r_low, r_high) =
    let r_low_m : m * (2 * (d * r)) ≤ m * (2 * (q * P) + d) = mul-le-mul_left m r_low in
    let r_high_m : m * (2 * (q * P)) ≤ m * (2 * (d * r) + d) = mul-le-mul_left m r_high in
    let q_low_P : P * (2 * (m * q)) ≤ P * (2 * (n * d) + m) = mul-le-mul_left P q_low in
    let q_high_P : P * (2 * (n * d)) ≤ P * (2 * (m * q) + m) = mul-le-mul_left P q_high in
    let low : d * (2 * (m * r)) < d * (2 * (n * P) + m + 1) =
      omega (arith, r_low_m, q_low_P, fine) in
    let high : d * (2 * (n * P)) < d * (2 * (m * r) + m + 1) =
      omega (arith, r_high_m, q_high_P, fine) in
    (omega (arith, lt_of_mul-lt-mul_left d low), omega (arith, lt_of_mul-lt-mul_left d high))

pub nearest_one : (a : ℕ) → nearest a 1 ≡ a
unfolding nearest
nearest_one a = ground arith

narrowed_small : (fuel n : ℕ) → n < 9007199254740992 → narrowed fuel n 1 ≡ 1
unfolding narrowed
narrowed_small zero n h = refl
narrowed_small (suc fuel) n h = ground arith

-- A number below 2 ^ 53 is its own double.
pub float_of_small : (n : ℕ) → n < 9007199254740992 → float_of n ≡ n
unfolding float_of
float_of_small n h =
    rw (narrowed_small (4 * digit_count n) n h) (ap (λ k. k * 1) (nearest_one n) ∙ omega arith)

-- The numerator stays the number times the denominator.
pub widened_lem :
    (fuel n a d m : ℕ)
    → a ≡ n * d
    → 0 < d
    → ((widened fuel a d m).0 ≡ n * (widened fuel a d m).1) × (0 < (widened fuel a d m).1)
unfolding widened
widened_lem zero n a d m h k = (h, k)
widened_lem (suc fuel) n a d m h k = elim (Bool-cases (ltb a (4503599627370496 * m))) [
  | inl small ↦
      let doubled : 2 * a ≡ n * (2 * d) =
        ap (λ t. 2 * t) h
        ∙ sym (mul_assoc 2 n d)
        ∙ ap (λ t. t * d) (mul_comm 2 n)
        ∙ mul_assoc n 2 d in
      rw small (widened_lem fuel n (2 * a) (2 * d) m doubled (omega (arith, k)))
  | inr large ↦ rw large (h, k)
]

round_to_bounds :
    (a d places r : ℕ)
    → 0 < d
    → (2 * a * pow10 places + d) / (2 * d) ≡ r
    → Near (a * pow10 places) d r
round_to_bounds a d places r h e =
    let whole : 2 * d * r + (2 * a * pow10 places + d) % (2 * d) ≡ 2 * a * pow10 places + d =
      ap (λ q. 2 * d * q + (2 * a * pow10 places + d) % (2 * d)) (sym e)
      ∙ div_any (2 * a * pow10 places + d) (2 * d) in
    let small = mod-lt (2 * a * pow10 places + d) {m = 2 * d} (omega (arith, h)) in
    (omega (arith, whole, small), omega (arith, whole, small))

-- Of a size below 2 ^ 52 / 100, in units up to 10 ^ 12 bytes and with two decimals at most, the
-- rounded number is within half of its last decimal.
pub rounded_bounds :
    (n m places : ℕ)
    → 0 < n
    → n * 100 < 4503599627370496
    → 0 < m
    → m ≤ 1000000000000
    → pow10 places ≤ 100
    → (r : ℕ) × (rounded n m places ≡ record { mantissa = pos r; places = places })
      × Near (n * pow10 places) m r
unfolding rounded float_quotient round_to
rounded_bounds n m places h fits k large two =
    let wide = widened 128 n 1 m in
    let (scaled, some_bits) = widened_lem 128 n n 1 m (omega arith) (omega arith) in
    let bits : 4503599627370496 * m ≤ n * wide.1 =
      subst (λ t. 4503599627370496 * m ≤ t) scaled
        (widened-enough 128 n 1 m (enough_128 n m h large)) in
    let few : n * m * pow10 places ≤ n * m * 100 = mul-le-mul_left (n * m) two in
    let less : m * (n * 100) < m * 4503599627370496 = mul-lt-mul_of_pos_left fits k in
    let fine : m * pow10 places < wide.1 =
      lt_of_mul-lt-mul_left n (omega (arith, few, less, bits)) in
    let q = nearest (n * wide.1) m in
    (
      (2 * q * pow10 places + wide.1) / (2 * wide.1),
      rw (float_of_small n (omega (arith, fits)), scaled) refl,
      Near-both n wide.1 m q _ (pow10 places) some_bits fine (nearest_bounds (n * wide.1) m k)
          (round_to_bounds q wide.1 places _ some_bits refl),
    )
