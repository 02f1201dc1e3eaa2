-- ===== src/Parted/Units.antt =====
-- `parse_unit`, `check_size_format` and `format_disk_size`. A Python float is modelled by the
-- decimal that it is read from or rounded to.
pub mod Bounds
pub mod Doubles
pub mod Format
use freeipa_cloud_prov.Prelude.{
  ℕ, zero, suc, ◌+◌, ◌-◌, ◌*◌, ◌/◌, ◌%◌, Bool, true, false, not, ◌&&◌, ◌||◌, Option, none, some,
  List, [], ◌∷◌, ◌++◌, if◌then◌else◌, ltb, leb, eqb,
}
use freeipa_cloud_prov.Prelude.Lists.{is_empty}
use freeipa_cloud_prov.Prelude.Texts.{Text, codes, lower, same_text, text_in}
use freeipa_cloud_prov.Prelude.Numerals.{ℤ, pos, negsuc, is_digit}
use freeipa_cloud_prov.Result.{ok, err, ◌>>=◌}
use freeipa_cloud_prov.Parted.Failures.{R, fail_json, value_error, type_error}

abbrev pub units_si : List Text
units_si = codes "B" ∷ codes "KB" ∷ codes "MB" ∷ codes "GB" ∷ codes "TB" ∷ []

abbrev pub units_iec : List Text
units_iec = codes "B" ∷ codes "KiB" ∷ codes "MiB" ∷ codes "GiB" ∷ codes "TiB" ∷ []

abbrev pub parted_units : List Text
parted_units =
    units_si
    ++ units_iec
    ++ (codes "s" ∷ codes "%" ∷ codes "cyl" ∷ codes "chs" ∷ codes "compact" ∷ [])

-- mantissa / 10 ^ places
pub record Decimal : Type 0 where
  pub mantissa : ℤ
  pub places : ℕ

pub data Size : Type 0 where
  number : Decimal → Size
  chs_size : ℕ → ℕ → ℕ → Size

abbrev pub is_number_char : ℕ → Bool
is_number_char c = is_digit c || eqb c b'.'

-- `[\w%]`
abbrev pub is_unit_char : ℕ → Bool
is_unit_char c =
    is_digit c
    || (leb b'a' c && leb c b'z')
    || (leb b'A' c && leb c b'Z')
    || eqb c b'_'
    || eqb c b'%'

abbrev pub all_chars : (ℕ → Bool) → Text → Bool
all_chars test [] = true
all_chars test (c ∷ cs) = test c && all_chars test cs

-- The characters at the start that pass a test, and what follows them.
unfoldable pub span : (ℕ → Bool) → Text → Text × Text
span test [] = ([], [])
span test (c ∷ cs) =
    let (before, rest) = span test cs in if test c then (c ∷ before, rest) else ([], c ∷ cs)

-- `$` also stands before a newline that ends the text.
unfoldable pub drop_newline : Text → Text
drop_newline [] = []
drop_newline (c ∷ []) = if eqb c 10 then [] else c ∷ []
drop_newline (c ∷ d ∷ cs) = c ∷ drop_newline (d ∷ cs)

-- `float(text)` of digits and dots: one dot at most, and a digit
unfoldable pub decimal_on : ℕ → ℕ → Bool → Bool → Text → Option Decimal
decimal_on n places dotted seen [] =
    if seen then some (record { mantissa = pos n; places = places }) else none
decimal_on n places dotted seen (c ∷ cs) =
    let after_dot = decimal_on n places true seen cs in
    let after_digit =
      decimal_on (n * 10 + (c - b'0')) (if dotted then places + 1 else places) dotted true cs in
    if eqb c b'.' then (if dotted then none else after_dot) else after_digit

unfoldable pub float : Text → R Decimal
unfolding decimal_on
float text = elim (decimal_on 0 0 false false text) [ none ↦ err value_error | some d ↦ ok d ]

-- The number in digits.
unfoldable pub digits_value : ℕ → Text → ℕ
digits_value n [] = n
digits_value n (c ∷ cs) = digits_value (n * 10 + (c - b'0')) cs

-- `(\d+)` up to a comma, or to the end
abbrev group : Text × Text → Option (ℕ × Text)
unfolding digits_value
group ([], rest) = none
group (c ∷ cs, rest) = some (digits_value 0 (c ∷ cs), rest)

abbrev after_comma : Option (ℕ × Text) → Option (ℕ × Text)
after_comma none = none
after_comma (some (n, [])) = none
after_comma (some (n, c ∷ cs)) = if eqb c b',' then some (n, cs) else none

-- `^(\d+),(\d+),(\d+)$`
unfoldable pub chs_groups : Text → Option Size
unfolding span digits_value
chs_groups text = elim (after_comma (group (span is_digit text))) [
  | none ↦ none
  | some (cylinder, heads) ↦ elim (after_comma (group (span is_digit heads))) [
    | none ↦ none
    | some (head, sectors) ↦ elim (group (span is_digit sectors)) [
      | none ↦ none
      | some (sector, rest) ↦ if is_empty rest then some (chs_size cylinder head sector) else none
    ]
  ]
]

abbrev size_error : Text → Text
size_error text = codes "Error interpreting parted size output: '" ++ (text ++ codes "'")

-- The second expression, where the first finds nothing
abbrev parse_chs : Text → R (Size × Text)
parse_chs text = elim (chs_groups (drop_newline text)) [
  | none ↦ err (fail_json (size_error text))
  | some size ↦ ok (size, codes "chs")
]

-- `^([\d.]+)([\w%]+)?$` matches a number and what follows, if that is all of `[\w%]`; the default
-- stands in for a unit that is not there.
unfoldable pub parse_unit : Text → Text → R (Size × Text)
unfolding span drop_newline
parse_unit text default =
    let (num, unit) = span is_number_char (drop_newline text) in
    if is_empty num || not (all_chars is_unit_char unit)
    then parse_chs text
    else (float num >>= λ size. ok (number size, if is_empty unit then default else unit))

unfoldable pub check_size_format : Text → R Bool
check_size_format text = parse_unit text [] >>= λ parsed. ok (text_in parted_units parsed.1)

-- How many decimal digits a number has, with fuel; `digit_count` gives enough of it.
unfoldable pub count_digits : ℕ → ℕ → ℕ
count_digits zero n = 0
count_digits (suc fuel) n = let more = count_digits fuel (n / 10) in if eqb n 0 then 0 else suc more

unfoldable pub digit_count : ℕ → ℕ
unfolding count_digits
digit_count n = count_digits n n

-- `max(0, int((math.log10(n) - 1.0) / 3.0))`: the logarithm's whole part is one less than the
-- number of digits, and the division cuts the rest off.
unfoldable pub compact_index : ℕ → ℕ
compact_index n = (digit_count n - 2) / 3

unfoldable pub nth_unit : List Text → ℕ → Text
nth_unit [] i = codes "b"
nth_unit (u ∷ us) zero = u
nth_unit (u ∷ us) (suc i) = nth_unit us i

-- `base ** units.index(unit)`, if the unit is there
unfoldable pub power_at : ℕ → List Text → Text → Option ℕ
power_at base [] unit = none
power_at base (u ∷ us) unit =
    let rest = power_at base us unit in
    if same_text u unit then some 1 else elim rest [ none ↦ none | some m ↦ some (base * m) ]

unfoldable pub multiplier : Text → ℕ
unfolding power_at
multiplier unit = elim (power_at 1000 units_si unit) [
  | some m ↦ m
  | none ↦ elim (power_at 1024 units_iec unit) [ none ↦ 1 | some m ↦ m ]
]

-- The decimals to round n / m to: the first test reads `output`, the second `w`.
unfoldable pub precision : ℕ → ℕ → ℕ
precision n m =
    if ltb n (10 * m)
    then (if ltb (1000 * n + 5 * m) (10000 * m) then 2 else 1)
    else if ltb n (100 * m)
    then (if ltb (100 * n + 5 * m) (10000 * m) then 1 else 0)
    else 0

unfoldable pub pow10 : ℕ → ℕ
pow10 zero = 1
pow10 (suc k) = 10 * pow10 k

-- `a / b` to the nearest whole number, halves to the even one
unfoldable pub nearest : ℕ → ℕ → ℕ
nearest a b =
    let whole = a / b in
    let rest = a % b in
    if ltb (2 * rest) b then whole else if ltb b (2 * rest) then whole + 1 else whole + whole % 2

-- `n` and `1`, both doubled until the first is `m` times 2 ^ 52 at least.
unfoldable pub widened : ℕ → ℕ → ℕ → ℕ → ℕ × ℕ
widened zero n d m = (n, d)
widened (suc fuel) n d m =
    let more = widened fuel (2 * n) (2 * d) m in
    if ltb n (4503599627370496 * m) then more else (n, d)

-- `m` doubled until `n` is below `m` times 2 ^ 53.
unfoldable pub narrowed : ℕ → ℕ → ℕ → ℕ
narrowed zero n m = m
narrowed (suc fuel) n m =
    let more = narrowed fuel n (2 * m) in if ltb n (9007199254740992 * m) then m else more

-- The double of a whole number: 53 bits of it, the last rounded. Each digit has fewer than four.
unfoldable pub float_of : ℕ → ℕ
unfolding nearest narrowed
float_of n = let step = narrowed (4 * digit_count n) n 1 in nearest n step * step

-- `n / m` in doubles, as a numerator and a power of two; `m` has fewer than 64 bits
unfoldable pub float_quotient : ℕ → ℕ → ℕ × ℕ
unfolding nearest widened
float_quotient n m = let (a, d) = widened 128 n 1 m in (nearest a m, d)

-- `round(a / d, places)`, to the nearest, halves upwards
unfoldable pub round_to : ℕ → ℕ → ℕ → Decimal
round_to a d places = record {
  mantissa = pos ((2 * a * pow10 places + d) / (2 * d));
  places = places;
}

-- `round(n / m, places)` of a size and a multiplier
unfoldable pub rounded : ℕ → ℕ → ℕ → Decimal
unfolding float_of float_quotient round_to
rounded n m places = let (a, d) = float_quotient (float_of n) m in round_to a d places

abbrev pub asks_compact : Text → Bool
asks_compact unit = text_in ([] ∷ codes "compact" ∷ codes "cyl" ∷ codes "chs" ∷ []) unit

-- The unit that the size is shown in: in lower case, unless it is chosen by the size.
unfoldable pub shown_unit : ℕ → Text → Text
shown_unit n unit =
    if asks_compact (lower unit) then nth_unit units_si (compact_index n) else lower unit

-- The function returns a pair, but of a size of zero the bare number.
pub data Formatted : Type 0 where
  bare : Decimal → Formatted
  sized : Decimal → Text → Formatted

-- A negative size has no logarithm; else it is below ten, and its two decimals are zeros.
abbrev negative_size : ℕ → Text → R Formatted
negative_size n unit =
    if asks_compact unit
    then err value_error
    else ok (sized (record { mantissa = negsuc n; places = 0 }) unit)

unfoldable pub format_disk_size : ℤ → Text → R Formatted
format_disk_size (pos zero) unit = ok (bare (record { mantissa = pos 0; places = 1 }))
format_disk_size (pos (suc n)) unit =
    let shown = shown_unit (suc n) unit in
    let m = multiplier shown in ok (sized (rounded (suc n) m (precision (suc n) m)) shown)
format_disk_size (negsuc n) unit = negative_size n (lower unit)

-- `size, unit = format_disk_size(…)`
abbrev pub unpacked : Formatted → R (Decimal × Text)
unpacked (bare d) = err type_error
unpacked (sized d unit) = ok (d, unit)
