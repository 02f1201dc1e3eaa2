-- ===== src/Filters/Escape.antt =====
-- `systemd_escape` of lib/filter_plugins/DO_filters.py
pub mod Decode
use freeipa_cloud_prov.Prelude.{
  ℕ, zero, suc, ◌+◌, ◌/◌, ◌%◌, Bool, true, false, not, ◌&&◌, ◌||◌, List, [], ◌∷◌, ◌++◌,
  if◌then◌else◌, ltb, leb, eqb,
}
use freeipa_cloud_prov.Prelude.Lists.{is_empty}
pub use freeipa_cloud_prov.Prelude.Texts.{Text}

abbrev pub backslash : ℕ
backslash = 92

unfoldable pub hex_digit : ℕ → ℕ
hex_digit d = if ltb d 10 then d + b'0' else d + 87

-- A number has at most as many hexadecimal digits as its successor.
unfoldable pub hex_digits : ℕ → ℕ → Text
hex_digits zero n = []
hex_digits (suc fuel) n =
    let more = hex_digits fuel (n / 16) ++ (hex_digit (n % 16) ∷ []) in
    if ltb n 16 then hex_digit n ∷ [] else more

-- `'\\' + hex(ord(c))[1:]`
unfoldable pub escape_code : ℕ → Text
unfolding hex_digits hex_digit
escape_code c = backslash ∷ b'x' ∷ hex_digits (suc c) c

unfoldable pub is_plain : ℕ → Bool
is_plain c =
    (leb b'a' c && leb c b'z')
    || (leb b'A' c && leb c b'Z')
    || (leb b'0' c && leb c b'9')
    || eqb c b'_'

-- What the loop appends for character `c` at position `i`, after the result so far.
unfoldable pub piece : ℕ → Text → ℕ → Text
unfolding escape_code is_plain
piece i res c =
    if eqb i 0 && eqb c b'/'
    then []
    else if eqb c b'.' && is_empty res
    then backslash ∷ b'x' ∷ b'2' ∷ b'e' ∷ []
    else if is_plain c
    then c ∷ []
    else if eqb c b'/'
    then b'-' ∷ []
    else escape_code c

unfoldable pub escape_from : ℕ → Text → Text → Text
escape_from i res [] = res
escape_from i res (c ∷ cs) = escape_from (suc i) (res ++ piece i res c) cs

unfoldable pub systemd_escape : Text → Text
unfolding escape_from piece
systemd_escape text = escape_from 0 [] text
