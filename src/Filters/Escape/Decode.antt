-- ===== src/Filters/Escape/Decode.antt =====
-- Decoding what `systemd_escape` encodes.
use mathlib.Core.List.{append-nil, append_assoc}
use freeipa_cloud_prov.Prelude.{
  ℕ, zero, suc, ◌+◌, ◌-◌, ◌*◌, ◌/◌, ◌%◌, ◌≤◌, ◌<◌, ◌≡◌, refl, sym, ap, ◌∙◌, Bool, true, false, ◌&&◌,
  [], ◌∷◌, ◌++◌, arith, if◌then◌else◌, ltb, eqb, Bool-cases, inl, inr,
}
use freeipa_cloud_prov.Prelude.Lists.{is_empty}
use freeipa_cloud_prov.Filters.Escape.{
  Text, backslash, hex_digit, hex_digits, escape_code, is_plain, piece, escape_from, systemd_escape,
}

abbrev pub hex_value : ℕ → ℕ
hex_value h = if ltb h b'a' then h - b'0' else h - 87

abbrev pub plain_value : ℕ → ℕ
plain_value c = if eqb c b'-' then b'/' else c

-- The reverse of `systemd-escape`: a dash is a slash, and a backslash stands before `x` and two
-- hexadecimal digits.
abbrev pub unescape : Text → Text
unescape [] = []
unescape (c ∷ []) = plain_value c ∷ []
unescape (c ∷ a ∷ []) = plain_value c ∷ unescape (a ∷ [])
unescape (c ∷ a ∷ h ∷ []) = plain_value c ∷ unescape (a ∷ h ∷ [])
unescape (c ∷ a ∷ h ∷ l ∷ cs) =
    let coded = (hex_value h * 16 + hex_value l) ∷ unescape cs in
    let single = plain_value c ∷ unescape (a ∷ h ∷ l ∷ cs) in
    if eqb c backslash then coded else single

hex_value-hex_digit : (d : ℕ) → d < 16 → hex_value (hex_digit d) ≡ d
unfolding hex_digit
hex_value-hex_digit d h = ground arith

unescape_single :
    (c : ℕ) (cs : Text) → eqb c backslash ≡ false → unescape (c ∷ cs) ≡ plain_value c ∷ unescape cs
unescape_single c [] h = refl
unescape_single c (a ∷ []) h = refl
unescape_single c (a ∷ b ∷ []) h = refl
unescape_single c (a ∷ b ∷ d ∷ cs) h = rw h

two_digits :
    (fuel c : ℕ)
    → 16 ≤ c
    → c < 256
    → hex_digits (suc (suc fuel)) c ≡ hex_digit (c / 16) ∷ hex_digit (c % 16) ∷ []
unfolding hex_digits
two_digits fuel c h k = ground arith

unescape_coded :
    (c : ℕ) (cs : Text) → 16 ≤ c → c < 256 → unescape (escape_code c ++ cs) ≡ c ∷ unescape cs
unfolding escape_code
unescape_coded (suc c) cs h k =
    rw (two_digits c (suc c) h k)
      (ground (arith, hex_value-hex_digit (suc c / 16), hex_value-hex_digit (suc c % 16)))
unescape_coded zero cs h k = elim h [ ]

abbrev pub first_slash : ℕ → ℕ → Bool
first_slash i c = eqb i 0 && eqb c b'/'

plain_char : (c : ℕ) → is_plain c ≡ true → (eqb c backslash ≡ false) × (plain_value c ≡ c)
unfolding is_plain
plain_char c h = (ground arith, ground arith)

eqb→eq : (a b : ℕ) → eqb a b ≡ true → a ≡ b
eqb→eq a b h = ground arith

-- The four ways to encode a character, by its tests.
abbrev encoded : Bool → Bool → Bool → ℕ → Text
encoded true plain slash c = backslash ∷ b'x' ∷ b'2' ∷ b'e' ∷ []
encoded false true slash c = c ∷ []
encoded false false true c = b'-' ∷ []
encoded false false false c = escape_code c

piece_lem :
    (i : ℕ) (res : Text) (c : ℕ)
    → first_slash i c ≡ false
    → piece i res c ≡ encoded (eqb c b'.' && is_empty res) (is_plain c) (eqb c b'/') c
unfolding piece
piece_lem i res c f = ground arith

unescape-encoded :
    (dotted plain slash : Bool) (c : ℕ) (cs : Text)
    → (dotted ≡ true → c ≡ b'.')
    → (plain ≡ true → is_plain c ≡ true)
    → (slash ≡ true → c ≡ b'/')
    → 16 ≤ c
    → c < 256
    → unescape (encoded dotted plain slash c ++ cs) ≡ c ∷ unescape cs
unescape-encoded true plain slash c cs d p s low high = rw (d refl) refl
unescape-encoded false true slash c cs d p s low high =
    let (no_code, same) = plain_char c (p refl) in unescape_single c cs no_code ∙ rw same
unescape-encoded false false true c cs d p s low high = unescape_single b'-' cs refl ∙ rw (s refl)
unescape-encoded false false false c cs d p s low high = unescape_coded c cs low high

and_left : (a b : Bool) → (a && b) ≡ true → a ≡ true
and_left a b h = ground arith

unescape-piece :
    (i : ℕ) (res : Text) (c : ℕ) (cs : Text)
    → first_slash i c ≡ false
    → 16 ≤ c
    → c < 256
    → unescape (piece i res c ++ cs) ≡ c ∷ unescape cs
unescape-piece i res c cs f low high =
    ap (λ t. unescape (t ++ cs)) (piece_lem i res c f)
    ∙ unescape-encoded (eqb c b'.' && is_empty res) (is_plain c) (eqb c b'/') c cs
        (λ e. eqb→eq c b'.' (and_left (eqb c b'.') (is_empty res) e)) (λ e. e) (eqb→eq c b'/') low
        high

-- What the loop appends to its result, for all that is left of the text.
abbrev pieces : ℕ → Text → Text → Text
pieces i res [] = []
pieces i res (c ∷ cs) = piece i res c ++ pieces (suc i) (res ++ piece i res c) cs

escape_from_lem : (i : ℕ) (res cs : Text) → escape_from i res cs ≡ res ++ pieces i res cs
unfolding escape_from
escape_from_lem i res [] = sym (append-nil res)
escape_from_lem i res (c ∷ cs) =
    escape_from_lem (suc i) (res ++ piece i res c) cs ∙ append_assoc res (piece i res c) _

-- Every character is a byte that is no control character below 16.
abbrev pub InRange : Text → Type 0
InRange [] = Unit
InRange (c ∷ cs) = (16 ≤ c) × (c < 256) × InRange cs

unescape-pieces : (i : ℕ) (res cs : Text) → InRange cs → unescape (pieces (suc i) res cs) ≡ cs
unescape-pieces i res [] h = refl
unescape-pieces i res (c ∷ cs) (low, high, h) =
    unescape-piece (suc i) res c (pieces (suc (suc i)) (res ++ piece (suc i) res c) cs)
      (ground arith) low high
    ∙ ap (λ t. c ∷ t) (unescape-pieces (suc i) (res ++ piece (suc i) res c) cs h)

abbrev pub drop_slash : Text → Text
drop_slash [] = []
drop_slash (c ∷ cs) = if eqb c b'/' then cs else c ∷ cs

piece_slash : (res : Text) (c : ℕ) → eqb c b'/' ≡ true → piece 0 res c ≡ []
unfolding piece
piece_slash res c h = ground arith

-- Decoding gives the text back, without the slash that it may begin with. The text consists of
-- bytes from 16 on.
pub unescape-systemd_escape :
    (text : Text) → InRange text → unescape (systemd_escape text) ≡ drop_slash text
unfolding systemd_escape
unescape-systemd_escape [] h = refl
unescape-systemd_escape (c ∷ cs) (low, high, h) = elim (Bool-cases (eqb c b'/')) [
  | inl slash ↦
      escaped (c ∷ cs)
      ∙ ap (λ t. unescape (t ++ pieces 1 t cs)) (piece_slash [] c slash)
      ∙ unescape-pieces 0 [] cs h
      ∙ rw slash
  | inr other ↦
      escaped (c ∷ cs)
      ∙ unescape-piece 0 [] c (pieces 1 (piece 0 [] c) cs) other low high
      ∙ ap (λ t. c ∷ t) (unescape-pieces 0 (piece 0 [] c) cs h)
      ∙ rw other
]
  where
    escaped : (t : Text) → unescape (escape_from 0 [] t) ≡ unescape (pieces 0 [] t)
    escaped t = ap unescape (escape_from_lem 0 [] t)
