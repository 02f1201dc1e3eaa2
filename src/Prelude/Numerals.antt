-- ===== src/Prelude/Numerals.antt =====
-- Integers, Python's `int` of a text, and decimal digits.
use Prim.Native.Nat.{ℕ, suc, ◌+◌, ◌-◌, ◌*◌}
use Prim.Native.String.{String}
use mathlib.Core.Bool.{Bool, true, false, ◌&&◌}
use mathlib.Core.Option.{Option, none, some}
use mathlib.Core.List.{List, [], ◌∷◌}
use package.freeipa_cloud_prov.Prelude.Equality.{if◌then◌else◌}
use package.freeipa_cloud_prov.Prelude.Tests.{leb, eqb}
use package.freeipa_cloud_prov.Prelude.Texts.{codes, is_space, lstrip}

-- `negsuc n` is -(n + 1).
pub data ℤ : Type 0 where
  pos : ℕ → ℤ
  negsuc : ℕ → ℤ

abbrev pub is_digit : ℕ → Bool
is_digit c = leb b'0' c && leb c b'9'

all_spaces : List ℕ → Bool
all_spaces [] = true
all_spaces (c ∷ cs) = is_space c && all_spaces cs

-- Digits up to the end or to trailing spaces; the flag says that a digit was read.
digits : ℕ → Bool → List ℕ → Option ℕ
digits n seen [] = if seen then some n else none
digits n seen (c ∷ cs) =
    let more = digits (n * 10 + (c - b'0')) true cs in
    if is_digit c then more else if seen && all_spaces (c ∷ cs) then some n else none

negated : Option ℕ → Option ℤ
negated none = none
negated (some ℕ.zero) = some (pos 0)
negated (some (suc n)) = some (negsuc n)

positive : Option ℕ → Option ℤ
positive none = none
positive (some n) = some (pos n)

signed : List ℕ → Option ℤ
signed [] = none
signed (c ∷ cs) =
    if eqb c b'-'
    then negated (digits 0 false cs)
    else if eqb c b'+'
    then positive (digits 0 false cs)
    else positive (digits 0 false (c ∷ cs))

-- `int(s)` of a decimal text; `none` is a `ValueError`
unfoldable pub int_of_codes : List ℕ → Option ℤ
unfolding signed positive negated digits all_spaces
int_of_codes cs = signed (lstrip is_space cs)

unfoldable pub int_of : String → Option ℤ
unfolding signed positive negated digits all_spaces
int_of s = signed (lstrip is_space (codes s))
