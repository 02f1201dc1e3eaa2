-- ===== src/Prelude/Texts.antt =====
-- Texts as lists of code points, and the methods of Python's `str` that the components share.
use Prim.Native.Char.{code}
use Prim.Native.Nat.{ℕ, ◌+◌}
use Prim.Native.String.{String}
use mathlib.Core.Bool.{Bool, true, false, ◌&&◌, ◌||◌}
use mathlib.Core.List.{List, [], ◌∷◌, ◌++◌}
use package.freeipa_cloud_prov.Prelude.Equality.{if◌then◌else◌}
use package.freeipa_cloud_prov.Prelude.Tests.{leb, eqb}
use package.freeipa_cloud_prov.Prelude.Lists.{is_empty}

abbrev pub Text : Type 0
Text = List ℕ

-- The code points of a text.
abbrev pub codes : String → Text
codes String.[] = []
codes (String.◌∷◌ c s) = code c ∷ codes s

abbrev pub to_lower : ℕ → ℕ
to_lower c = if leb b'A' c && leb c b'Z' then c + 32 else c

-- `text.lower()`
abbrev pub lower : Text → Text
lower [] = []
lower (c ∷ cs) = to_lower c ∷ lower cs

-- `s == t`
abbrev pub same_text : Text → Text → Bool
same_text [] [] = true
same_text (a ∷ xs) (b ∷ ys) = eqb a b && same_text xs ys
same_text [] (_ ∷ _) = false
same_text (_ ∷ _) [] = false

-- `s.lower() == t`
unfoldable pub lower_is : String → String → Bool
lower_is s t = same_text (lower (codes s)) (codes t)

-- `text in texts`
abbrev pub text_in : List Text → Text → Bool
text_in [] t = false
text_in (x ∷ xs) t = same_text t x || text_in xs t

abbrev pub is_space : ℕ → Bool
is_space c = eqb c 32 || (leb 9 c && leb c 13)

-- `text.lstrip(…)` and `text.rstrip(…)`, of the characters that pass a test
abbrev pub lstrip : (ℕ → Bool) → Text → Text
lstrip test [] = []
lstrip test (c ∷ cs) = let rest = lstrip test cs in if test c then rest else c ∷ cs

abbrev pub rstrip : (ℕ → Bool) → Text → Text
rstrip test [] = []
rstrip test (c ∷ cs) = let rest = rstrip test cs in if is_empty rest && test c then [] else c ∷ rest

-- `text.strip()`
abbrev pub strip : Text → Text
strip t = rstrip is_space (lstrip is_space t)

-- `s in t`
abbrev pub prefix_of : Text → Text → Bool
prefix_of [] _ = true
prefix_of (_ ∷ _) [] = false
prefix_of (a ∷ xs) (b ∷ ys) = eqb a b && prefix_of xs ys

abbrev pub infix_of : Text → Text → Bool
infix_of xs [] = is_empty xs
infix_of xs (b ∷ ys) = prefix_of xs (b ∷ ys) || infix_of xs ys

-- A character in front of the first part.
abbrev pub onto_first : ℕ → List Text → List Text
onto_first c [] = (c ∷ []) ∷ []
onto_first c (part ∷ parts) = (c ∷ part) ∷ parts

-- `text.split(mark)`
unfoldable pub split : ℕ → Text → List Text
split mark [] = [] ∷ []
split mark (c ∷ cs) =
    let parts = split mark cs in if eqb c mark then [] ∷ parts else onto_first c parts

-- `sep.join(parts)`
unfoldable pub join : Text → List Text → Text
join sep [] = []
join sep (part ∷ []) = part
join sep (part ∷ next ∷ parts) = part ++ (sep ++ join sep (next ∷ parts))
