-- ===== src/Ipa/Classes/Words.antt =====
-- Python's `startswith`, `split` and regular expressions, as lib/modules/ipa_*.py use them.
pub mod Names
use Prim.Native.Char.{Char, code}
use Prim.Native.String
use freeipa_cloud_prov.Prelude.{
  ℕ, zero, suc, String, Bool, true, false, ◌&&◌, Option, none, some, if◌then◌else◌, eqb, leb, ◌+◌,
}

-- The text behind a prefix.
unfoldable pub after_prefix : String → String → Option String
after_prefix String.[] s = some s
after_prefix (String.◌∷◌ a p) String.[] = none
after_prefix (String.◌∷◌ a p) (String.◌∷◌ c s) =
    let rest = after_prefix p s in if eqb (code a) (code c) then rest else none

-- The text before the first `mark`; all of it where there is none.
unfoldable pub before : ℕ → String → String
before mark String.[] = String.[]
before mark (String.◌∷◌ c s) =
    let rest = before mark s in if eqb (code c) mark then String.[] else String.◌∷◌ c rest

-- The text behind the first `mark`.
unfoldable pub behind : ℕ → String → Option String
behind mark String.[] = none
behind mark (String.◌∷◌ c s) =
    let rest = behind mark s in if eqb (code c) mark then some s else rest

-- `s.count(mark)`
unfoldable pub count_mark : ℕ → String → ℕ
count_mark mark String.[] = 0
count_mark mark (String.◌∷◌ c s) =
    let rest = count_mark mark s in if eqb (code c) mark then rest + 1 else rest

-- `([^@]*)(@[^@]*)?$`: the group before the `@`, if no second `@` follows; else the text stays.
unfoldable pub principal_name : String → String
principal_name s = if leb (count_mark b'@' s) 1 then before b'@' s else s

abbrev pub cn_group : String → Option String → Option String
cn_group s none = none
cn_group s (some rest) = elim (after_prefix "O=" rest) [
  | none ↦ none
  | some _ ↦ some (before b',' s)
]

-- `CN=([^,]*),O=` at the start of a text
unfoldable pub cn_before_o : String → Option String
cn_before_o s = elim (after_prefix "CN=" s) [ none ↦ none | some t ↦ cn_group t (behind b',' t) ]
