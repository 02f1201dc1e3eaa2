-- ===== src/Parted/Info/Lines.antt =====
-- How parted's output is cut into lines and fields.
use freeipa_cloud_prov.Prelude.{
  ℕ, ◌≡◌, refl, ◌∙◌, ap, Bool, false, not, List, [], ◌∷◌, ◌++◌, arith, eqb,
}
use freeipa_cloud_prov.Prelude.Lists.{is_empty, select}
use freeipa_cloud_prov.Prelude.Texts.{Text, is_space, rstrip, strip, join}
use freeipa_cloud_prov.Prelude.Splitting.{Without, AllWithout, split-join}
use freeipa_cloud_prov.Parted.Info.{lines_of, fields_of}

-- A line of the output: the fields between colons, and a semicolon.
abbrev pub line_of : List Text → Text
line_of fields = join (b':' ∷ []) fields ++ (b';' ∷ [])

-- The output: the lines, each with a newline behind it.
abbrev pub output_of : List Text → Text
output_of lines = join (10 ∷ []) (lines ++ ([] ∷ []))

-- Fields that parted can print: without the marks of the format.
abbrev pub IsPlain : List Text → Type 0
IsPlain fields = AllWithout b':' fields × AllWithout b';' fields × AllWithout 10 fields

abbrev pub AllPlain : List (List Text) → Type 0
AllPlain [] = Unit
AllPlain (fields ∷ rest) = IsPlain fields × AllPlain rest

abbrev pub lines_of_fields : List (List Text) → List Text
lines_of_fields [] = []
lines_of_fields (fields ∷ rest) = line_of fields ∷ lines_of_fields rest

module _ (mark : ℕ) where
  append-Without : (s t : Text) → Without mark s → Without mark t → Without mark (s ++ t)
  append-Without [] t h k = k
  append-Without (c ∷ s) t (other, h) k = (other, append-Without s t h k)

  join-Without :
      (sep : Text) (parts : List Text)
      → Without mark sep
      → AllWithout mark parts
      → Without mark (join sep parts)
  unfolding join
  join-Without sep [] h k = tt
  join-Without sep (part ∷ []) h (p, k) = p
  join-Without sep (part ∷ next ∷ parts) h (p, k) =
      append-Without part (sep ++ join sep (next ∷ parts)) p
        (append-Without sep (join sep (next ∷ parts)) h (join-Without sep (next ∷ parts) h k))

rstrip-append : (t : Text) → Without b';' t → rstrip (λ c. eqb c b';') (t ++ (b';' ∷ [])) ≡ t
rstrip-append [] h = refl
rstrip-append (c ∷ t) (other, h) = ground (arith, rstrip-append t h)

pub fields_of-line_of :
    (part : Text) (parts : List Text)
    → IsPlain (part ∷ parts)
    → fields_of (line_of (part ∷ parts)) ≡ part ∷ parts
unfolding fields_of
fields_of-line_of part parts ((no_colon, no_colons), no_semicolons, no_newlines) =
    rw
      (rstrip-append (join (b':' ∷ []) (part ∷ parts))
        (join-Without b';' (b':' ∷ []) (part ∷ parts) (refl, tt) no_semicolons))
      (split-join b':' part parts no_colon no_colons)

rstrip_some :
    (test : ℕ → Bool) (t : Text) (c : ℕ)
    → test c ≡ false
    → is_empty (rstrip test (t ++ (c ∷ []))) ≡ false
rstrip_some test [] c h = ground arith
rstrip_some test (d ∷ t) c h = ground (arith, rstrip_some test t c h)

strip_some : (t : Text) → is_empty (strip (t ++ (b';' ∷ []))) ≡ false
strip_some [] = refl
strip_some (d ∷ t) = ground (arith, strip_some t, rstrip_some is_space (d ∷ t) b';' refl)

line_of-Without : (fields : List Text) → IsPlain fields → Without 10 (line_of fields)
line_of-Without fields (no_colons, no_semicolons, no_newlines) =
    append-Without 10 (join (b':' ∷ []) fields) (b';' ∷ [])
      (join-Without 10 (b':' ∷ []) fields (refl, tt) no_newlines) (refl, tt)

lines-AllWithout :
    (rows : List (List Text)) → AllPlain rows → AllWithout 10 (lines_of_fields rows ++ ([] ∷ []))
lines-AllWithout [] h = (tt, tt)
lines-AllWithout (fields ∷ rows) (p, h) = (line_of-Without fields p, lines-AllWithout rows h)

abbrev is_line : Text → Bool
is_line line = not (is_empty (strip line))

select-lines :
    (rows : List (List Text))
    → select is_line (lines_of_fields rows ++ ([] ∷ [])) ≡ lines_of_fields rows
select-lines [] = refl
select-lines (fields ∷ rows) =
    rw (strip_some (join (b':' ∷ []) fields)) (ap (λ ls. line_of fields ∷ ls) (select-lines rows))

pub lines_of-output_of :
    (row : List Text) (rows : List (List Text))
    → AllPlain (row ∷ rows)
    → lines_of (output_of (lines_of_fields (row ∷ rows))) ≡ lines_of_fields (row ∷ rows)
unfolding lines_of
lines_of-output_of row rows (p, h) =
    ap (select is_line) (
      split-join 10 (line_of row) (lines_of_fields rows ++ ([] ∷ [])) (line_of-Without row p)
        (lines-AllWithout rows h))
    ∙ select-lines (row ∷ rows)
