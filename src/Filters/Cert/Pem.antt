-- ===== src/Filters/Cert/Pem.antt =====
-- The lines of a PEM certificate, and the search for a CN.
use mathlib.Core.List.{append-nil, append_assoc}
use freeipa_cloud_prov.Prelude.{
  ℕ, zero, suc, ◌*◌, ◌≤◌, ◌<◌, ◌≡◌, refl, sym, ap, ◌∙◌, true, false, none, some, List, [], ◌∷◌,
  ◌++◌, arith, ltb, eqb, Bool-cases, inl, inr,
}
use freeipa_cloud_prov.Prelude.Lists.{
  length, take, drop, take-append-drop, length-take, length-drop,
}
use freeipa_cloud_prov.Prelude.Texts.{codes}
use freeipa_cloud_prov.Filters.Escape.{Text}
use freeipa_cloud_prov.Filters.Cert.{
  newline, pem_rounds, last_line, header, footer, ipa_cert_to_pem, until_comma, cn_here, cn_from_dn,
}

-- The lines between header and footer: each but the last has 64 characters.
abbrev pub unlines : List Text → Text
unlines [] = []
unlines (line ∷ lines) = line ++ (newline ∷ unlines lines)

abbrev pub concat : List Text → Text
concat [] = []
concat (line ∷ lines) = line ++ concat lines

abbrev pub AllFull : List Text → Type 0
AllFull [] = Unit
AllFull (line ∷ lines) = (length line ≡ 64) × AllFull lines

-- What the rounds give: full lines are appended, and less than a line of the data is left.
pub record Rounds (cert text : Text) (r : Text × Text) : Type 0 where
  pub lines : List Text
  pub appended : r.0 ≡ cert ++ unlines lines
  pub whole : concat lines ++ r.1 ≡ text
  pub full : AllFull lines
  pub short : length r.1 < 64

take_full : (n : ℕ) (text : Text) → n ≤ length text → length (take n text) ≡ n
take_full n text h = omega (arith, length-take n text)

drop_shorter :
    (n fuel : ℕ) (text : Text) → length text ≤ suc fuel → 0 < n → length (drop n text) ≤ fuel
drop_shorter n fuel text h k = omega (arith, length-drop n text)

not_short : (n : ℕ) → ltb n 64 ≡ false → 64 ≤ n
not_short n h = ground arith

is_short : (n : ℕ) → ltb n 64 ≡ true → n < 64
is_short n h = ground arith

pem_rounds_lem :
    (fuel : ℕ) (cert text : Text)
    → length text ≤ fuel
    → Rounds cert text (pem_rounds fuel cert text)
unfolding pem_rounds
pem_rounds_lem zero cert text h = record {
  lines = [];
  appended = sym (append-nil cert);
  whole = refl;
  full = tt;
  short = omega arith;
}
pem_rounds_lem (suc fuel) cert text h = elim (Bool-cases (ltb (length text) 64)) [
  | inl short ↦ rw short (record {
    lines = [];
    appended = sym (append-nil cert);
    whole = refl;
    full = tt;
    short = is_short _ short;
  })
  | inr long ↦
      let line : Text = take 64 text in
      let r =
        pem_rounds_lem fuel (cert ++ (line ++ (newline ∷ []))) (drop 64 text)
          (drop_shorter 64 fuel text h (omega arith)) in
      rw long (record {
        lines = line ∷ r.lines;
        appended = r.appended ∙ simp append_assoc;
        whole =
            append_assoc line (concat r.lines) _
            ∙ ap (λ t. line ++ t) r.whole
            ∙ take-append-drop 64 text;
        full = (take_full 64 text (not_short _ long), r.full);
        short = r.short;
      })
]

-- Each line but the last has 64 characters, and the last has from 1 to 64.
abbrev pub AreWrapped : List Text → Type 0
AreWrapped [] = Unit
AreWrapped (line ∷ []) = (0 < length line) × (length line ≤ 64)
AreWrapped (line ∷ next ∷ lines) = (length line ≡ 64) × AreWrapped (next ∷ lines)

-- The lines of a text `pem` between the two that mark a certificate hold `text`.
pub record IsPem (text pem : Text) : Type 0 where
  pub lines : List Text
  pub printed :
      pem
      ≡ (codes "-----BEGIN CERTIFICATE-----" ++ (10 ∷ []))
        ++ (unlines lines ++ (codes "-----END CERTIFICATE-----" ++ (10 ∷ [])))
  pub whole : concat lines ≡ text
  pub wrapped : AreWrapped lines

-- The full lines and, where something is left, a line of that.
abbrev lines_of : List Text → Text → List Text
lines_of full [] = full
lines_of full (c ∷ cs) = full ++ ((c ∷ cs) ∷ [])

unlines-lines_of :
    (full : List Text) (rest : Text) → unlines (lines_of full rest) ≡ unlines full ++ last_line rest
unlines-lines_of full [] = sym (append-nil (unlines full))
unlines-lines_of [] (c ∷ cs) = refl
unlines-lines_of (line ∷ full) (c ∷ cs) =
    ap (λ t. line ++ (newline ∷ t)) (unlines-lines_of full (c ∷ cs))
    ∙ sym (append_assoc line (newline ∷ unlines full) (last_line (c ∷ cs)))

concat-lines_of :
    (full : List Text) (rest : Text) → concat (lines_of full rest) ≡ concat full ++ rest
concat-lines_of full [] = sym (append-nil (concat full))
concat-lines_of [] (c ∷ cs) = append-nil (c ∷ cs)
concat-lines_of (line ∷ full) (c ∷ cs) =
    ap (λ t. line ++ t) (concat-lines_of full (c ∷ cs))
    ∙ sym (append_assoc line (concat full) (c ∷ cs))

full-AreWrapped : (full : List Text) → AllFull full → AreWrapped full
full-AreWrapped [] h = tt
full-AreWrapped (line ∷ []) (h, hs) = (omega (arith, h), omega (arith, h))
full-AreWrapped (line ∷ next ∷ full) (h, hs) = (h, full-AreWrapped (next ∷ full) hs)

lines_of-AreWrapped :
    (full : List Text) (rest : Text)
    → AllFull full
    → length rest < 64
    → AreWrapped (lines_of full rest)
lines_of-AreWrapped full [] h short = full-AreWrapped full h
lines_of-AreWrapped [] (c ∷ cs) h short = (omega arith, omega (arith, short))
lines_of-AreWrapped (line ∷ []) (c ∷ cs) (h, hs) short =
    (h, lines_of-AreWrapped [] (c ∷ cs) hs short)
lines_of-AreWrapped (line ∷ next ∷ full) (c ∷ cs) (h, hs) short =
    (h, lines_of-AreWrapped (next ∷ full) (c ∷ cs) hs short)

-- The certificate is a header, lines and a footer; the lines give the data when joined, each but
-- the last has 64 characters, and the last has from 1 to 64.
pub ipa_cert_to_pem-IsPem : (text : Text) → IsPem text (ipa_cert_to_pem text)
unfolding ipa_cert_to_pem
ipa_cert_to_pem-IsPem text =
    let r = pem_rounds_lem (length text) header text (omega arith) in
    let rest : Text = (pem_rounds (length text) header text).1 in
    record {
      lines = lines_of r.lines rest;
      printed =
          ap (λ t. t ++ (last_line rest ++ footer)) r.appended
          ∙ append_assoc header (unlines r.lines) (last_line rest ++ footer)
          ∙ ap (λ t. header ++ t)
              (sym (append_assoc (unlines r.lines) (last_line rest) footer)
                ∙ ap (λ t. t ++ footer) (sym (unlines-lines_of r.lines rest)));
      whole = concat-lines_of r.lines rest ∙ r.whole;
      wrapped = lines_of-AreWrapped r.lines rest r.full r.short;
    }

-- Fuel for one round more than the full lines of the text.
abbrev Enough : ℕ → Text → Type 0
Enough fuel text = length text < 64 * suc fuel

pem_rounds-short :
    (fuel : ℕ) (cert text : Text) → Enough fuel text → length (pem_rounds fuel cert text).1 < 64
unfolding pem_rounds
pem_rounds-short zero cert text h = h
pem_rounds-short (suc fuel) cert text h = elim (Bool-cases (ltb (length text) 64)) [
  | inl short ↦ rw short (is_short _ short)
  | inr long ↦
      rw long (pem_rounds-short fuel _ (drop 64 text) (omega (arith, length-drop 64 text, h)))
]

pem_rounds_same :
    (n m : ℕ) (cert text : Text)
    → Enough n text
    → Enough m text
    → pem_rounds n cert text ≡ pem_rounds m cert text
unfolding pem_rounds
pem_rounds_same zero zero cert text h k = refl
pem_rounds_same zero (suc m) cert text h k = ground arith
pem_rounds_same (suc n) zero cert text h k = ground arith
pem_rounds_same (suc n) (suc m) cert text h k = ground (
  arith,
  length-drop 64 text,
  pem_rounds_same n m (cert ++ (take 64 text ++ (newline ∷ []))) (drop 64 text),
)

-- The loop of `ipa_cert_to_pem` ends after as many rounds as the data has full lines of 64
-- characters: with fuel for that many its condition is false at the end, and more fuel gives the
-- same result.
pub pem_rounds-stops :
    (n m : ℕ) (cert text : Text)
    → Enough n text
    → Enough m text
    → (length (pem_rounds n cert text).1 < 64) × (pem_rounds n cert text ≡ pem_rounds m cert text)
pem_rounds-stops n m cert text h k =
    (pem_rounds-short n cert text h, pem_rounds_same n m cert text h k)

-- A text without a comma.
abbrev pub NoComma : Text → Type 0
NoComma [] = Unit
NoComma (c ∷ cs) = (eqb c b',' ≡ false) × NoComma cs

until_comma-none : (text : Text) → NoComma text → until_comma text ≡ none
unfolding until_comma
until_comma-none [] h = refl
until_comma-none (c ∷ cs) (other, h) = ground (arith, until_comma-none cs h)

cn_here-none : (text : Text) → NoComma text → cn_here text ≡ none
unfolding cn_here
cn_here-none [] h = refl
cn_here-none (a ∷ []) h = refl
cn_here-none (a ∷ b ∷ []) h = refl
cn_here-none (a ∷ b ∷ c ∷ cs) (p, (q, (r, h))) = ground (arith, until_comma-none cs h)

-- No CN is found in a name without a comma, such as one that consists of the CN alone.
pub cn_from_dn-none : (text : Text) → NoComma text → cn_from_dn text ≡ none
unfolding cn_from_dn
cn_from_dn-none [] h = refl
cn_from_dn-none (c ∷ cs) (other, h) =
    ground (arith, cn_here-none (c ∷ cs) (other, h), cn_from_dn-none cs h)

until_comma_found :
    (name rest : Text) → NoComma name → until_comma (name ++ (b',' ∷ rest)) ≡ some name
unfolding until_comma
until_comma_found [] rest h = ground arith
until_comma_found (c ∷ cs) rest (other, h) = ground (arith, until_comma_found cs rest h)

-- A name that begins with `CN=` and has a comma gives the text between.
pub cn_from_dn_first :
    (name rest : Text)
    → NoComma name
    → cn_from_dn (b'C' ∷ b'N' ∷ b'=' ∷ (name ++ (b',' ∷ rest))) ≡ some name
unfolding cn_from_dn
cn_from_dn_first name rest h = ground (arith, until_comma_found name rest h)
