-- ===== src/Filters/Cert.antt =====
-- `ipa_cert_to_pem` and `cn_from_dn` of lib/filter_plugins/ipa_cert_to_pem.py
pub mod Pem
use freeipa_cloud_prov.Prelude.{
  ℕ, zero, suc, ◌+◌, ◌-◌, Bool, true, false, not, Option, none, some, List, [], ◌∷◌, ◌++◌,
  if◌then◌else◌, ltb, eqb,
}
use freeipa_cloud_prov.Prelude.Lists.{length, is_empty, take, drop}
use freeipa_cloud_prov.Prelude.Texts.{codes}
use freeipa_cloud_prov.Filters.Escape.{Text}

abbrev pub newline : ℕ
newline = 10

-- The rounds of `while len(data) >= 64`, with what they append and the data that is left.
unfoldable pub pem_rounds : ℕ → Text → Text → Text × Text
pem_rounds zero cert rest = (cert, rest)
pem_rounds (suc fuel) cert rest =
    let more = pem_rounds fuel (cert ++ (take 64 rest ++ (newline ∷ []))) (drop 64 rest) in
    if ltb (length rest) 64 then (cert, rest) else more

abbrev pub last_line : Text → Text
last_line [] = []
last_line (c ∷ cs) = (c ∷ cs) ++ (newline ∷ [])

abbrev pub header : Text
header = codes "-----BEGIN CERTIFICATE-----" ++ (newline ∷ [])

abbrev pub footer : Text
footer = codes "-----END CERTIFICATE-----" ++ (newline ∷ [])

-- Each round takes 64 characters, so the length of the data is fuel enough.
unfoldable pub ipa_cert_to_pem : Text → Text
unfolding pem_rounds
ipa_cert_to_pem text =
    let (cert, rest) = pem_rounds (length text) header text in cert ++ (last_line rest ++ footer)

-- `[^,]*,`: the text up to the first comma
unfoldable pub until_comma : Text → Option Text
until_comma [] = none
until_comma (c ∷ cs) = elim (until_comma cs) [
  | none ↦ if eqb c b',' then some [] else none
  | some t ↦ if eqb c b',' then some [] else some (c ∷ t)
]

abbrev pub or_else : Option Text → Option Text → Option Text
or_else (some t) _ = some t
or_else none o = o

-- `CN=([^,]*),` at one position
unfoldable pub cn_here : Text → Option Text
cn_here (c ∷ n ∷ e ∷ cs) =
    if eqb c b'C'
    then (if eqb n b'N' then (if eqb e b'=' then until_comma cs else none) else none)
    else none
cn_here _ = none

-- `cn_re.search`: the first position that matches
unfoldable pub cn_from_dn : Text → Option Text
unfolding cn_here until_comma
cn_from_dn [] = none
cn_from_dn (c ∷ cs) = or_else (cn_here (c ∷ cs)) (cn_from_dn cs)
