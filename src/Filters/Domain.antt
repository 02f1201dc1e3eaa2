-- ===== src/Filters/Domain.antt =====
-- `domain_to_dn`, `shortname` and `last_octet` of lib/filter_plugins.
pub mod Split
pub mod Names
use freeipa_cloud_prov.Prelude.{ℕ, Bool, true, false, List, [], ◌∷◌, ◌++◌, map, if◌then◌else◌, eqb}
use freeipa_cloud_prov.Prelude.Texts.{Text, split, join}

-- `text.split('.')`
abbrev pub split_dots : Text → List Text
split_dots text = split b'.' text

-- `parts[0]` and `parts[-1]`; `split` gives one part at least.
abbrev pub first_part : List Text → Text
first_part [] = []
first_part (part ∷ _) = part

abbrev pub last_part : List Text → Text
last_part [] = []
last_part (part ∷ []) = part
last_part (_ ∷ next ∷ parts) = last_part (next ∷ parts)

unfoldable pub shortname : Text → Text
shortname text = first_part (split_dots text)

unfoldable pub last_octet : Text → Text
last_octet text = last_part (split_dots text)

unfoldable pub domain_to_dn : Text → Text
domain_to_dn text = join (b',' ∷ []) (map (λ part. b'd' ∷ b'c' ∷ b'=' ∷ part) (split_dots text))
