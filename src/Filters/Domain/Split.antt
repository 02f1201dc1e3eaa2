-- ===== src/Filters/Domain/Split.antt =====
-- Splitting a domain name and joining its parts.
use freeipa_cloud_prov.Prelude.{◌≡◌, List, [], ◌∷◌}
use freeipa_cloud_prov.Prelude.Texts.{Text, join}
use freeipa_cloud_prov.Prelude.Splitting.{Without, AllWithout, split-AllWithout, join-split}
use freeipa_cloud_prov.Filters.Domain.{split_dots}

abbrev pub dot : Text
dot = b'.' ∷ []

-- A text without a dot.
abbrev pub NoDot : Text → Type 0
NoDot text = Without b'.' text

abbrev pub AllNoDot : List Text → Type 0
AllNoDot parts = AllWithout b'.' parts

-- The parts of a name are without dots, and give the name when joined by dots.
pub split_dots_lem :
    (text : Text) → AllNoDot (split_dots text) × (join dot (split_dots text) ≡ text)
split_dots_lem text = (split-AllWithout b'.' text, join-split b'.' text)
