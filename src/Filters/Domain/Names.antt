-- ===== src/Filters/Domain/Names.antt =====
-- The filters on names that are given by their parts.
use freeipa_cloud_prov.Prelude.{◌≡◌, ap, List, [], ◌∷◌, map}
use freeipa_cloud_prov.Prelude.Texts.{Text, join}
use freeipa_cloud_prov.Prelude.Splitting.{split-join}
use freeipa_cloud_prov.Filters.Domain.{first_part, last_part, shortname, last_octet, domain_to_dn}
use freeipa_cloud_prov.Filters.Domain.Split.{dot, NoDot, AllNoDot}

-- `dc=` in front of a part
abbrev pub component : Text → Text
component part = b'd' ∷ b'c' ∷ b'=' ∷ part

-- Of a name that joins parts without a dot by dots, `shortname` is the first part, `last_octet` the
-- last, and `domain_to_dn` has one component for each part, in order, with commas between.
pub filters-join :
    (part : Text) (parts : List Text)
    → NoDot part
    → AllNoDot parts
    → (shortname (join dot (part ∷ parts)) ≡ part)
      × (last_octet (join dot (part ∷ parts)) ≡ last_part (part ∷ parts))
      × (domain_to_dn (join dot (part ∷ parts)) ≡ join (b',' ∷ []) (map component (part ∷ parts)))
unfolding shortname last_octet domain_to_dn
filters-join part parts h k =
    let same = split-join b'.' part parts h k in
    (ap first_part same, ap last_part same, ap (λ ps. join (b',' ∷ []) (map component ps)) same)
