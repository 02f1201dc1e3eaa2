-- ===== src/Ssl/Fingerprint/RoundTrip.antt =====
-- A fingerprint determines the digest.
use freeipa_cloud_prov.Prelude.{◌≡◌, refl, ◌∙◌, ap, List, [], ◌∷◌, ◌++◌}
use freeipa_cloud_prov.Prelude.Texts.{Text, split, join}
use freeipa_cloud_prov.Prelude.Splitting.{Without, AllWithout, split-join}
use freeipa_cloud_prov.Ssl.Fingerprint.{pairs, colon}

-- The texts one after the other.
abbrev pub concat : List Text → Text
concat [] = []
concat (t ∷ ts) = t ++ concat ts

concat-pairs : (t : Text) → concat (pairs t) ≡ t
unfolding pairs
concat-pairs [] = refl
concat-pairs (c ∷ []) = refl
concat-pairs (c ∷ d ∷ t) = ap (λ s. c ∷ d ∷ s) (concat-pairs t)

pairs-AllWithout : (t : Text) → Without b':' t → AllWithout b':' (pairs t)
unfolding pairs
pairs-AllWithout [] h = tt
pairs-AllWithout (c ∷ []) h = (h, tt)
pairs-AllWithout (c ∷ d ∷ t) (x, (y, h)) = ((x, (y, tt)), pairs-AllWithout t h)

split-join-pairs :
    (ps : List Text) → AllWithout b':' ps → concat (split b':' (join colon ps)) ≡ concat ps
split-join-pairs [] h = unfold join split in refl
split-join-pairs (p ∷ ps) (h, k) = ap concat (split-join b':' p ps h k)

-- The pairs of a fingerprint give the digest when joined. The digest has no colon.
pub concat-split-pairs :
    (digest : Text) → Without b':' digest → concat (split b':' (join colon (pairs digest))) ≡ digest
concat-split-pairs digest h =
    split-join-pairs (pairs digest) (pairs-AllWithout digest h) ∙ concat-pairs digest
