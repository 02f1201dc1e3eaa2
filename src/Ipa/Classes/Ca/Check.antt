-- ===== src/Ipa/Classes/Ca/Check.antt =====
-- What `check_ca_request` lets through.
use freeipa_cloud_prov.Prelude.{
  String, ◌≡◌, refl, true, false, List, [], ◌∷◌, arith, contains, string_eq,
}
use freeipa_cloud_prov.Prelude.Lists.{is_empty}
use freeipa_cloud_prov.Dict.{keys, has, contains-keys}
use freeipa_cloud_prov.Result.{ok}
use freeipa_cloud_prov.Ipa.Client.{without_keys}
use freeipa_cloud_prov.Ipa.Diff.Lists.{contains-without_keys}
use freeipa_cloud_prov.Ipa.Session.{Request}
use freeipa_cloud_prov.Ipa.Classes.Ca.{check_ca_request}

abbrev pub allowed : List String
allowed = "all" ∷ "description" ∷ []

empty-contains : (xs : List String) (k : String) → is_empty xs ≡ true → contains xs k ≡ false
empty-contains [] k h = refl
empty-contains (x ∷ xs) k h = cc

-- A request that modifies a CA and is let through is unchanged, and sets no key but the description
-- and `all`.
pub check_ca_request_sound :
    (q q' : Request) (k : String)
    → check_ca_request q ≡ ok q'
    → q.method ≡ "ca_mod"
    → has k q.item ≡ true
    → (q' ≡ q) × (contains allowed k ≡ true)
unfolding check_ca_request
check_ca_request_sound q q' k h modifies there = (
  ground arith,
  ground (
    arith,
    contains-without_keys allowed (keys q.item) k,
    contains-keys k q.item,
    empty-contains (without_keys allowed (keys q.item)) k,
  ),
)
