-- ===== src/Docker/Manager/Again.antt =====
-- A second run of lib/modules/docker_network.py.
use freeipa_cloud_prov.Prelude.{
  String, ◌≡◌, Bool, true, ◌&&◌, ◌||◌, List, [], ◌∷◌, contains, string_eq, if◌then◌else◌,
}
use freeipa_cloud_prov.Prelude.Lists.{is_empty}
use freeipa_cloud_prov.Docker.Manager.{Manager}

-- Each of the names is in the list.
abbrev AllIn : List String → List String → Type 0
AllIn names [] = Unit
AllIn names (x ∷ xs) = (contains names x ≡ true) × AllIn names xs

-- The containers that a list of parameters stands for: an empty one for those that are there.
abbrev chosen : List String → List String → List String
chosen given there = if is_empty given then there else given

-- Of a network with the chosen containers, and others perhaps where these are kept, the chosen are
-- there, and no others where none are kept.
module _ (before now : List String) (appends : Bool) where
  abbrev Final : List String → Type 0
  Final given =
      (k : String)
      → contains now k ≡ (contains (chosen given before) k || (appends && contains before k))
