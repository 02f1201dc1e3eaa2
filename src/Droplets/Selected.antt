-- ===== src/Droplets/Selected.antt =====
-- Which droplets a reply has.
use freeipa_cloud_prov.Prelude.{
  String, ◌≡◌, refl, Option, none, some, List, [], ◌∷◌, arith, ◌==◌, contains, string_eq,
  if◌then◌else◌,
}
use freeipa_cloud_prov.Dict.{Dict, get, set, get-set}
use freeipa_cloud_prov.Droplets.{
  Droplet, listed, Args, Reply, failed, single, by_name, token_of, selected, dict_of, run,
}

-- The last droplet with a name
abbrev pub last_named : String → List Droplet → Option Droplet
last_named n [] = none
last_named n (d ∷ ds) = elim (last_named n ds) [
  | some e ↦ some e
  | none ↦ if n == d.name then some d else none
]

abbrev or_else : Option Droplet → Option Droplet → Option Droplet
or_else (some d) o = some d
or_else none o = o

get-dict_of :
    (n : String) (so_far : Dict Droplet) (ds : List Droplet)
    → get n (dict_of so_far ds) ≡ or_else (last_named n ds) (get n so_far)
get-dict_of n so_far [] = refl
get-dict_of n so_far (d ∷ ds) =
    ground (arith, get-dict_of n (set d.name d so_far) ds, get-set n d.name d so_far)

last_named-selected :
    (n : String) (names : List String) (ds : List Droplet)
    → last_named n (selected names ds) ≡ (if contains names n then last_named n ds else none)
last_named-selected n names [] = ground arith
last_named-selected n names (d ∷ ds) = ground (arith, last_named-selected n names ds)

-- The reply for a list of names has an entry for exactly the names in it that a droplet has, and
-- that is the last droplet of the name.
get-selected :
    (n : String) (names : List String) (ds : List Droplet)
    → get n (dict_of [] (selected names ds)) ≡ (if contains names n then last_named n ds else none)
get-selected n names ds =
    ground (arith, get-dict_of n [] (selected names ds), last_named-selected n names ds)

-- The droplet that a reply has for a name
abbrev pub entry_of : Reply → String → Option Droplet
entry_of (failed msg) n = none
entry_of (single d) n = if n == d.name then some d else none
entry_of (by_name dict) n = get n dict

-- The reply for a list of names has, for each name, the last droplet of that name where the name is
-- in the list, and else nothing. A token and the list are given, and no single name.
pub run_names :
    (all_active_droplets : String → List Droplet) (args : Args) (token : String)
    (names : List String) (n : String)
    → token_of args ≡ some token
    → args.name ≡ none
    → args.names ≡ some (listed names)
    → entry_of (run all_active_droplets args) n
      ≡ (if contains names n then last_named n (all_active_droplets token) else none)
unfolding run
run_names all_active_droplets args token names n has_token no_name has_names =
    ground (arith, get-selected n names (all_active_droplets token))
