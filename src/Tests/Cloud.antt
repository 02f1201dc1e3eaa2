-- ===== src/Tests/Cloud.antt =====
-- The theorem on `do_droplet_info`, applied to a list of droplets.
use freeipa_cloud_prov.Prelude.{String, ◌≡◌, refl, string_eq, none, some, [], ◌∷◌}
use freeipa_cloud_prov.Droplets.{Droplet, listed, Args, run}
use freeipa_cloud_prov.Droplets.Selected.{entry_of, run_names}

abbrev droplet : String → Droplet
droplet name = record { name = name; info = [] }

abbrev args : Args
args = record {
  api_token = none;
  api_key = some "key";
  name = none;
  names = some (listed ("host1" ∷ "host3" ∷ []));
}

run_names_example :
    entry_of (run (λ token. droplet "host1" ∷ droplet "host2" ∷ []) args) "host1"
    ≡ some (droplet "host1")
unfolding string_eq
run_names_example =
    run_names (λ token. droplet "host1" ∷ droplet "host2" ∷ []) args "key" ("host1" ∷ "host3" ∷ [])
      "host1" refl refl refl
