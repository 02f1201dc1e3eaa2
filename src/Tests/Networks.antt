-- ===== src/Tests/Networks.antt =====
-- The theorems on `docker_network`, applied to concrete daemons.
use freeipa_cloud_prov.Prelude.{
  String, ◌≡◌, refl, Bool, true, false, ◌&&◌, ◌||◌, none, List, [], ◌∷◌, contains, string_eq,
}
use freeipa_cloud_prov.Result.{ok, err}
use freeipa_cloud_prov.Docker.Config.{
  Params, Network, Wanted, has_different_config, differences, driver_option_differences,
  ipam_config_differences,
}
use freeipa_cloud_prov.Docker.Config.Satisfied.{Satisfied, has_different_config-Satisfied}
use freeipa_cloud_prov.Docker.Manager.{type_error, Daemon, run}
use freeipa_cloud_prov.Docker.Manager.Invariants.{run_check_mode, run_changed, ChangedByActions}
use freeipa_cloud_prov.Docker.Manager.Calls.{Accepts}
use freeipa_cloud_prov.Docker.Manager.Agreement.{in_mode, run_predicted}
use freeipa_cloud_prov.Docker.Manager.Effect.{attached_by, attached_by-run, run_check_mode_new}

abbrev backend : Network
backend = record {
  name = "backend";
  driver = "bridge";
  options = [];
  ipam = none;
  enable_ipv6 = false;
  containers = "web" ∷ "old" ∷ [];
}

abbrev web_and_db : List String
web_and_db = "web" ∷ "db" ∷ []

-- Every call succeeds; the network is there, or none is.
abbrev daemon_with : List Network → Daemon
daemon_with nets = record {
  networks_named = λ calls name. nets;
  networks_with_id = λ calls name. [];
  inspect = λ calls name. ok backend;
  answer = λ calls c. ok "";
}

abbrev ask : List String → Bool → Params
ask connected check_mode = record {
  network_name = "backend";
  connected = connected;
  state = Wanted.present;
  driver = "bridge";
  driver_options = [];
  force = false;
  appends = false;
  ipam_driver = "";
  ipam_options = [];
  ipv6 = false;
  debug = false;
  check_mode = check_mode;
  diff = false;
}

daemon_with-Accepts : Accepts (daemon_with (backend ∷ []))
daemon_with-Accepts = record { accepted = λ calls c. refl }

same_config : (has_different_config (ask ("web" ∷ "db" ∷ []) false) backend).0 ≡ false
unfolding has_different_config differences driver_option_differences ipam_config_differences
    string_eq
same_config = refl

run_check_mode_example : (run (daemon_with (backend ∷ [])) (ask ("db" ∷ []) true)).1.calls ≡ []
run_check_mode_example = run_check_mode (daemon_with (backend ∷ [])) (ask ("db" ∷ []) true) refl

run_changed_example :
    ChangedByActions ((run (daemon_with (backend ∷ [])) (ask ("db" ∷ []) false)).1)
run_changed_example = run_changed (daemon_with (backend ∷ [])) (ask ("db" ∷ []) false)

attached_by-run_example :
    attached_by
      (λ container. container)
      "db"
      ((run (daemon_with (backend ∷ [])) (ask ("web" ∷ "db" ∷ []) false)).1.calls)
      (contains backend.containers "db")
    ≡ (contains web_and_db "db" || (false && contains backend.containers "db"))
attached_by-run_example =
    attached_by-run (λ container. container) (daemon_with (backend ∷ []))
      (ask ("web" ∷ "db" ∷ []) false) backend "db" "web" ("db" ∷ []) daemon_with-Accepts refl refl
      refl refl same_config refl (λ x h. refl) (λ x h. refl)

run_check_mode_new_example : (run (daemon_with []) (ask ("db" ∷ []) true)).0 ≡ err type_error
run_check_mode_new_example =
    run_check_mode_new (daemon_with []) (ask ("db" ∷ []) true) "db" [] refl refl refl refl refl

run_predicted_example :
    ((run (daemon_with (backend ∷ [])) (in_mode (ask ("web" ∷ "db" ∷ []) false) false)).0 ≡ ok tt)
    × ((run (daemon_with (backend ∷ [])) (in_mode (ask ("web" ∷ "db" ∷ []) false) true)).0 ≡ ok tt)
    × ((run (daemon_with (backend ∷ [])) (in_mode (ask ("web" ∷ "db" ∷ []) false) true)).1.results
        ≡ (run
            (daemon_with (backend ∷ []))
            (in_mode (ask ("web" ∷ "db" ∷ []) false) false)).1.results)
run_predicted_example =
    run_predicted (daemon_with (backend ∷ [])) (ask ("web" ∷ "db" ∷ []) false) backend
      daemon_with-Accepts refl refl refl same_config

-- The network after that run.
abbrev backend_after : Network
backend_after = record backend { containers = "web" ∷ "db" ∷ [] }

has_different_config-Satisfied_example : Satisfied (ask ("web" ∷ "db" ∷ []) false) backend
has_different_config-Satisfied_example =
    has_different_config-Satisfied (ask ("web" ∷ "db" ∷ []) false) backend same_config
