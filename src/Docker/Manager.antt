-- ===== src/Docker/Manager.antt =====
-- `DockerNetworkManager` of lib/modules/docker_network.py. The daemon is not part of the
-- repository: what it answers is a parameter, a function of the calls that changed it before.
pub mod Invariants
pub mod Calls
pub mod Effect
pub mod Again
pub mod Agreement
use freeipa_cloud_prov.Prelude.{
  String, ◌<>◌, Bool, true, false, not, ◌&&◌, ◌||◌, Option, none, some, List, [], ◌∷◌, ◌++◌,
  contains, ◌==◌, string_eq, if◌then◌else◌,
}
use freeipa_cloud_prov.Prelude.Lists.{is_empty}
use freeipa_cloud_prov.Dict.{Dict}
use freeipa_cloud_prov.Result.{Result, ok, err}
use freeipa_cloud_prov.Exec.{Exec, pure, raise, lift, gets, modify, ◌>>=◌, ◌>>◌}
use freeipa_cloud_prov.Docker.Config.{
  Params, Network, Wanted, present, absent, truthy, has_different_config,
}

-- The arguments of a call that creates a network. A pool is the dict of options that docker-py is
-- given for it.
pub record Creation : Type 0 where
  pub driver : String
  pub options : Dict String
  pub ipam_driver : String
  pub ipam_pools : List (Dict String)
  pub enable_ipv6 : Bool

-- A call that changes the daemon. The name of the network is that of the parameters.
pub data Call : Type 0 where
  create : Creation → Call
  remove : Call
  connect : String → Call
  disconnect : String → Call

pub data Failure : Type 0 where
  api_error : String → Failure
  type_error : Failure

-- `answer` gives the id of a network that is created, and any text for the other calls.
pub record Daemon : Type 0 where
  pub networks_named : List Call → String → List Network
  pub networks_with_id : List Call → String → List Network
  pub inspect : List Call → String → Result Failure Network
  pub answer : List Call → Call → Result Failure String

pub record Results : Type 0 where
  pub changed : Bool
  pub actions : List String

-- The object. `connected` is the parameter that `__init__` may overwrite, `calls` what was done to
-- the daemon, oldest first.
pub record Manager : Type 0 where
  pub existing : Option Network
  pub connected : List String
  pub results : Results
  pub calls : List Call

abbrev pub M : Type 0 → Type 0
M A = Exec Failure Manager A

-- `container_names_in_network`, where `None` cannot be indexed
abbrev pub container_names : Option Network → Result Failure (List String)
container_names none = err type_error
container_names (some net) = ok net.containers

abbrev pub first_network : List Network → Option Network
first_network [] = none
first_network (net ∷ _) = some net

-- `self.results['actions'].append(…)` and `self.results['changed'] = True`
abbrev pub record_action : String → M (Unit {0})
record_action text = modify (λ m. record m {
  results = record { changed = true; actions = m.results.actions ++ (text ∷ []) };
})

-- `self.existing_network = net`
abbrev pub made : Option Network → M (Unit {0})
made net = modify (λ m. record m { existing = net })

module _ (d : Daemon) (p : Params) where
  -- `get_existing_network`, after the calls so far
  abbrev pub get_existing : List Call → Option Network
  get_existing calls =
      if is_empty (d.networks_named calls p.network_name)
      then first_network (d.networks_with_id calls p.network_name)
      else first_network (d.networks_named calls p.network_name)

  unfoldable pub call : Call → M String
  call c m = (d.answer m.calls c, record m { calls = m.calls ++ (c ∷ []) })

  -- A call that is left out in check mode.
  unfoldable pub call_unless_check : Call → M (Unit {0})
  unfolding call
  call_unless_check c = if p.check_mode then pure tt else (do _ ← call c; pure tt)

  unfoldable pub inspect_ : String → M Network
  inspect_ name m = (d.inspect m.calls name, m)

  created_text : String
  created_text =
      "Created network "
      <> p.network_name
      <> " with driver "
      <> (if truthy p.driver then p.driver else "None")

  -- `ipam_pools` and `ipam_config`
  abbrev pub creation : Creation
  creation = record {
    driver = p.driver;
    options = p.driver_options;
    ipam_driver = p.ipam_driver;
    ipam_pools = if is_empty p.ipam_options then [] else p.ipam_options ∷ [];
    enable_ipv6 = p.ipv6;
  }

  -- The part of `create_network` that is left out in check mode.
  unfoldable pub create_unless_check : M (Unit {0})
  unfolding call inspect_
  create_unless_check =
      if p.check_mode
      then pure tt
      else (do id ← call (create creation); net ← inspect_ id; made (some net))

  abbrev pub create_missing : Option Network → M (Unit {0})
  unfolding created_text
  create_missing (some _) = pure tt
  create_missing none = create_unless_check >> record_action created_text

  unfoldable pub create_network : M (Unit {0})
  unfolding created_text
  create_network = do there ← gets (λ m. m.existing); create_missing there

  unfoldable pub disconnect_container : String → M (Unit {0})
  unfolding call_unless_check
  disconnect_container name = do
    call_unless_check (disconnect name)
    record_action ("Disconnected container " <> name)

  unfoldable pub disconnect_each : List String → M (Unit {0})
  disconnect_each [] = pure tt
  disconnect_each (name ∷ names) = do disconnect_container name; disconnect_each names

  unfoldable pub disconnect_all_containers : M (Unit {0})
  unfolding inspect_
  disconnect_all_containers = do net ← inspect_ p.network_name; disconnect_each net.containers

  abbrev pub remove_there : Option Network → M (Unit {0})
  remove_there none = pure tt
  remove_there (some _) = do
    disconnect_all_containers
    call_unless_check remove
    record_action ("Removed network " <> p.network_name)

  unfoldable pub remove_network : M (Unit {0})
  remove_network = do there ← gets (λ m. m.existing); remove_there there

  -- The body of the loop of `connect_containers`.
  unfoldable pub connect_container : String → M (Unit {0})
  connect_container name = do
    names ← (λ m. (container_names m.existing, m))
    if contains names name
        then pure tt
        else (do call_unless_check (connect name); record_action ("Connected container " <> name))

  unfoldable pub connect_each : List String → M (Unit {0})
  connect_each [] = pure tt
  connect_each (name ∷ names) = do connect_container name; connect_each names

  unfoldable pub connect_containers : M (Unit {0})
  connect_containers = do wanted ← gets (λ m. m.connected); connect_each wanted

  -- The loop of `disconnect_missing`, over the containers of the network.
  unfoldable pub disconnect_unwanted : List String → M (Unit {0})
  disconnect_unwanted [] = pure tt
  disconnect_unwanted (name ∷ names) = do
    wanted ← gets (λ m. m.connected)
    if contains wanted name then pure tt else disconnect_container name
    disconnect_unwanted names

  abbrev pub disconnect_from : Option Network → M (Unit {0})
  disconnect_from none = pure tt
  disconnect_from (some net) = disconnect_unwanted net.containers

  unfoldable pub disconnect_missing : M (Unit {0})
  disconnect_missing = do there ← gets (λ m. m.existing); disconnect_from there

  -- The first two results of `has_different_config`, of a network that is there
  abbrev pub different_from : Option Network → Bool × List String
  different_from none = (false, [])
  different_from (some net) = has_different_config p net

  unfoldable pub present_network : M (Unit {0})
  present_network = do
    there ← gets (λ m. m.existing)
    (if p.force || (different_from there).0 then remove_network >> made none else pure tt)
    create_network
    connect_containers
    if p.appends then pure tt else disconnect_missing

  -- What `__init__` starts from.
  unfoldable pub initial : Manager
  initial = record {
    existing = get_existing [];
    connected = elim (get_existing []) [
      | none ↦ p.connected
      | some net ↦ if is_empty p.connected then net.containers else p.connected
    ];
    results = record { changed = false; actions = [] };
    calls = [];
  }

  abbrev pub run_wanted : Wanted → Result Failure (Unit {0}) × Manager
  run_wanted present = present_network initial
  run_wanted absent = remove_network initial

  -- `__init__`, which does all the work
  unfoldable pub run : Result Failure (Unit {0}) × Manager
  run = run_wanted p.state

  -- What `main` prints: the actions only in check mode or for debugging, and the differences.
  pub record Report : Type 0 where
    pub report_changed : Bool
    pub report_actions : Option (List String)
    pub report_diff : Option (List String)
    pub docker_network : Option Network

  unfoldable pub present_report : Manager → Report
  present_report m = record {
    report_changed = m.results.changed;
    report_actions = if p.check_mode || p.debug then some m.results.actions else none;
    report_diff =
        if p.diff || p.check_mode || p.debug
        then some ((different_from (get_existing [])).1)
        else none;
    docker_network = get_existing m.calls;
  }
