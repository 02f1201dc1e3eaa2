-- ===== src/Docker/Manager/Effect.antt =====
-- What the calls of a run do to the containers of the network, and two inputs that go wrong.
use freeipa_cloud_prov.Prelude.{
  String, ◌≡◌, refl, sym, ap, ◌∙◌, Bool, true, false, not, none, some, List, [], ◌∷◌, ◌++◌, arith,
  contains, ◌==◌, string_eq, if◌then◌else◌, ◌&&◌, ◌||◌,
}
use freeipa_cloud_prov.Result.{err}
use freeipa_cloud_prov.Docker.Config.{Params, Network, Wanted, has_different_config}
use freeipa_cloud_prov.Docker.Manager.{
  Call, Daemon, type_error, connect, disconnect, remove, create, run, get_existing, present_network,
  create_network, create_unless_check, connect_containers, connect_each, connect_container, initial,
}
use freeipa_cloud_prov.Docker.Manager.Calls.{
  Accepts, present_calls, present_update_calls, connections, disconnections, wanted_of,
  wanted_of_given, update_calls,
}

-- Whether container `k` is connected after the calls, from whether it was before: what the daemon
-- documents of calls that give containers by their names.
abbrev pub attached : String → List Call → Bool → Bool
attached k [] had = had
attached k (create creation ∷ calls) had = attached k calls false
attached k (remove ∷ calls) had = attached k calls false
attached k (connect name ∷ calls) had = attached k calls (k == name || had)
attached k (disconnect name ∷ calls) had = attached k calls (not (k == name) && had)

attached-append :
    (k : String) (cs ds : List Call) (had : Bool)
    → attached k (cs ++ ds) had ≡ attached k ds (attached k cs had)
attached-append k [] ds had = refl
attached-append k (create creation ∷ cs) ds had = attached-append k cs ds _
attached-append k (remove ∷ cs) ds had = attached-append k cs ds _
attached-append k (connect name ∷ cs) ds had = attached-append k cs ds _
attached-append k (disconnect name ∷ cs) ds had = attached-append k cs ds _

attached-connections :
    (k : String) (net : Network) (names : List String) (had : Bool)
    → (contains net.containers k ≡ true → had ≡ true)
    → attached k (connections net names) had ≡ (had || contains names k)
attached-connections k net [] had h = ground arith
attached-connections k net (name ∷ names) had h = ground (
  arith,
  attached-connections k net names had h,
  attached-connections k net names (k == name || had) (λ e. ground (arith, h e)),
)

attached-disconnections :
    (k : String) (wanted names : List String) (had : Bool)
    → attached k (disconnections wanted names) had
      ≡ (had && (contains wanted k || not (contains names k)))
attached-disconnections k wanted [] had = ground arith
attached-disconnections k wanted (name ∷ names) had = ground (
  arith,
  attached-disconnections k wanted names had,
  attached-disconnections k wanted names (not (k == name) && had),
)

-- The calls for a network with the requested configuration leave exactly the wanted containers
-- connected; with `appends`, also those that were.
attached-update_calls :
    (p : Params) (net : Network) (k : String)
    → attached k (update_calls p net) (contains net.containers k)
      ≡ (contains (wanted_of p net) k || (p.appends && contains net.containers k))
attached-update_calls p net k = ground (
  arith,
  attached-append k (connections net (wanted_of p net))
      (if p.appends then [] else disconnections (wanted_of p net) net.containers)
      (contains net.containers k),
  attached-connections k net (wanted_of p net) (contains net.containers k),
  attached-disconnections k (wanted_of p net) net.containers
      (contains net.containers k || contains (wanted_of p net) k),
)

-- In check mode, where there is no network yet, `force` is off and a container is to be connected,
-- the run ends with a `TypeError`.
pub run_check_mode_new :
    (d : Daemon) (p : Params) (name : String) (names : List String)
    → p.state ≡ Wanted.present
    → p.check_mode ≡ true
    → p.force ≡ false
    → get_existing d p [] ≡ none
    → p.connected ≡ name ∷ names
    → (run d p).0 ≡ err type_error
unfolding run initial present_network create_network create_unless_check connect_containers
    connect_each connect_container
run_check_mode_new d p name names state dry unforced missing wanted = ground arith

-- The containers that a run leaves connected, where an empty list stands for those of the network.
pub attached-run :
    (d : Daemon) (p : Params) (net : Network) (k : String)
    → Accepts d
    → p.check_mode ≡ false
    → p.state ≡ Wanted.present
    → p.force ≡ false
    → get_existing d p [] ≡ some net
    → (has_different_config p net).0 ≡ false
    → attached k ((run d p).1.calls) (contains net.containers k)
      ≡ (contains (wanted_of p net) k || (p.appends && contains net.containers k))
attached-run d p net k accepts real state unforced there same =
    let (succeeds, made) = present_update_calls d p accepts real net state unforced there same in
    ap (λ calls. attached k calls (contains net.containers k)) made ∙ attached-update_calls p net k

-- The same where a call gives a container by its name or by its ID, from which `name_of` gives the
-- name.
module _ (name_of : String → String) where
  abbrev pub attached_by : String → List Call → Bool → Bool
  attached_by k [] had = had
  attached_by k (create creation ∷ calls) had = attached_by k calls false
  attached_by k (remove ∷ calls) had = attached_by k calls false
  attached_by k (connect container ∷ calls) had =
      attached_by k calls (k == name_of container || had)
  attached_by k (disconnect container ∷ calls) had =
      attached_by k calls (not (k == name_of container) && had)

  -- The containers of a list are given by their names.
  abbrev pub AllNames : List String → Type 0
  AllNames xs = (x : String) → contains xs x ≡ true → name_of x ≡ x

  AllNames-tail : (x : String) (xs : List String) → AllNames (x ∷ xs) → AllNames xs
  AllNames-tail x xs h y e = h y (ground arith)

  attached_by-append :
      (k : String) (cs ds : List Call) (had : Bool)
      → attached_by k (cs ++ ds) had ≡ attached_by k ds (attached_by k cs had)
  attached_by-append k [] ds had = refl
  attached_by-append k (create creation ∷ cs) ds had = attached_by-append k cs ds _
  attached_by-append k (remove ∷ cs) ds had = attached_by-append k cs ds _
  attached_by-append k (connect name ∷ cs) ds had = attached_by-append k cs ds _
  attached_by-append k (disconnect name ∷ cs) ds had = attached_by-append k cs ds _

  attached_by-connections :
      (k : String) (net : Network) (names : List String) (had : Bool)
      → AllNames names
      → attached_by k (connections net names) had ≡ attached k (connections net names) had
  attached_by-connections k net [] had named = refl
  attached_by-connections k net (name ∷ names) had named = ground (
    arith,
    named name (ground arith),
    attached_by-connections k net names had (AllNames-tail name names named),
    attached_by-connections k net names (k == name || had) (AllNames-tail name names named),
  )

  attached_by-disconnections :
      (k : String) (wanted names : List String) (had : Bool)
      → AllNames names
      → attached_by k (disconnections wanted names) had
        ≡ attached k (disconnections wanted names) had
  attached_by-disconnections k wanted [] had named = refl
  attached_by-disconnections k wanted (name ∷ names) had named = ground (
    arith,
    named name (ground arith),
    attached_by-disconnections k wanted names had (AllNames-tail name names named),
    attached_by-disconnections k wanted names (not (k == name) && had)
        (AllNames-tail name names named),
  )

  attached_by-update :
      (k : String) (net : Network) (wanted : List String) (appends had : Bool)
      → AllNames wanted
      → AllNames net.containers
      → attached_by k
          (connections net wanted ++ (if appends then [] else disconnections wanted net.containers))
          had
        ≡ attached k
            (connections net wanted
              ++ (if appends then [] else disconnections wanted net.containers))
            had
  attached_by-update k net wanted appends had named there = ground (
    arith,
    attached_by-append k (connections net wanted)
        (if appends then [] else disconnections wanted net.containers) had,
    attached-append k (connections net wanted)
        (if appends then [] else disconnections wanted net.containers) had,
    attached_by-connections k net wanted had named,
    attached_by-disconnections k wanted net.containers (attached k (connections net wanted) had)
        there,
  )

  -- Where containers are given by their names, the network is there with the requested
  -- configuration, `force` is off and the daemon accepts every call, a run out of check mode leaves
  -- exactly the given containers connected; with `appends`, also those that were.
  pub attached_by-run :
      (d : Daemon) (p : Params) (net : Network) (k name : String) (names : List String)
      → Accepts d
      → p.check_mode ≡ false
      → p.state ≡ Wanted.present
      → p.force ≡ false
      → get_existing d p [] ≡ some net
      → (has_different_config p net).0 ≡ false
      → p.connected ≡ name ∷ names
      → AllNames p.connected
      → AllNames net.containers
      → attached_by k (run d p).1.calls (contains net.containers k)
        ≡ (contains p.connected k || (p.appends && contains net.containers k))
  attached_by-run d p net k name names accepts real state unforced there same given named known =
      let (succeeds, made) =
        present_calls d p accepts real net name names given state unforced there same in
      let wanted = wanted_of_given p net name names given in
      ap (λ cs. attached_by k cs (contains net.containers k)) made
      ∙ attached_by-update k net p.connected p.appends (contains net.containers k) named known
      ∙ ap (λ cs. attached k cs (contains net.containers k)) (sym made)
      ∙ attached-run d p net k accepts real state unforced there same
      ∙ ap (λ w. contains w k || (p.appends && contains net.containers k)) wanted

-- With an empty list of containers, a run for a network that is there with the requested
-- configuration leaves every connected container connected. `force` is off, the daemon accepts
-- every call, and the run is out of check mode.
pub empty_list_keeps :
    (d : Daemon) (p : Params) (net : Network) (k : String)
    → Accepts d
    → p.check_mode ≡ false
    → p.state ≡ Wanted.present
    → p.force ≡ false
    → get_existing d p [] ≡ some net
    → (has_different_config p net).0 ≡ false
    → p.connected ≡ []
    → attached k ((run d p).1.calls) (contains net.containers k) ≡ contains net.containers k
empty_list_keeps d p net k accepts real state unforced there same none_given =
    ground (arith, attached-run d p net k accepts real state unforced there same)
