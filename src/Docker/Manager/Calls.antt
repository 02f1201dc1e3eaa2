-- ===== src/Docker/Manager/Calls.antt =====
-- Which calls a run makes where the daemon accepts them all.
use mathlib.Core.List.{append-nil, append_assoc}
use freeipa_cloud_prov.Prelude.{
  String, ◌≡◌, refl, sym, ap, subst, ◌∙◌, Bool, true, false, none, some, List, [], ◌∷◌, ◌++◌, arith,
  contains, string_eq, if◌then◌else◌, ◌||◌,
}
use freeipa_cloud_prov.Prelude.Lists.{is_empty}
use freeipa_cloud_prov.Result.{Result, ok}
use freeipa_cloud_prov.Exec.{pure, ◌>>◌}
use freeipa_cloud_prov.Docker.Config.{Params, Network, Wanted, has_different_config}
use freeipa_cloud_prov.Docker.Manager.{
  Call, Daemon, Manager, M, Failure, call, call_unless_check, create_network, disconnect_container,
  remove_network, connect_container, connect_each, connect_containers, disconnect_unwanted,
  disconnect_missing, present_network, initial, run, connect, disconnect, different_from,
  get_existing, disconnect_from, create_missing, made, run_wanted,
}

-- The daemon accepts every call.
pub record Accepts (d : Daemon) : Type 0 where
  pub accepted : (calls : List Call) (c : Call) → d.answer calls c ≡ ok ""

-- A successful step, by the calls it adds; the network and the parameter stay as they were.
pub record Adds (calls : List Call) (r : Result Failure (Unit {0}) × Manager) (m : Manager)
    : Type 0 where
  pub succeeds : r.0 ≡ ok tt
  pub adds : r.1.calls ≡ m.calls ++ calls
  pub keeps : r.1.existing ≡ m.existing
  pub keeps_connected : r.1.connected ≡ m.connected

Adds-then :
    (cs ds : List Call) (m n : M (Unit {0})) (s : Manager)
    → Adds cs (m s) s
    → Adds ds (n (m s).1) (m s).1
    → Adds (cs ++ ds) ((m >> n) s) s
Adds-then cs ds m n s a b = rw a.succeeds (record {
  succeeds = b.succeeds;
  adds = b.adds ∙ ap (λ z. z ++ ds) a.adds ∙ append_assoc s.calls cs ds;
  keeps = b.keeps ∙ a.keeps;
  keeps_connected = b.keeps_connected ∙ a.keeps_connected;
})

Adds-pure : (s : Manager) → Adds [] (pure tt s) s
Adds-pure s = record {
  succeeds = refl;
  adds = sym (append-nil s.calls);
  keeps = refl;
  keeps_connected = refl;
}

-- The calls for the names that the network has not.
abbrev pub connections : Network → List String → List Call
connections net [] = []
connections net (name ∷ names) =
    (if contains net.containers name then [] else connect name ∷ []) ++ connections net names

-- The calls for the containers that are not wanted.
abbrev pub disconnections : List String → List String → List Call
disconnections wanted [] = []
disconnections wanted (name ∷ names) =
    (if contains wanted name then [] else disconnect name ∷ []) ++ disconnections wanted names

-- The containers that are to be connected: where none is given, those that are.
abbrev pub wanted_of : Params → Network → List String
wanted_of p net = if is_empty p.connected then net.containers else p.connected

pub wanted_of_given :
    (p : Params) (net : Network) (name : String) (names : List String)
    → p.connected ≡ name ∷ names
    → wanted_of p net ≡ p.connected
wanted_of_given p net name names h = rw h refl

-- The calls for a network that is there and need not be made again.
abbrev pub update_calls : Params → Network → List Call
update_calls p net =
    connections net (wanted_of p net)
    ++ (if p.appends then [] else disconnections (wanted_of p net) net.containers)

module _ (d : Daemon) (p : Params) where
  pub kept_network :
      (b : Bool) (m : Manager)
      → b ≡ false
      → (if b then remove_network d p >> made none else pure tt) m ≡ (ok tt, m)
  kept_network true m h = cc
  kept_network false m h = refl

  pub create_nothing :
      (m : Manager) (net : Network) → m.existing ≡ some net → create_network d p m ≡ (ok tt, m)
  unfolding create_network
  create_nothing m net h = ap (λ there. create_missing d p there m) h

  pub same_from :
      (m : Manager) (net : Network)
      → m.existing ≡ some net
      → p.force ≡ false
      → (has_different_config p net).0 ≡ false
      → (p.force || (different_from d p m.existing).0) ≡ false
  same_from m net h unforced same = ground arith

module _ (d : Daemon) (p : Params) (accepts : Accepts d) (real : p.check_mode ≡ false) where
  disconnect_container-Adds :
      (name : String) (m : Manager)
      → Adds (disconnect name ∷ []) (disconnect_container d p name m) m
  unfolding disconnect_container call_unless_check call
  disconnect_container-Adds name m = ground (arith, accepts.accepted m.calls (disconnect name))

  connect_container-Adds :
      (name : String) (m : Manager) (net : Network)
      → m.existing ≡ some net
      → Adds
          (if contains net.containers name then [] else connect name ∷ [])
          (connect_container d p name m)
          m
  unfolding connect_container call_unless_check call
  connect_container-Adds name m net h =
      ground (arith, accepts.accepted m.calls (connect name), append-nil m.calls)

  connect_each-Adds :
      (names : List String) (m : Manager) (net : Network)
      → m.existing ≡ some net
      → Adds (connections net names) (connect_each d p names m) m
  unfolding connect_each
  connect_each-Adds [] m net h = Adds-pure m
  connect_each-Adds (name ∷ names) m net h =
      let a = connect_container-Adds name m net h in
      Adds-then _ (connections net names) (connect_container d p name) (connect_each d p names) m a
        (connect_each-Adds names (connect_container d p name m).1 net (a.keeps ∙ h))

  disconnect_one-Adds :
      (wanted : List String) (name : String) (m : Manager)
      → Adds
          (if contains wanted name then [] else disconnect name ∷ [])
          ((if contains wanted name then pure tt else disconnect_container d p name) m)
          m
  disconnect_one-Adds wanted name m = go (contains wanted name)
    where
      go :
          (b : Bool)
          → Adds
              (if b then [] else disconnect name ∷ [])
              ((if b then pure tt else disconnect_container d p name) m)
              m
      go true = Adds-pure m
      go false = disconnect_container-Adds name m

  disconnect_unwanted-Adds :
      (names wanted : List String) (m : Manager)
      → m.connected ≡ wanted
      → Adds (disconnections wanted names) (disconnect_unwanted d p names m) m
  unfolding disconnect_unwanted
  disconnect_unwanted-Adds [] wanted m h = Adds-pure m
  disconnect_unwanted-Adds (name ∷ names) wanted m h =
      let a = disconnect_one-Adds m.connected name m in
      let step : M (Unit {0}) =
        if contains m.connected name then pure tt else disconnect_container d p name in
      subst
        (λ w. Adds (disconnections w (name ∷ names)) ((step >> disconnect_unwanted d p names) m) m)
        h
        (Adds-then _ (disconnections m.connected names) step (disconnect_unwanted d p names) m a
          (disconnect_unwanted-Adds names m.connected (step m).1 a.keeps_connected))

  disconnect_missing-Adds :
      (net : Network) (m : Manager)
      → m.existing ≡ some net
      → Adds (disconnections m.connected net.containers) (disconnect_missing d p m) m
  unfolding disconnect_missing
  disconnect_missing-Adds net m h =
      subst
        (λ there. Adds (disconnections m.connected net.containers) (disconnect_from d p there m) m)
        (sym h) (disconnect_unwanted-Adds net.containers m.connected m refl)

  update_end :
      (net : Network) (m : Manager)
      → m.existing ≡ some net
      → Adds
          (if p.appends then [] else disconnections m.connected net.containers)
          ((if p.appends then pure tt else disconnect_missing d p) m)
          m
  update_end net m h = go p.appends
    where
      go :
          (b : Bool)
          → Adds
              (if b then [] else disconnections m.connected net.containers)
              ((if b then pure tt else disconnect_missing d p) m)
              m
      go true = Adds-pure m
      go false = disconnect_missing-Adds net m h

  update-Adds :
      (net : Network) (m : Manager)
      → m.existing ≡ some net
      → p.force ≡ false
      → (has_different_config p net).0 ≡ false
      → Adds
          (connections net m.connected
            ++ (if p.appends then [] else disconnections m.connected net.containers))
          (present_network d p m)
          m
  unfolding present_network create_network connect_containers
  update-Adds net m h unforced same =
      let kept = kept_network d p _ m (same_from d p m net h unforced same) in
      let a = connect_each-Adds m.connected m net h in
      let m1 : Manager = (connect_each d p m.connected m).1 in
      let b = update_end net m1 (a.keeps ∙ h) in
      rw (kept, create_nothing d p m net h)
        (Adds-then (connections net m.connected) _ (connect_each d p m.connected)
          (if p.appends then pure tt else disconnect_missing d p) m a
          (subst
            (λ w.
              Adds (if p.appends then [] else disconnections w net.containers)
                ((if p.appends then pure tt else disconnect_missing d p) m1) m1)
            a.keeps_connected b))

  -- The calls, where an empty list of containers stands for those of the network.
  pub present_update_calls :
      (net : Network)
      → p.state ≡ Wanted.present
      → p.force ≡ false
      → get_existing d p [] ≡ some net
      → (has_different_config p net).0 ≡ false
      → ((run d p).0 ≡ ok tt) × ((run d p).1.calls ≡ update_calls p net)
  unfolding run initial
  present_update_calls net state unforced there same =
      let a = update-Adds net (initial d p) there unforced same in
      let wanted : (initial d p).connected ≡ wanted_of p net =
        ap (λ o. elim o [ none ↦ p.connected | some n ↦ wanted_of p n ]) there in
      subst
        (λ w. ((run_wanted d p w).0 ≡ ok tt) × ((run_wanted d p w).1.calls ≡ update_calls p net))
        (sym state)
        (
          a.succeeds,
          a.adds
              ∙ ap
                  (λ w.
                    connections net w
                    ++ (if p.appends then [] else disconnections w net.containers))
                  wanted,
        )

  pub present_calls :
      (net : Network) (name : String) (names : List String)
      → p.connected ≡ name ∷ names
      → p.state ≡ Wanted.present
      → p.force ≡ false
      → get_existing d p [] ≡ some net
      → (has_different_config p net).0 ≡ false
      → ((run d p).0 ≡ ok tt)
        × ((run d p).1.calls
            ≡ connections net p.connected
              ++ (if p.appends then [] else disconnections p.connected net.containers))
  present_calls net name names given state unforced there same =
      let (succeeds, made) = present_update_calls net state unforced there same in
      let wanted : wanted_of p net ≡ p.connected = wanted_of_given p net name names given in
      (
        succeeds,
        made
            ∙ ap
                (λ w.
                  connections net w ++ (if p.appends then [] else disconnections w net.containers))
                wanted,
      )
