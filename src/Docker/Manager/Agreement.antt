-- ===== src/Docker/Manager/Agreement.antt =====
-- Check mode of lib/modules/docker_network.py against a run.
use freeipa_cloud_prov.Prelude.{
  String, ◌≡◌, refl, sym, ap, subst, ◌<>◌, ◌∙◌, Bool, true, false, some, List, [], ◌∷◌, ◌++◌, arith,
  contains, string_eq, if◌then◌else◌,
}
use freeipa_cloud_prov.Result.{ok}
use freeipa_cloud_prov.Exec.{pure, gets, continue, ◌>>=◌, ◌>>◌}
use freeipa_cloud_prov.Docker.Config.{
  Params, Network, Wanted, has_different_config, differences, driver_option_differences,
  ipam_config_differences,
}
use freeipa_cloud_prov.Docker.Manager.{
  Call, Daemon, Manager, M, call, call_unless_check, record_action, disconnect_container,
  connect_container, connect_each, connect_containers, disconnect_unwanted, disconnect_missing,
  present_network, initial, run, get_existing, connect, disconnect, run_wanted, disconnect_from,
  container_names,
}
use freeipa_cloud_prov.Docker.Manager.Calls.{Accepts, kept_network, same_from, create_nothing}

-- The parameters, with check mode on or off.
abbrev pub in_mode : Params → Bool → Params
in_mode p b = record p { check_mode = b }

-- Two runs that differ in their calls at most; the network is there.
pub record Twin (net : Network) (m m' : Manager) : Type 0 where
  pub there : m.existing ≡ some net
  pub there' : m'.existing ≡ some net
  pub wanted : m'.connected ≡ m.connected
  pub results : m'.results ≡ m.results

-- Two steps that succeed, and keep two runs alike.
pub record Twins (net : Network) (f f' : M (Unit {0})) : Type 0 where
  pub succeeds : (m m' : Manager) → Twin net m m' → (f m).0 ≡ ok tt
  pub succeeds' : (m m' : Manager) → Twin net m m' → (f' m').0 ≡ ok tt
  pub after : (m m' : Manager) → Twin net m m' → Twin net (f m).1 (f' m').1

Twins-pure : (net : Network) → Twins net (pure tt) (pure tt)
Twins-pure net = record {
  succeeds = λ m m' w. refl;
  succeeds' = λ m m' w. refl;
  after = λ m m' w. w;
}

Twins-then :
    (net : Network) (f f' g g' : M (Unit {0}))
    → Twins net f f'
    → Twins net g g'
    → Twins net (f >> g) (f' >> g')
Twins-then net f f' g g' a b = record {
  succeeds = λ m m' w. rw (a.succeeds m m' w) (b.succeeds (f m).1 (f' m').1 (a.after m m' w));
  succeeds' = λ m m' w. rw (a.succeeds' m m' w) (b.succeeds' (f m).1 (f' m').1 (a.after m m' w));
  after = λ m m' w.
      rw (a.succeeds m m' w, a.succeeds' m m' w) (b.after (f m).1 (f' m').1 (a.after m m' w));
}

-- Steps that are others while the network is there.
Twins-eq :
    (net : Network) (f f' g g' : M (Unit {0}))
    → ((m : Manager) → m.existing ≡ some net → f m ≡ g m)
    → ((m : Manager) → m.existing ≡ some net → f' m ≡ g' m)
    → Twins net g g'
    → Twins net f f'
Twins-eq net f f' g g' e e' a = record {
  succeeds = λ m m' w. rw (e m w.there) (a.succeeds m m' w);
  succeeds' = λ m m' w. rw (e' m' w.there') (a.succeeds' m m' w);
  after = λ m m' w. rw (e m w.there, e' m' w.there') (a.after m m' w);
}

Twins-if :
    (net : Network) (b : Bool) (f f' g g' : M (Unit {0}))
    → Twins net f f'
    → Twins net g g'
    → Twins net (if b then f else g) (if b then f' else g')
Twins-if net true f f' g g' a b = a
Twins-if net false f f' g g' a b = b

Twins-wanted :
    (net : Network) (f f' : List String → M (Unit {0}))
    → ((names : List String) → Twins net (f names) (f' names))
    → Twins net (gets (λ m. m.connected) >>= f) (gets (λ m. m.connected) >>= f')
Twins-wanted net f f' each = record {
  succeeds = λ m m' w. (each m.connected).succeeds m m' w;
  succeeds' = λ m m' w.
      subst (λ c. (f' c m').0 ≡ ok tt) (sym w.wanted) ((each m.connected).succeeds' m m' w);
  after = λ m m' w.
      subst (λ c. Twin net (f m.connected m).1 (f' c m').1) (sym w.wanted)
        ((each m.connected).after m m' w);
}

-- The body of `connect_containers`, and the end of `present`, while the network is there.
module _ (d : Daemon) (p : Params) (net : Network) (m : Manager)
    (there : m.existing ≡ some net) where
  abbrev connecting : String → List String → M (Unit {0})
  connecting name names =
      if contains names name
      then pure tt
      else call_unless_check d p (connect name) >> record_action ("Connected container " <> name)

  connect_container_there :
      (name : String) → connect_container d p name m ≡ connecting name net.containers m
  unfolding connect_container
  connect_container_there name = ap (λ o. continue (container_names o) (connecting name) m) there

  present_there :
      p.force ≡ false
      → (has_different_config p net).0 ≡ false
      → present_network d p m
        ≡ (connect_containers d p >> (if p.appends then pure tt else disconnect_missing d p)) m
  unfolding present_network
  present_there unforced same =
      rw (kept_network d p _ m (same_from d p m net there unforced same))
        (rw (create_nothing d p m net there) refl)

module _ (d : Daemon) (p : Params) (accepts : Accepts d) (net : Network) where
  abbrev real : Params
  real = in_mode p false

  abbrev dry : Params
  dry = in_mode p true

  call-Twins : (c : Call) → Twins net (call_unless_check d real c) (call_unless_check d dry c)
  unfolding call_unless_check call
  call-Twins c = record {
    succeeds = λ m m' w. ground (arith, accepts.accepted m.calls c);
    succeeds' = λ m m' w. refl;
    after = λ m m' w. record {
      there = ground (arith, accepts.accepted m.calls c, w.there);
      there' = w.there';
      wanted = ground (arith, accepts.accepted m.calls c, w.wanted);
      results = ground (arith, accepts.accepted m.calls c, w.results);
    };
  }

  record_action-Twins : (text : String) → Twins net (record_action text) (record_action text)
  record_action-Twins text = record {
    succeeds = λ m m' w. refl;
    succeeds' = λ m m' w. refl;
    after = λ m m' w. record {
      there = w.there;
      there' = w.there';
      wanted = w.wanted;
      results = ap (λ r. record { changed = true; actions = r.actions ++ (text ∷ []) }) w.results;
    };
  }

  disconnect_container-Twins :
      (name : String)
      → Twins net (disconnect_container d real name) (disconnect_container d dry name)
  unfolding disconnect_container
  disconnect_container-Twins name =
      Twins-then net _ _ _ _ (call-Twins (disconnect name)) (record_action-Twins _)

  connect_each-Twins :
      (names : List String) → Twins net (connect_each d real names) (connect_each d dry names)
  unfolding connect_each
  connect_each-Twins [] = Twins-pure net
  connect_each-Twins (name ∷ names) =
      Twins-then net _ _ _ _
        (Twins-eq net _ _ _ _ (λ m h. connect_container_there d real net m h name)
          (λ m h. connect_container_there d dry net m h name)
          (Twins-if net (contains net.containers name) _ _ _ _ (Twins-pure net)
            (Twins-then net _ _ _ _ (call-Twins (connect name)) (record_action-Twins _))))
        (connect_each-Twins names)

  disconnect_unwanted-Twins :
      (names : List String)
      → Twins net (disconnect_unwanted d real names) (disconnect_unwanted d dry names)
  unfolding disconnect_unwanted
  disconnect_unwanted-Twins [] = Twins-pure net
  disconnect_unwanted-Twins (name ∷ names) = Twins-wanted net _ _ (λ wanted.
      Twins-then net _ _ _ _
        (Twins-if net (contains wanted name) _ _ _ _ (Twins-pure net)
          (disconnect_container-Twins name))
        (disconnect_unwanted-Twins names))

  disconnect_missing-Twins : Twins net (disconnect_missing d real) (disconnect_missing d dry)
  unfolding disconnect_missing
  disconnect_missing-Twins =
      Twins-eq net _ _ (disconnect_unwanted d real net.containers)
        (disconnect_unwanted d dry net.containers) (λ m h. ap (λ o. disconnect_from d real o m) h)
        (λ m h. ap (λ o. disconnect_from d dry o m) h) (disconnect_unwanted-Twins net.containers)

  update-Twins :
      Twins net
        (connect_containers d real >> (if p.appends then pure tt else disconnect_missing d real))
        (connect_containers d dry >> (if p.appends then pure tt else disconnect_missing d dry))
  unfolding connect_containers
  update-Twins =
      Twins-then net _ _ _ _ (Twins-wanted net _ _ connect_each-Twins)
        (Twins-if net p.appends _ _ _ _ (Twins-pure net) disconnect_missing-Twins)

same_in_mode :
    (p : Params) (b : Bool) (net : Network)
    → (has_different_config p net).0 ≡ false
    → (has_different_config (in_mode p b) net).0 ≡ false
unfolding has_different_config differences driver_option_differences ipam_config_differences
same_in_mode p b net h = h

-- Where the network is there with the requested configuration, `force` is off and the daemon
-- accepts every call, the run and the run in check mode both succeed, and report the same change
-- and the same actions.
pub run_predicted :
    (d : Daemon) (p : Params) (net : Network)
    → Accepts d
    → p.state ≡ Wanted.present
    → p.force ≡ false
    → get_existing d p [] ≡ some net
    → (has_different_config p net).0 ≡ false
    → ((run d (in_mode p false)).0 ≡ ok tt)
      × ((run d (in_mode p true)).0 ≡ ok tt)
      × ((run d (in_mode p true)).1.results ≡ (run d (in_mode p false)).1.results)
unfolding run initial
run_predicted d p net accepts state unforced there same =
    let m : Manager = initial d p in
    let begun : Twin net m m = record {
      there = there;
      there' = there;
      wanted = refl;
      results = refl;
    } in
    let twins = update-Twins d p accepts net in
    let ran : (b : Bool)
        → run d (in_mode p b)
          ≡ (connect_containers d (in_mode p b)
                >> (if p.appends then pure tt else disconnect_missing d (in_mode p b)))
              m =
      λ b.
        ap (run_wanted d (in_mode p b)) state
        ∙ present_there d (in_mode p b) net m there unforced (same_in_mode p b net same) in
    rw (ran true, ran false)
      (twins.succeeds m m begun, twins.succeeds' m m begun, (twins.after m m begun).results)
