-- ===== src/Docker/Manager/Invariants.antt =====
-- What every run keeps: an action is recorded exactly where a change is, and check mode changes
-- nothing in the daemon.
use freeipa_cloud_prov.Prelude.{
  String, ◌≡◌, refl, true, false, not, Option, none, some, List, [], ◌∷◌, ◌++◌, arith, contains,
  string_eq, ◌||◌,
}
use freeipa_cloud_prov.Prelude.Lists.{is_empty}
use freeipa_cloud_prov.Exec.Preserves.{
  Preserves, Preserves-same, Preserves-gets, Preserves-pure, Preserves-if, Preserves-bind,
}
use freeipa_cloud_prov.Docker.Config.{Params, Network, Wanted}
use freeipa_cloud_prov.Docker.Manager.{
  Call, Daemon, Manager, record_action, call, call_unless_check, inspect_, create_network,
  disconnect_container, disconnect_each, disconnect_all_containers, remove_network,
  connect_container, connect_each, connect_containers, disconnect_unwanted, disconnect_missing,
  present_network, initial, run, connect, remove, different_from, create_unless_check,
  create_missing, remove_there, disconnect_from, run_wanted, made,
}

-- An invariant that the three kinds of change keep.
pub record IsStable (p : Params) (P : Manager → Type 0) : Type 0 where
  pub recording : (text : String) → Preserves P (record_action text)
  pub calling : (d : Daemon) (c : Call) → Preserves P (call_unless_check d p c)
  pub replacing : (net : Option Network) → Preserves P (made net)
  pub creating : (d : Daemon) → Preserves P (create_unless_check d p)

module _ {P : Manager → Type 0} (d : Daemon) (p : Params) (stable : IsStable p P) where
  open stable use {recording, calling, replacing, creating}

  disconnect_container-Preserves : (name : String) → Preserves P (disconnect_container d p name)
  unfolding disconnect_container
  disconnect_container-Preserves name = Preserves-bind (calling d _) (λ _. recording _)

  disconnect_each-Preserves : (names : List String) → Preserves P (disconnect_each d p names)
  unfolding disconnect_each
  disconnect_each-Preserves [] = Preserves-same _
  disconnect_each-Preserves (name ∷ names) =
      Preserves-bind (disconnect_container-Preserves name) (λ _. disconnect_each-Preserves names)

  remove_network-Preserves : Preserves P (remove_network d p)
  unfolding remove_network disconnect_all_containers inspect_
  remove_network-Preserves = Preserves-bind (Preserves-gets (λ m. m.existing)) go
    where
      go : (there : Option Network) → Preserves P (remove_there d p there)
      go none = Preserves-same _
      go (some _) =
          Preserves-bind
            (Preserves-bind (Preserves-same _) (λ net. disconnect_each-Preserves net.containers))
            (λ _. Preserves-bind (calling d remove) (λ _. recording _))

  create_network-Preserves : Preserves P (create_network d p)
  unfolding create_network
  create_network-Preserves = Preserves-bind (Preserves-gets (λ m. m.existing)) go
    where
      go : (there : Option Network) → Preserves P (create_missing d p there)
      go none = Preserves-bind (creating d) (λ _. recording _)
      go (some _) = Preserves-same _

  connect_each-Preserves : (names : List String) → Preserves P (connect_each d p names)
  unfolding connect_each connect_container
  connect_each-Preserves [] = Preserves-same _
  connect_each-Preserves (name ∷ names) =
      Preserves-bind
        (Preserves-bind (Preserves-same _) (λ there.
          Preserves-if (contains there name) (Preserves-same _)
            (Preserves-bind (calling d (connect name)) (λ _. recording _))))
        (λ _. connect_each-Preserves names)

  disconnect_unwanted-Preserves :
      (names : List String) → Preserves P (disconnect_unwanted d p names)
  unfolding disconnect_unwanted
  disconnect_unwanted-Preserves [] = Preserves-same _
  disconnect_unwanted-Preserves (name ∷ names) =
      Preserves-bind (Preserves-gets (λ m. m.connected)) (λ wanted.
        Preserves-bind
          (Preserves-if (contains wanted name) (Preserves-pure tt)
            (disconnect_container-Preserves name))
          (λ _. disconnect_unwanted-Preserves names))

  disconnect_missing-Preserves : Preserves P (disconnect_missing d p)
  unfolding disconnect_missing
  disconnect_missing-Preserves = Preserves-bind (Preserves-gets (λ m. m.existing)) go
    where
      go : (there : Option Network) → Preserves P (disconnect_from d p there)
      go none = Preserves-same _
      go (some net) = disconnect_unwanted-Preserves net.containers

  present_network-Preserves : Preserves P (present_network d p)
  unfolding present_network connect_containers
  present_network-Preserves = Preserves-bind (Preserves-gets (λ m. m.existing)) (λ there.
      Preserves-bind
        (Preserves-if (p.force || (different_from d p there).0)
          (Preserves-bind remove_network-Preserves (λ _. replacing none)) (Preserves-pure tt))
        (λ _. Preserves-bind create_network-Preserves (λ _.
          Preserves-bind
            (Preserves-bind (Preserves-gets (λ m. m.connected))
              (λ wanted. connect_each-Preserves wanted))
            (λ _. Preserves-if p.appends (Preserves-pure tt) disconnect_missing-Preserves))))

  -- The whole of `__init__` keeps it.
  pub run_induction : P (initial d p) → P (run d p).1
  unfolding run
  run_induction h = go p.state
    where
      go : (w : Wanted) → P (run_wanted d p w).1
      go Wanted.present = present_network-Preserves.after (initial d p) h
      go Wanted.absent = remove_network-Preserves.after (initial d p) h

abbrev pub CallsNothing : Manager → Type 0
CallsNothing m = m.calls ≡ []

CallsNothing-IsStable : (p : Params) → p.check_mode ≡ true → IsStable p CallsNothing
unfolding call_unless_check create_unless_check
CallsNothing-IsStable p dry = record {
  recording = λ text. record { after = λ s h. h };
  calling = λ d c. record { after = λ s h. ground arith };
  replacing = λ net. record { after = λ s h. h };
  creating = λ d. record { after = λ s h. ground arith };
}

-- In check mode no call that changes the daemon is made, whether the run succeeds or not.
pub run_check_mode : (d : Daemon) (p : Params) → p.check_mode ≡ true → (run d p).1.calls ≡ []
unfolding initial
run_check_mode d p dry = run_induction d p (CallsNothing-IsStable p dry) refl

-- `changed` says that an action is recorded.
abbrev pub ChangedByActions : Manager → Type 0
ChangedByActions m = m.results.changed ≡ not (is_empty m.results.actions)

not_empty-append : (xs : List String) (x : String) → is_empty (xs ++ (x ∷ [])) ≡ false
not_empty-append [] x = refl
not_empty-append (_ ∷ xs) x = refl

ChangedByActions-IsStable : (p : Params) → IsStable p ChangedByActions
unfolding call_unless_check create_unless_check call inspect_
ChangedByActions-IsStable p = record {
  recording =
      λ text. record { after = λ s h. ground (arith, not_empty-append s.results.actions text) };
  calling = λ d c. record { after = λ s h. ground arith };
  replacing = λ net. record { after = λ s h. h };
  creating = λ d. record { after = λ s h. ground arith };
}

-- After every run, whether it succeeds or not, a change is reported exactly where an action is.
pub run_changed : (d : Daemon) (p : Params) → ChangedByActions (run d p).1
unfolding initial
run_changed d p = run_induction d p (ChangedByActions-IsStable p) refl
