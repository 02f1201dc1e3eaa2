-- ===== src/Ipa/Ensure/Runs.antt =====
-- Runs of `ensure` and `main` of lib/python/ipa.py on an object that needs no change.
use freeipa_cloud_prov.Prelude.{
  String, ◌≡◌, ◌≢◌, refl, ap, Bool, true, false, not, ◌&&◌, none, List, [], ◌∷◌, arith, string_eq,
  contains,
}
use freeipa_cloud_prov.Result.{ok}
use freeipa_cloud_prov.Ipa.Client.{absent, Task, ClassSpec, base_keys, standard_params}
use freeipa_cloud_prov.Dict.{Dict, get, has}
use freeipa_cloud_prov.Ipa.Values.{Value}
use freeipa_cloud_prov.Ipa.Diff.{Changes}
use freeipa_cloud_prov.Ipa.Diff.Again.{AsksNothing}
use freeipa_cloud_prov.Ipa.Session.{Server, Reply, Run, M, login, start}
use freeipa_cloud_prov.Ipa.Hooks.{Client}
use freeipa_cloud_prov.Ipa.Ensure.{
  find, exists, with_keys, change_item, add_or_mod, rem, queue_requests, process_from,
  process_queue, report, last_response, ensure, main,
}
use freeipa_cloud_prov.Ipa.Ensure.Posts.{is_single, find_single}

-- No key is that of a parameter of the module itself.
abbrev pub no_standard : List String → Bool
no_standard [] = true
no_standard (k ∷ ks) = not (has k standard_params) && no_standard ks

contains-no_standard :
    (ks : List String) (k : String)
    → no_standard ks ≡ true
    → contains ks k ≡ true
    → has k standard_params ≡ false
contains-no_standard [] k own h = ground arith
contains-no_standard (j ∷ ks) k own h = elim (string_eq.dec k j) [
  | yes e ↦ rw e (ground (arith, own))
  | no n ↦ contains-no_standard ks k (ground (arith, own)) (ground (arith, h))
]

with_keys-nothing :
    (ks : List String) (d : Dict Value)
    → ((k : String) → contains ks k ≡ true → get k d ≡ none)
    → with_keys ks d ≡ []
with_keys-nothing ks [] h = refl
with_keys-nothing ks ((k, v) ∷ d) h =
    let missing : contains ks k ≡ false = ground (arith, h k) in
    ground (
      arith,
      with_keys-nothing ks d (λ j e. elim (string_eq.dec j k) [
        | yes same ↦ absurd (ground (arith, rw same at e))
        | no n ↦ ground (arith, h j e)
      ]),
    )

change_item-nothing :
    (c : ClassSpec) (diffs : Changes)
    → no_standard (base_keys c) ≡ true
    → AsksNothing diffs
    → change_item c diffs ≡ []
unfolding change_item
change_item-nothing c diffs own nothing =
    let scalars : with_keys (base_keys c) diffs.scalars ≡ [] =
      with_keys-nothing (base_keys c) diffs.scalars
        (λ k h. nothing.no_scalar k (contains-no_standard (base_keys c) k own h)) in
    rw (scalars, nothing.no_addition, nothing.no_removal) refl

module _ (c : Client) (t : Task) where
  pub rem-settled : (r : Run) → t.state ≢ absent → rem c t r ≡ (ok false, r)
  unfolding rem
  rem-settled r h = ground arith

  exists-same : (r : Run) → (exists c.spec r).1 ≡ r
  unfolding exists
  exists-same r = ground arith

  add_or_mod-settled :
      (r : Run)
      → no_standard (base_keys c.spec) ≡ true
      → AsksNothing r.diffs
      → (exists c.spec r).0 ≡ ok true
      → add_or_mod c t r ≡ (ok false, r)
  unfolding add_or_mod
  add_or_mod-settled r own settled there =
      rw (change_item-nothing c.spec r.diffs own settled)
        (rw there (ap (λ s. (ok false, s)) (exists-same r)))

  process_single :
      (server : Server) (r : Run)
      → is_single r.requests ≡ true
      → process_queue c t server r ≡ (ok tt, r)
  unfolding process_queue process_from
  process_single server r h = ground arith

-- A change function that does nothing where no change was computed.
abbrev pub IsSettled : M Bool → Type 0
IsSettled f = (r : Run) → AsksNothing r.diffs → f r ≡ (ok false, r)

abbrev pub AllSettled : List (M Bool) → Type 0
AllSettled [] = Unit
AllSettled (f ∷ fs) = IsSettled f × AllSettled fs

queue_settled :
    (fs : List (M Bool)) (r : Run)
    → AllSettled fs
    → AsksNothing r.diffs
    → queue_requests fs r ≡ (ok tt, r)
unfolding queue_requests
queue_settled [] r all settled = refl
queue_settled (f ∷ fs) r (idle, all) settled = rw (idle r settled) (queue_settled fs r all settled)

login-start : (reply : Reply) → (login reply start).0 ≡ ok tt → login reply start ≡ (ok tt, start)
unfolding login
login-start reply h = ground arith

module _ (c : Client) (t : Task) (server : Server) (fs : List (M Bool)) (all : AllSettled fs)
    (own : no_standard (base_keys c.spec) ≡ true) where
  queue_nothing :
      (r : Run)
      → t.state ≢ absent
      → AsksNothing r.diffs
      → (exists c.spec r).0 ≡ ok true
      → queue_requests (rem c t ∷ add_or_mod c t ∷ fs) r ≡ (ok tt, r)
  unfolding queue_requests
  queue_nothing r h settled there =
      rw (rem-settled c t r h)
        (rw (add_or_mod-settled c t r own settled there) (queue_settled fs r all settled))

  -- A run on an object that was found and needs no change ends as `find` leaves it, with no change
  -- reported.
  pub main_unchanged :
      (password_reply : Reply)
      → t.state ≢ absent
      → (login password_reply start).0 ≡ ok tt
      → (find c t server start).0 ≡ ok tt
      → AsksNothing (find c t server start).1.diffs
      → (exists c.spec (find c t server start).1).0 ≡ ok true
      → main c t password_reply server (rem c t ∷ add_or_mod c t ∷ fs) start
        ≡ (ok (false, last_response (find c t server start).1.requests), (find c t server start).1)
  unfolding main ensure report
  main_unchanged password_reply h logged_in ok_find settled there =
      let r : Run = (find c t server start).1 in
      let (single, same) = find_single c t server start ok_find in
      let queued = queue_nothing r h settled there in
      rw (login-start password_reply logged_in)
        (rw (ok_find, queued, process_single c t server r single, same))
