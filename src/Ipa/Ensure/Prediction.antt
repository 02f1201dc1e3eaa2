-- ===== src/Ipa/Ensure/Prediction.antt =====
-- What a run in check mode reports, against the run that it stands for.
use freeipa_cloud_prov.Prelude.{
  ◌≡◌, refl, sym, ap, ◌∙◌, Bool, true, false, not, ◌||◌, Option, some, List, [], ◌∷◌, arith, inl,
  inr,
}
use freeipa_cloud_prov.Result.{ok, err, Result-cases, err_or_ok}
use freeipa_cloud_prov.Exec.{bind_ok}
use freeipa_cloud_prov.Ipa.Client.{Task}
use freeipa_cloud_prov.Ipa.Session.{Request, Server, Reply, Entry, Run, M, Payload, login, start}
use freeipa_cloud_prov.Ipa.Hooks.{Client}
use freeipa_cloud_prov.Ipa.Ensure.{
  find, queue_requests, process_all, post_entry, process_from, process_queue, ensure, main, report,
  last_response,
}
use freeipa_cloud_prov.Ipa.Ensure.Queue.{first?}
use freeipa_cloud_prov.Ipa.Ensure.Quiet.{queue_requests-IsQuiet, AllQuiet}
use freeipa_cloud_prov.Ipa.Ensure.Posts.{is_single, find_ok}
use freeipa_cloud_prov.Ipa.Ensure.Reports.{changed-process_from, mark_of}

-- A run that is marked, or has an entry besides that of `find`, ends with a change.
abbrev pub active : Run → Bool
active r = r.changed || not (is_single r.requests)

module _ (c : Client) (t : Task) (server : Server) where
  changed-process_queue :
      (r : Run) (q : Request)
      → first? r.requests ≡ some q
      → (process_queue c t server r).0 ≡ ok tt
      → (process_queue c t server r).1.changed ≡ active r
  unfolding process_queue
  changed-process_queue r q h done = go r.requests h done
    where
      go :
          (es : List Entry)
          → first? es ≡ some q
          → (process_all c t server es r).0 ≡ ok tt
          → (process_all c t server es r).1.changed ≡ r.changed || not (is_single es)
      go [] f d = ground arith
      go (x ∷ []) f d = rw (changed-process_from c t server (x ∷ []) [] r d) (ground arith)
      go (x ∷ y ∷ es) f d =
          rw (changed-process_from c t server (x ∷ []) (y ∷ es) r d) (ground arith)

  process_from_dry :
      (done es : List Entry) (r : Run)
      → t.check_mode ≡ true
      → (process_from c t server done es r).0 ≡ ok tt
  unfolding process_from post_entry
  process_from_dry done [] r dry = refl
  process_from_dry done (e ∷ es) r dry = rw dry (process_from_dry _ es _ dry)

  process_queue_dry : (r : Run) → t.check_mode ≡ true → (process_queue c t server r).0 ≡ ok tt
  unfolding process_queue
  process_queue_dry r dry = go r.requests
    where
      go : (es : List Entry) → (process_all c t server es r).0 ≡ ok tt
      go [] = refl
      go (e ∷ es) = process_from_dry (e ∷ []) es r dry

-- Where the first of two queues succeeds, so does the second, and both or none end with a change.
abbrev pub Alike : (fs gs : List (M Bool)) → Type 0
Alike fs gs =
    (r : Run)
    → (queue_requests fs r).0 ≡ ok tt
    → ((queue_requests gs r).0 ≡ ok tt)
      × (active (queue_requests gs r).1 ≡ active (queue_requests fs r).1)

pub Alike-[] : Alike [] []
unfolding queue_requests
Alike-[] r h = (refl, refl)

-- One more function in front of both.
pub Alike-cons :
    (f g : M Bool) (fs gs : List (M Bool)) → f ≡ g → Alike fs gs → Alike (f ∷ fs) (g ∷ gs)
unfolding queue_requests
Alike-cons f g fs gs e alike r h = rw (sym e) (elim (Result-cases (f r).0) [
  | inr (x, failed) ↦ err_or_ok (err x) refl (rw failed at h)
  | inl (true, stops) ↦ rw stops (refl, refl)
  | inl (false, goes_on) ↦ rw goes_on (alike (f r).1 (rw goes_on at h))
])

module _ (c : Client) (real dry : Task) (server : Server) (fs gs : List (M Bool))
    (same_find : find c real server ≡ find c dry server) (checks : dry.check_mode ≡ true)
    (alike : Alike fs gs) (quiet : AllQuiet real fs) (quiet' : AllQuiet dry gs) where
  ensure_predicted :
      (r : Run) (out : Bool × Option Payload)
      → (ensure c real server fs r).0 ≡ ok out
      → (p : Option Payload) × ((ensure c dry server gs r).0 ≡ ok (out.0, p))
  unfolding ensure report
  ensure_predicted r out h =
      let (u, h1, s1) = bind_ok (find c real server) _ r out h in
      let r1 : Run = (find c real server r).1 in
      let h' = rw s1 at h in
      let (u2, h2, s2) = bind_ok (queue_requests fs) _ r1 out h' in
      let r2 : Run = (queue_requests fs r1).1 in
      let h'' = rw s2 at h' in
      let (u3, h3, s3) = bind_ok (process_queue c real server) _ r2 out h'' in
      let h3' = rw s3 at h'' in
      let (q, hq, hp, hm) = find_ok c real server r h1 in
      let (h4, same) = alike r1 h2 in
      let r3 : Run = (queue_requests gs r1).1 in
      let h5 = process_queue_dry c dry server r3 checks in
      let marked =
        changed-process_queue c real server r2 q
          ((queue_requests-IsQuiet real fs quiet).first r1 q hq) h3 in
      let marked' =
        changed-process_queue c dry server r3 q
          ((queue_requests-IsQuiet dry gs quiet').first r1 q hq) h5 in
      let answer = last_response (process_queue c dry server r3).1.requests in
      let agree = marked' ∙ same ∙ sym marked ∙ ap mark_of h3' in
      (answer, rw (sym same_find) (rw h1 (rw h4 (rw h5 (ap (λ b. ok (b, answer)) agree)))))

  -- Where a run succeeds, the run in check mode that it is compared with reports the same.
  pub main_predicted :
      (password_reply : Reply) (out : Bool × Option Payload)
      → (main c real password_reply server fs start).0 ≡ ok out
      → (p : Option Payload) × ((main c dry password_reply server gs start).0 ≡ ok (out.0, p))
  unfolding main
  main_predicted password_reply out h =
      let (u, h1, s1) = bind_ok (login password_reply) _ start out h in
      let (p, predicted) = ensure_predicted (login password_reply start).1 out (rw s1 at h) in
      (p, rw h1 predicted)
