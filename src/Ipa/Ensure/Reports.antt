-- ===== src/Ipa/Ensure/Reports.antt =====
-- What `main` of lib/python/ipa.py reports, against what it posted.
use freeipa_cloud_prov.Prelude.{
  ◌≡◌, refl, sym, ap, ◌∙◌, Bool, true, false, Option, List, [], ◌∷◌, ◌++◌, arith, ltb,
  if◌then◌else◌,
}
use freeipa_cloud_prov.Prelude.Lists.{is_empty, length}
use freeipa_cloud_prov.Result.{Result, ok, err}
use freeipa_cloud_prov.Exec.{bind_ok}
use freeipa_cloud_prov.Ipa.Values.{Failure}
use freeipa_cloud_prov.Ipa.Client.{Task}
use freeipa_cloud_prov.Ipa.Session.{Request, Server, Reply, Entry, Run, M, Payload, login, start}
use freeipa_cloud_prov.Ipa.Hooks.{Client}
use freeipa_cloud_prov.Ipa.Ensure.{
  find, queue_requests, process_all, post_entry, process_from, process_queue, ensure, main, report,
}
use freeipa_cloud_prov.Ipa.Ensure.Quiet.{tracks, tracked, queue_requests-IsQuiet, AllQuiet}
use freeipa_cloud_prov.Ipa.Ensure.Posts.{
  requests_of, is_single, find_single, find_ok, process_from_ok,
}
use freeipa_cloud_prov.Ipa.Ensure.Order.{posted-login}

changed-login : (reply : Reply) → (login reply start).1.changed ≡ false
unfolding login
changed-login reply = ground arith

module _ (c : Client) (t : Task) (server : Server) where
  -- A queue that is not empty marks the run as changed.
  pub changed-process_from :
      (done es : List Entry) (r : Run)
      → (process_from c t server done es r).0 ≡ ok tt
      → (process_from c t server done es r).1.changed ≡ (if is_empty es then r.changed else true)
  unfolding process_from
  changed-process_from done [] r h = refl
  changed-process_from done (x ∷ es) r h =
      let (response, posted, step) = bind_ok (post_entry c t server x.request) _ r tt h in
      let x' : Entry = record x { response = response } in
      let r1 : Run = record (post_entry c t server x.request r).1 {
        requests = done ++ (x' ∷ es);
        changed = true;
      } in
      let rest = changed-process_from (done ++ (x' ∷ [])) es r1 (rw step at h) in
      rw step (ground (arith, rest))

  -- After a `find` whose change is tracked, the mark says whether more than one request is posted.
  process_queue-reports :
      (q : Request) (r : Run)
      → t.check_mode ≡ false
      → r.posted ≡ q ∷ []
      → tracked r ≡ true
      → (process_queue c t server r).0 ≡ ok tt
      → let r' = (process_queue c t server r).1 in r'.changed ≡ ltb 1 (length r'.posted)
  unfolding process_queue
  process_queue-reports q r real p h done = go r.requests refl h done
    where
      go :
          (es : List Entry)
          → r.requests ≡ es
          → tracks es r.changed ≡ true
          → (process_all c t server es r).0 ≡ ok tt
          → (process_all c t server es r).1.changed
            ≡ ltb 1 (length (process_all c t server es r).1.posted)
      go [] same f d = ground arith
      go (x ∷ es) same f d =
          let (ps, qs) = process_from_ok c t server real (x ∷ []) es r (ap requests_of same) d in
          let marked = changed-process_from (x ∷ []) es r d in rw (ps, marked, p) (last_step es f)
        where
          last_step :
              (es : List Entry)
              → tracks (x ∷ es) r.changed ≡ true
              → (if is_empty es then r.changed else true) ≡ ltb 1 (length (q ∷ requests_of es))
          last_step [] f = ground arith
          last_step (y ∷ es) f = ground arith

tracked-single : (r : Run) → is_single r.requests ≡ true → r.changed ≡ false → tracked r ≡ true
tracked-single r h e = go r.requests h
  where
    go : (es : List Entry) → is_single es ≡ true → tracks es r.changed ≡ true
    go [] f = ground arith
    go (x ∷ []) f = ground arith
    go (x ∷ y ∷ es) f = ground arith

-- The mark in a result
abbrev pub mark_of : Result Failure (Bool × Option Payload) → Bool
mark_of (ok o) = o.0
mark_of (err _) = false

module _ (c : Client) (t : Task) (server : Server) (fs : List (M Bool))
    (quiet : AllQuiet t fs) where
  ensure_reports :
      (r : Run) (out : Bool × Option Payload)
      → r.posted ≡ []
      → r.changed ≡ false
      → t.check_mode ≡ false
      → (ensure c t server fs r).0 ≡ ok out
      → out.0 ≡ ltb 1 (length (ensure c t server fs r).1.posted)
  unfolding ensure report
  ensure_reports r out fresh unmarked real h =
      let (u, h1, s1) = bind_ok (find c t server) _ r out h in
      let r1 : Run = (find c t server r).1 in
      let h' = rw s1 at h in
      let (u2, h2, s2) = bind_ok (queue_requests fs) _ r1 out h' in
      let r2 : Run = (queue_requests fs r1).1 in
      let h'' = rw s2 at h' in
      let (u3, h3, s3) = bind_ok (process_queue c t server) _ r2 out h'' in
      let h3' = rw s3 at h'' in
      let (q, hq, hp, hm) = find_ok c t server r h1 in
      let (single, same) = find_single c t server r h1 in
      let quiet_all = queue_requests-IsQuiet t fs quiet in
      let reported =
        process_queue-reports c t server q r2 real
          (quiet_all.at r1 ∙ hp ∙ ap (λ ps. ps ++ (q ∷ [])) fresh)
          (quiet_all.honest r1 u2 real h2 (tracked-single r1 single (same ∙ unmarked))) h3 in
      rw (s1, s2, s3) (sym (ap mark_of h3') ∙ reported)

  -- A run out of check mode that succeeds reports a change exactly where it has posted more than
  -- the find request.
  pub main_reports :
      (password_reply : Reply) (out : Bool × Option Payload)
      → t.check_mode ≡ false
      → (main c t password_reply server fs start).0 ≡ ok out
      → out.0 ≡ ltb 1 (length (main c t password_reply server fs start).1.posted)
  unfolding main login
  main_reports password_reply out real h =
      let (u, h1, s1) = bind_ok (login password_reply) _ start out h in
      rw s1 (
        ensure_reports (login password_reply start).1 out (posted-login password_reply)
          (changed-login password_reply) real (rw s1 at h))
