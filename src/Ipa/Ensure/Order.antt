-- ===== src/Ipa/Ensure/Order.antt =====
-- Whole runs of `main` of lib/python/ipa.py: what is posted, in which order, and when.
use freeipa_cloud_prov.Prelude.{
  ◌≡◌, refl, ap, ◌∙◌, ◌⊎◌, inl, inr, Bool, true, false, Option, List, [], ◌∷◌, ◌++◌, arith,
}
use freeipa_cloud_prov.Result.{ok, Result-cases}
use freeipa_cloud_prov.Exec.{gets, ◌>>◌, bind_ok}
use freeipa_cloud_prov.Ipa.Client.{method_name, find as find_key, Task}
use freeipa_cloud_prov.Ipa.Session.{Request, Server, Reply, Run, M, Payload, login, start}
use freeipa_cloud_prov.Ipa.Hooks.{Client}
use freeipa_cloud_prov.Ipa.Ensure.{find, queue_requests, process_queue, ensure, main, report}
use freeipa_cloud_prov.Ipa.Ensure.Quiet.{queue_requests-IsQuiet, AllQuiet}
use freeipa_cloud_prov.Ipa.Ensure.Posts.{
  requests_of, posted-find, posted-bind, find_ok, posted-process_queue, process_queue_ok,
}

pub posted-login : (reply : Reply) → (login reply start).1.posted ≡ []
unfolding login
posted-login reply = ground arith

module _ (c : Client) (t : Task) (server : Server) (fs : List (M Bool))
    (quiet : AllQuiet t fs) where
  ensure_posts :
      (r : Run) (out : Bool × Option Payload)
      → r.posted ≡ []
      → t.check_mode ≡ false
      → (ensure c t server fs r).0 ≡ ok out
      → let r' = (ensure c t server fs r).1 in r'.posted ≡ requests_of r'.requests
  unfolding ensure
  ensure_posts r out fresh real h =
      let (u, h1, s1) = bind_ok (find c t server) _ r out h in
      let r1 : Run = (find c t server r).1 in
      let h' = rw s1 at h in
      let (u2, h2, s2) = bind_ok (queue_requests fs) _ r1 out h' in
      let r2 : Run = (queue_requests fs r1).1 in
      let h'' = rw s2 at h' in
      let (u3, h3, s3) = bind_ok (process_queue c t server) _ r2 out h'' in
      let (q, hq, hp, hm) = find_ok c t server r h1 in
      rw (s1, s2, s3)
        (process_queue_ok c t server real q r2 ((queue_requests-IsQuiet t fs quiet).first r1 q hq)
          ((queue_requests-IsQuiet t fs quiet).at r1 ∙ hp ∙ ap (λ ps. ps ++ (q ∷ [])) fresh) h3)

  -- A run out of check mode that succeeds has posted each queued request once, in the order of the
  -- queue, the find request first. The change functions post nothing themselves.
  pub main_posts_in_order :
      (password_reply : Reply) (out : Bool × Option Payload)
      → t.check_mode ≡ false
      → (main c t password_reply server fs start).0 ≡ ok out
      → let r = (main c t password_reply server fs start).1 in r.posted ≡ requests_of r.requests
  unfolding main login
  main_posts_in_order password_reply out real h =
      let (u, h1, s1) = bind_ok (login password_reply) _ start out h in
      rw s1 (
        ensure_posts (login password_reply start).1 out (posted-login password_reply) real
          (rw s1 at h))

module _ (c : Client) (t : Task) (server : Server) (fs : List (M Bool))
    (quiet : AllQuiet t fs) where
  abbrev after_find : M (Bool × Option Payload)
  after_find = do queue_requests fs; process_queue c t server; gets report

  posted-after_find : (r : Run) → t.check_mode ≡ true → (after_find r).1.posted ≡ r.posted
  posted-after_find r dry =
      posted-bind (queue_requests fs) _ r (λ _ r'.
        posted-bind (process_queue c t server) _ r' (λ _ r''. refl)
        ∙ posted-process_queue c t server r' dry)
      ∙ (queue_requests-IsQuiet t fs quiet).at r

  posted-ensure_dry :
      (r : Run)
      → t.check_mode ≡ true
      → (ensure c t server fs r).1.posted ≡ (find c t server r).1.posted
  unfolding ensure
  posted-ensure_dry r dry =
      posted-bind (find c t server) (λ _. after_find) r (λ _ r'. posted-after_find r' dry)

  -- In check mode at most one request is posted, and it is a find request, whether the run succeeds
  -- or not. The change functions post nothing themselves.
  pub posted-main_dry :
      (password_reply : Reply)
      → t.check_mode ≡ true
      → let r = (main c t password_reply server fs start).1 in
        (r.posted ≡ [])
        ⊎ ((q : Request) × (r.posted ≡ q ∷ []) × (q.method ≡ method_name c.spec find_key))
  unfolding main
  posted-main_dry password_reply dry = elim (Result-cases (login password_reply start).0) [
    | inr (e, h) ↦ inl (rw h (posted-login password_reply))
    | inl (u, h) ↦
        let r0 : Run = (login password_reply start).1 in
        elim (posted-find c t server r0) [
          | inl none_posted ↦
              inl (rw h (posted-ensure_dry r0 dry ∙ none_posted ∙ posted-login password_reply))
          | inr (q, one_posted, m) ↦ inr (
            q,
            rw h (
                posted-ensure_dry r0 dry
                ∙ one_posted
                ∙ ap (λ ps. ps ++ (q ∷ [])) (posted-login password_reply)),
            m,
          )
        ]
  ]
