-- ===== src/Ipa/Ensure/Posts.antt =====
-- Which requests go to the server, and in which order.
use mathlib.Core.List.{append-nil, append_assoc, map-append}
use freeipa_cloud_prov.Prelude.{
  ◌≡◌, refl, sym, ap, ◌∙◌, Bool, true, false, Option, some, List, [], ◌∷◌, ◌++◌, map, arith,
  string_eq, inl, inr, ◌⊎◌,
}
use freeipa_cloud_prov.Result.{Result, ok, err, Result-cases}
use freeipa_cloud_prov.Exec.{continue, ◌>>=◌, bind_ok}
use freeipa_cloud_prov.Ipa.Values.{Failure}
use freeipa_cloud_prov.Ipa.Client.{ClassSpec, method_name, find as find_key, Task}
use freeipa_cloud_prov.Ipa.Session.{Request, Server, Filter, Entry, Run, M, post_json, Payload}
use freeipa_cloud_prov.Ipa.Hooks.{Client}
use freeipa_cloud_prov.Ipa.Ensure.{
  find, find_request, find_response, process_all, post_entry, process_from, process_queue,
}
use freeipa_cloud_prov.Ipa.Ensure.Queue.{first?}

module _ (c : ClassSpec) (filter : Filter) (server : Server) (q : Request) (r : Run) where
  pub posted-post_json : (post_json c filter server q r).1.posted ≡ r.posted ++ (q ∷ [])
  unfolding post_json
  posted-post_json = ground arith

  pub requests-post_json : (post_json c filter server q r).1.requests ≡ r.requests
  unfolding post_json
  requests-post_json = ground arith

  pub changed-post_json : (post_json c filter server q r).1.changed ≡ r.changed
  unfolding post_json
  changed-post_json = ground arith

abbrev pub is_single : List Entry → Bool
is_single [] = false
is_single (_ ∷ []) = true
is_single (_ ∷ _ ∷ _) = false

-- `find` posts nothing, or its one request.
abbrev pub FindPosted : Client → Run → Run → Type 0
FindPosted c r r' =
    (r'.posted ≡ r.posted)
    ⊎ ((q : Request) × (r'.posted ≡ r.posted ++ (q ∷ []))
        × (q.method ≡ method_name c.spec find_key))

module _ (c : Client) (t : Task) where
  posted-find_request : (r : Run) → (find_request c t r).1.posted ≡ r.posted
  unfolding find_request
  posted-find_request r = ground arith

  method-find_request :
      (r : Run) (q : Request)
      → (find_request c t r).0 ≡ ok q
      → q.method ≡ method_name c.spec find_key
  unfolding find_request
  method-find_request r q h = ground arith

  first-find_response :
      (q : Request) (response : Option Payload) (r : Run)
      → first? (find_response c t q response r).1.requests ≡ some q
  unfolding find_response
  first-find_response q response r = ground arith

  single-find_response :
      (q : Request) (response : Option Payload) (r : Run)
      → is_single (find_response c t q response r).1.requests ≡ true
  unfolding find_response
  single-find_response q response r = ground arith

  changed-find_request : (r : Run) → (find_request c t r).1.changed ≡ r.changed
  unfolding find_request
  changed-find_request r = ground arith

  changed-find_response :
      (q : Request) (response : Option Payload) (r : Run)
      → (find_response c t q response r).1.changed ≡ r.changed
  unfolding find_response
  changed-find_response q response r = ground arith

  posted-find_response :
      (q : Request) (response : Option Payload) (r : Run)
      → (find_response c t q response r).1.posted ≡ r.posted
  unfolding find_response
  posted-find_response q response r = ground arith

-- A step that posts nothing leaves what the step before it posted.
pub posted-bind :
    {A B : Type 0} (m : M A) (f : A → M B) (r : Run)
    → ((a : A) (r' : Run) → (f a r').1.posted ≡ r'.posted)
    → ((m >>= f) r).1.posted ≡ (m r).1.posted
posted-bind {A} {B} m f r h = go (m r).0 (m r).1
  where
    go : (x : Result Failure A) (r' : Run) → (continue x f r').1.posted ≡ r'.posted
    go (ok a) r' = h a r'
    go (err e) r' = refl

module _ (c : Client) (t : Task) (server : Server) where
  posted-after_find :
      (r : Run) (q : Request)
      → ((post_json c.spec (c.find_filter t) server q >>= find_response c t q)
          (find_request c t r).1).1.posted
        ≡ r.posted ++ (q ∷ [])
  posted-after_find r q =
      posted-bind (post_json c.spec (c.find_filter t) server q) (find_response c t q) _
        (posted-find_response c t q)
      ∙ posted-post_json c.spec (c.find_filter t) server q (find_request c t r).1
      ∙ ap (λ ps. ps ++ (q ∷ [])) (posted-find_request c t r)

  pub posted-find : (r : Run) → FindPosted c r (find c t server r).1
  unfolding find
  posted-find r = elim (Result-cases (find_request c t r).0) [
    | inr (e, h) ↦ inl (rw h (posted-find_request c t r))
    | inl (q, h) ↦ inr (q, rw h (posted-after_find r q), method-find_request c t r q h)
  ]

  -- After a `find` that does not fail its request is posted, and the first of the queue.
  pub find_ok :
      (r : Run)
      → (find c t server r).0 ≡ ok tt
      → let r' = (find c t server r).1 in
        (q : Request) × (first? r'.requests ≡ some q)
        × (r'.posted ≡ r.posted ++ (q ∷ []))
        × (q.method ≡ method_name c.spec find_key)
  unfolding find
  find_ok r h =
      let (q, hq, step) = bind_ok (find_request c t) _ r tt h in
      let (response, hr, step') =
        bind_ok (post_json c.spec (c.find_filter t) server q) (find_response c t q) _ tt
          (rw step at h) in
      (
        q,
        rw (step, step') (first-find_response c t q response _),
        rw step (posted-after_find r q),
        method-find_request c t r q hq,
      )

  -- It leaves one entry, and the mark of a change as it was.
  pub find_single :
      (r : Run)
      → (find c t server r).0 ≡ ok tt
      → let r' = (find c t server r).1 in (is_single r'.requests ≡ true) × (r'.changed ≡ r.changed)
  unfolding find
  find_single r h =
      let (q, hq, step) = bind_ok (find_request c t) _ r tt h in
      let (response, hr, step') =
        bind_ok (post_json c.spec (c.find_filter t) server q) (find_response c t q) _ tt
          (rw step at h) in
      (
        rw (step, step') (single-find_response c t q response _),
        rw (step, step') (changed-find_response c t q response _)
            ∙ changed-post_json c.spec (c.find_filter t) server q (find_request c t r).1
            ∙ changed-find_request c t r,
      )

  -- In check mode the queue is processed without a post.
  posted-process_from :
      (done es : List Entry) (r : Run)
      → t.check_mode ≡ true
      → (process_from c t server done es r).1.posted ≡ r.posted
  unfolding process_from post_entry
  posted-process_from done [] r h = refl
  posted-process_from done (e ∷ es) r h = rw h (posted-process_from _ es _ h)

  pub posted-process_queue :
      (r : Run) → t.check_mode ≡ true → (process_queue c t server r).1.posted ≡ r.posted
  unfolding process_queue
  posted-process_queue r h = go r.requests
    where
      go : (es : List Entry) → (process_all c t server es r).1.posted ≡ r.posted
      go [] = refl
      go (e ∷ es) = posted-process_from (e ∷ []) es r h

abbrev pub requests_of : List Entry → List Request
requests_of = map (λ e. e.request)

module _ (c : Client) (t : Task) (server : Server) (real : t.check_mode ≡ false) where
  -- What a run over the queue that does not fail leaves: every request was posted, in order.
  abbrev pub Processed : List Entry → List Entry → Run → Run → Type 0
  Processed done es r r' =
      (r'.posted ≡ r.posted ++ requests_of es)
      × (requests_of r'.requests ≡ requests_of (done ++ es))

  posted-post_entry :
      (q : Request) (r : Run) → (post_entry c t server q r).1.posted ≡ r.posted ++ (q ∷ [])
  unfolding post_entry
  posted-post_entry q r = ground (arith, posted-post_json c.spec (c.find_filter t) server q r)

  pub process_from_ok :
      (done es : List Entry) (r : Run)
      → requests_of r.requests ≡ requests_of (done ++ es)
      → (process_from c t server done es r).0 ≡ ok tt
      → Processed done es r (process_from c t server done es r).1
  unfolding process_from
  process_from_ok done [] r e h = (sym (append-nil _), e)
  process_from_ok done (x ∷ es) r e h =
      let (response, posted, step) = bind_ok (post_entry c t server x.request) _ r tt h in
      let x' : Entry = record x { response = response } in
      let r1 : Run = record (post_entry c t server x.request r).1 {
        requests = done ++ (x' ∷ es);
        changed = true;
      } in
      let (ps, qs) = process_from_ok (done ++ (x' ∷ [])) es r1 (simp append_assoc) (rw step at h) in
      rw step (
        ps
            ∙ ap (λ z. z ++ requests_of es) (posted-post_entry x.request r)
            ∙ append_assoc r.posted (x.request ∷ []) (requests_of es),
        qs ∙ simp (map-append, append_assoc),
      )

  pub process_queue_ok :
      (q : Request) (r : Run)
      → first? r.requests ≡ some q
      → r.posted ≡ q ∷ []
      → (process_queue c t server r).0 ≡ ok tt
      → let r' = (process_queue c t server r).1 in r'.posted ≡ requests_of r'.requests
  unfolding process_queue
  process_queue_ok q r h p done = go r.requests refl h done
    where
      go :
          (es : List Entry)
          → r.requests ≡ es
          → first? es ≡ some q
          → (process_all c t server es r).0 ≡ ok tt
          → (process_all c t server es r).1.posted
            ≡ requests_of (process_all c t server es r).1.requests
      go [] same f d = ground arith
      go (x ∷ es) same f d =
          let (ps, qs) = process_from_ok (x ∷ []) es r (ap requests_of same) d in
          ground (arith, ps, qs)
