-- ===== src/Ipa/Ensure/Again.antt =====
-- A second run of `main` of lib/python/ipa.py, on an object that the first has brought to the
-- state that is asked for.
use freeipa_cloud_prov.Prelude.{
  ◌≡◌, ◌≢◌, sym, ap, ◌∙◌, Bool, true, false, Option, List, [], ◌∷◌, arith,
}
use freeipa_cloud_prov.Dict.{Dict}
use freeipa_cloud_prov.Result.{ok, ok_unique}
use freeipa_cloud_prov.Exec.{bind_ok}
use freeipa_cloud_prov.Ipa.Values.{Value}
use freeipa_cloud_prov.Ipa.Client.{absent, ClassSpec, base_keys, Task}
use freeipa_cloud_prov.Ipa.Clean.NoNull.{IsClean}
use freeipa_cloud_prov.Ipa.Diff.{Changes, compute_changes}
use freeipa_cloud_prov.Ipa.Diff.Again.{AppliedToObject, compute_changes-AsksNothing}
use freeipa_cloud_prov.Ipa.Session.{
  Request, Server, Filter, Entry, Run, M, Payload, post_json, start, Reply, login,
}
use freeipa_cloud_prov.Ipa.Hooks.{Client}
use freeipa_cloud_prov.Ipa.Ensure.{
  find_request, find_response, find, exists, add_or_mod, rem, last_response, main,
}
use freeipa_cloud_prov.Ipa.Ensure.Runs.{AllSettled, main_unchanged, no_standard}

-- The cleaned response to the find request.
abbrev cleaned_of : List Entry → Dict Value
cleaned_of [] = []
cleaned_of (e ∷ _) = e.response_cleaned

abbrev pub found : Run → Dict Value
found r = cleaned_of r.requests

canon-post_json :
    (c : ClassSpec) (filter : Filter) (server : Server) (q : Request) (r : Run)
    → (post_json c filter server q r).1.canon_params ≡ r.canon_params
unfolding post_json
canon-post_json c filter server q r = ground arith

module _ (c : Client) (t : Task) where
  canon-find_request :
      (r : Run) (q : Request)
      → (find_request c t r).0 ≡ ok q
      → c.munge_module_params t ≡ ok (find_request c t r).1.canon_params
  unfolding find_request
  canon-find_request r q h = ground arith

  canon-find_response :
      (q : Request) (response : Option Payload) (r : Run)
      → (find_response c t q response r).1.canon_params ≡ r.canon_params
  unfolding find_response
  canon-find_response q response r = ground arith

  diffs-find_response :
      (q : Request) (response : Option Payload) (r : Run)
      → (find_response c t q response r).0 ≡ ok tt
      → let r' = (find_response c t q response r).1 in
        c.compute_changes_ t r.canon_params (found r') ≡ ok r'.diffs
  unfolding find_response
  diffs-find_response q response r h = ground arith

  -- What a `find` that does not fail keeps: the cleaned parameters, and the changes that lead from
  -- the object found to them.
  find-computes :
      (server : Server) (r : Run)
      → (find c t server r).0 ≡ ok tt
      → let r' = (find c t server r).1 in
        (c.munge_module_params t ≡ ok r'.canon_params)
        × (c.compute_changes_ t r'.canon_params (found r') ≡ ok r'.diffs)
  unfolding find
  find-computes server r h =
      let (q, hq, step) = bind_ok (find_request c t) _ r tt h in
      let h' = rw step at h in
      let (response, hr, step') =
        bind_ok (post_json c.spec (c.find_filter t) server q) (find_response c t q) _ tt h' in
      let r1 : Run = (find_request c t r).1 in
      let r2 : Run = (post_json c.spec (c.find_filter t) server q r1).1 in
      let kept =
        canon-find_response q response r2 ∙ canon-post_json c.spec (c.find_filter t) server q r1 in
      rw (step, step')
        (
          canon-find_request r q hq ∙ ap ok (sym kept),
          ap (λ p. c.compute_changes_ t p (found (find_response c t q response r2).1))
                (canon-find_response q response r2)
              ∙ diffs-find_response q response r2 (rw step' at h'),
        )

-- A class whose cleaned parameters have no null, and that computes changes as the base class does
-- outside state `absent`.
pub record IsRegular (c : Client) (t : Task) : Type 0 where
  pub munged : (canon : Dict Value) → c.munge_module_params t ≡ ok canon → IsClean canon
  pub computed :
      (change curr : Dict Value) (ch : Changes)
      → t.state ≢ absent
      → c.compute_changes_ t change curr ≡ ok ch
      → compute_changes c.spec t.state change curr ≡ ok ch

module _ (c : Client) (t : Task) (regular : IsRegular c t) (fs : List (M Bool))
    (all : AllSettled fs) (own : no_standard (base_keys c.spec) ≡ true) where
  abbrev after_find : Server → Run
  after_find server = (find c t server start).1

  -- Where the changes of one run were applied to the object, a second changes nothing.
  pub main_again :
      (before after : Server) (password_reply : Reply)
      → t.state ≢ absent
      → (login password_reply start).0 ≡ ok tt
      → (find c t before start).0 ≡ ok tt
      → (find c t after start).0 ≡ ok tt
      → (exists c.spec (after_find after)).0 ≡ ok true
      → AppliedToObject c.spec
          (after_find before).diffs
          (found (after_find before))
          (found (after_find after))
      → main c t password_reply after (rem c t ∷ add_or_mod c t ∷ fs) start
        ≡ (ok (false, last_response (after_find after).requests), after_find after)
  main_again before after password_reply h logged_in ok1 ok2 there applied =
      let r1 : Run = after_find before in
      let r2 : Run = after_find after in
      let (canon1, first) = find-computes c t before start ok1 in
      let (canon2, second) = find-computes c t after start ok2 in
      let same : r2.canon_params ≡ r1.canon_params = ok_unique _ canon1 canon2 in
      let clean = regular.munged r1.canon_params canon1 in
      let nothing =
        compute_changes-AsksNothing c.spec t.state r1.canon_params (found r1) (found r2) r1.diffs
          r2.diffs (regular.computed _ _ r1.diffs h first)
          (regular.computed _ _ r2.diffs h (rw same at second)) applied clean.nodup h
          clean.no_null in
      main_unchanged c t after fs all own password_reply h logged_in ok2 nothing there
