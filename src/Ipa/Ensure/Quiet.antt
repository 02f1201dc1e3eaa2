-- ===== src/Ipa/Ensure/Quiet.antt =====
-- Change functions that post nothing, keep the find request first, and are honest: they mark a
-- change only where they queue a request.
use freeipa_cloud_prov.Prelude.{
  ◌≡◌, refl, Bool, true, false, not, some, List, [], ◌∷◌, ◌++◌, arith, if◌then◌else◌,
}
use freeipa_cloud_prov.Result.{Result, ok, err}
use freeipa_cloud_prov.Exec.{pure, gets, continue, ◌>>=◌, ◌>>◌, bind_ok}
use freeipa_cloud_prov.Ipa.Values.{Value, Failure}
use freeipa_cloud_prov.Ipa.Client.{Task}
use freeipa_cloud_prov.Ipa.Diff.{Changes}
use freeipa_cloud_prov.Ipa.Session.{Request, Entry, Run, M}
use freeipa_cloud_prov.Ipa.Hooks.{Client}
use freeipa_cloud_prov.Ipa.Ensure.{
  response_cleaned, exists, enqueue, queue_change, change_item, add_or_mod, queue_removal, rem,
  queue_requests, base_changes,
}
use freeipa_cloud_prov.Ipa.Ensure.Queue.{
  first?, first-append, posted-rem, first-rem, posted-add_or_mod, first-add_or_mod,
}
use freeipa_cloud_prov.Dict.{Dict}

-- A queue with a mark of a change has an entry besides that of `find`.
abbrev pub tracks : List Entry → Bool → Bool
tracks [] changed = false
tracks (_ ∷ []) changed = not changed
tracks (_ ∷ _ ∷ _) changed = true

abbrev pub tracked : Run → Bool
tracked r = tracks r.requests r.changed

pub tracks-append :
    (es : List Entry) (x : Entry) (before after : Bool)
    → tracks es before ≡ true
    → tracks (es ++ (x ∷ [])) after ≡ true
tracks-append [] x before after h = ground arith
tracks-append (e ∷ []) x before after h = refl
tracks-append (e ∷ e' ∷ es) x before after h = refl

-- A step that posts nothing, keeps the first request, and out of check mode tracks its changes.
pub record IsQuiet {A : Type 0} (t : Task) (m : M A) : Type 0 where
  pub at : (r : Run) → (m r).1.posted ≡ r.posted
  pub first :
      (r : Run) (q : Request) → first? r.requests ≡ some q → first? (m r).1.requests ≡ some q
  pub honest :
      (r : Run) (a : A)
      → t.check_mode ≡ false
      → (m r).0 ≡ ok a
      → tracked r ≡ true
      → tracked (m r).1 ≡ true

module _ {A : Type 0} (t : Task) where
  -- A step that leaves the run as it is.
  pub IsQuiet-same : (m : Run → Result Failure A) → IsQuiet t (λ r. (m r, r))
  IsQuiet-same m = record { at = λ r. refl; first = λ r q h. h; honest = λ r a real done h. h }

  pub IsQuiet-pure : (a : A) → IsQuiet t (pure a)
  IsQuiet-pure a = IsQuiet-same (λ r. ok a)

  pub IsQuiet-if :
      (b : Bool) {m n : M A} → IsQuiet t m → IsQuiet t n → IsQuiet t (if b then m else n)
  IsQuiet-if true p q = p
  IsQuiet-if false p q = q

pub enqueue-IsQuiet : (t : Task) (e : Entry) → IsQuiet t (enqueue e)
enqueue-IsQuiet t e = record {
  at = λ r. refl;
  first = λ r q h. first-append r.requests q e h;
  honest = λ r a real done h. tracks-append r.requests e r.changed r.changed h;
}

module _ {A B : Type 0} (t : Task) where
  posted-continue :
      (x : Result Failure A) (f : A → M B) (r : Run)
      → ((a : A) → IsQuiet t (f a))
      → (continue x f r).1.posted ≡ r.posted
  posted-continue (ok a) f r k = (k a).at r
  posted-continue (err e) f r k = refl

  first-continue :
      (x : Result Failure A) (f : A → M B) (r : Run) (q : Request)
      → ((a : A) → IsQuiet t (f a))
      → first? r.requests ≡ some q
      → first? (continue x f r).1.requests ≡ some q
  first-continue (ok a) f r q k h = (k a).first r q h
  first-continue (err e) f r q k h = h

  pub IsQuiet-bind :
      {m : M A} {f : A → M B} → IsQuiet t m → ((a : A) → IsQuiet t (f a)) → IsQuiet t (m >>= f)
  IsQuiet-bind {m} {f} quiet next = record {
    at = λ r. rw (posted-continue (m r).0 f (m r).1 next) (quiet.at r);
    first = λ r q h. first-continue (m r).0 f (m r).1 q next (quiet.first r q h);
    honest = λ r b real done h.
        let (a, ha, step) = bind_ok m f r b done in
        rw step ((next a).honest (m r).1 b real (rw step at done) (quiet.honest r a real ha h));
  }

-- Steps that read the changes first, and one step after another.
pub IsQuiet-diffs :
    {A : Type 0} (t : Task) {f : Changes → M A}
    → ((ch : Changes) → IsQuiet t (f ch))
    → IsQuiet t (gets (λ r. r.diffs) >>= f)
IsQuiet-diffs t next = IsQuiet-bind t (IsQuiet-same t (λ r. ok r.diffs)) next

pub IsQuiet-then :
    {A : Type 0} (t : Task) {m : M (Unit {0})} {n : M A}
    → IsQuiet t m
    → IsQuiet t n
    → IsQuiet t (m >> n)
IsQuiet-then t first next = IsQuiet-bind t first (λ _. next)

module _ (c : Client) (t : Task) (r : Run) where
  honest-queue_removal : tracked r ≡ true → tracked (queue_removal c t r).1 ≡ true
  unfolding queue_removal response_cleaned
  honest-queue_removal h = ground (arith, tracks-append r.requests)

  honest-rem : tracked r ≡ true → tracked (rem c t r).1 ≡ true
  unfolding rem response_cleaned
  honest-rem h = ground (arith, honest-queue_removal h)

  honest-queue_change :
      (item : Dict Value) → tracked r ≡ true → tracked (queue_change c t item r).1 ≡ true
  unfolding queue_change response_cleaned
  honest-queue_change item h = ground (arith, tracks-append r.requests)

  honest-add_or_mod : tracked r ≡ true → tracked (add_or_mod c t r).1 ≡ true
  unfolding add_or_mod exists
  honest-add_or_mod h = ground (arith, honest-queue_change (change_item c.spec r.diffs) h)

pub rem-IsQuiet : (c : Client) (t : Task) → IsQuiet t (rem c t)
rem-IsQuiet c t = record {
  at = posted-rem c t;
  first = λ r q. first-rem c t r;
  honest = λ r a real done. honest-rem c t r;
}

pub add_or_mod-IsQuiet : (c : Client) (t : Task) → IsQuiet t (add_or_mod c t)
add_or_mod-IsQuiet c t = record {
  at = posted-add_or_mod c t;
  first = λ r q. first-add_or_mod c t r;
  honest = λ r a real done. honest-add_or_mod c t r;
}

abbrev pub AllQuiet : Task → List (M Bool) → Type 0
AllQuiet t [] = Unit
AllQuiet t (f ∷ fs) = IsQuiet t f × AllQuiet t fs

pub base_changes-AllQuiet : (c : Client) (t : Task) → AllQuiet t (base_changes c t)
base_changes-AllQuiet c t = (rem-IsQuiet c t, (add_or_mod-IsQuiet c t, tt))

-- So is the queue of quiet functions.
pub queue_requests-IsQuiet :
    (t : Task) (fs : List (M Bool)) → AllQuiet t fs → IsQuiet t (queue_requests fs)
unfolding queue_requests
queue_requests-IsQuiet t [] quiet = IsQuiet-same t _
queue_requests-IsQuiet t (f ∷ fs) (quiet, rest) =
    IsQuiet-bind t quiet
      (λ stop. IsQuiet-if t stop (IsQuiet-same t _) (queue_requests-IsQuiet t fs rest))

pub ruleset quiet = (IsQuiet-diffs, IsQuiet-then, IsQuiet-pure)
