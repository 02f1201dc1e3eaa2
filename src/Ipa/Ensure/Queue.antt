-- ===== src/Ipa/Ensure/Queue.antt =====
-- What `rem` and `add_or_mod` queue, on each of their branches.
use freeipa_cloud_prov.Prelude.{◌≡◌, Option, none, some, List, [], ◌∷◌, ◌++◌, arith, string_eq}
use freeipa_cloud_prov.Dict.{Dict}
use freeipa_cloud_prov.Ipa.Values.{Value}
use freeipa_cloud_prov.Ipa.Client.{Task}
use freeipa_cloud_prov.Ipa.Session.{Request, Entry, Run}
use freeipa_cloud_prov.Ipa.Hooks.{Client}
use freeipa_cloud_prov.Ipa.Ensure.{
  response_cleaned, exists, queue_change, change_item, add_or_mod, queue_removal, rem,
}

-- The request of the first entry.
abbrev pub first? : List Entry → Option Request
first? [] = none
first? (e ∷ _) = some e.request

pub first-append :
    (es : List Entry) (q : Request) (x : Entry)
    → first? es ≡ some q
    → first? (es ++ (x ∷ [])) ≡ some q
first-append [] q x h = ground arith
first-append (e ∷ es) q x h = h

pub first-append_all :
    (es fs : List Entry) (q : Request) → first? es ≡ some q → first? (es ++ fs) ≡ some q
first-append_all [] fs q h = cc
first-append_all (e ∷ es) fs q h = h

module _ (c : Client) (t : Task) (r : Run) where
  posted-queue_removal : (queue_removal c t r).1.posted ≡ r.posted
  unfolding queue_removal response_cleaned
  posted-queue_removal = ground arith

  pub posted-rem : (rem c t r).1.posted ≡ r.posted
  unfolding rem response_cleaned
  posted-rem = ground (arith, posted-queue_removal)

  posted-queue_change : (item : Dict Value) → (queue_change c t item r).1.posted ≡ r.posted
  unfolding queue_change response_cleaned
  posted-queue_change item = ground arith

  pub posted-add_or_mod : (add_or_mod c t r).1.posted ≡ r.posted
  unfolding add_or_mod exists
  posted-add_or_mod = ground (arith, posted-queue_change (change_item c.spec r.diffs))

  first-queue_removal :
      {q : Request} → first? r.requests ≡ some q → first? (queue_removal c t r).1.requests ≡ some q
  unfolding queue_removal response_cleaned
  first-queue_removal h = ground (arith, first-append r.requests)

  pub first-rem :
      {q : Request} → first? r.requests ≡ some q → first? (rem c t r).1.requests ≡ some q
  unfolding rem response_cleaned
  first-rem h = ground (arith, first-queue_removal h)

  first-queue_change :
      {q : Request} (item : Dict Value)
      → first? r.requests ≡ some q
      → first? (queue_change c t item r).1.requests ≡ some q
  unfolding queue_change response_cleaned
  first-queue_change item h = ground (arith, first-append r.requests)

  pub first-add_or_mod :
      {q : Request} → first? r.requests ≡ some q → first? (add_or_mod c t r).1.requests ≡ some q
  unfolding add_or_mod exists
  first-add_or_mod h = ground (arith, first-queue_change (change_item c.spec r.diffs) h)
