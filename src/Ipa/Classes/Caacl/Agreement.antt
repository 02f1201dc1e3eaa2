-- ===== src/Ipa/Classes/Caacl/Agreement.antt =====
-- `add_remove_list_items` out of check mode, against check mode.
use freeipa_cloud_prov.Prelude.{
  String, ◌≡◌, refl, sym, ap, ◌∙◌, Bool, true, false, not, ◌||◌, List, [], ◌∷◌, arith,
}
use freeipa_cloud_prov.Prelude.Lists.{is_empty}
use freeipa_cloud_prov.Dict.{Dict}
use freeipa_cloud_prov.Result.{ok}
use freeipa_cloud_prov.Exec.{bind_ok}
use freeipa_cloud_prov.Ipa.Values.{Atom, Value}
use freeipa_cloud_prov.Ipa.Client.{Task}
use freeipa_cloud_prov.Ipa.Session.{Run, M}
use freeipa_cloud_prov.Ipa.Ensure.{queue_requests}
use freeipa_cloud_prov.Ipa.Ensure.Prediction.{active, Alike}
use freeipa_cloud_prov.Ipa.Classes.Queueing.{mark, pick, queue_method}
use freeipa_cloud_prov.Ipa.Classes.Caacl.{
  queue_items, queue_each, sort_values, as_is, member_methods, add_remove_list_items,
}
use freeipa_cloud_prov.Ipa.Classes.Caacl.Dry.{has_changes, add_remove_list_items_dry}

-- A step that marks a change where the test holds, and else queues nothing.
abbrev Marks : Bool → Run → Run → Type 0
Marks b r r' = (r'.changed ≡ b || r.changed) × (b ≡ false → r'.requests ≡ r.requests)

Marks-then : (b c : Bool) (r r' r'' : Run) → Marks b r r' → Marks c r' r'' → Marks (b || c) r r''
Marks-then true true r r' r'' (m, k) (n, l) = (ground (arith, m, n), λ h. ground arith)
Marks-then true false r r' r'' (m, k) (n, l) = (ground (arith, m, n), λ h. ground arith)
Marks-then false true r r' r'' (m, k) (n, l) = (ground (arith, m, n), λ h. ground arith)
Marks-then false false r r' r'' (m, k) (n, l) = (ground (arith, m, n), λ h. l refl ∙ k refl)

active-Marks :
    (b : Bool) (r r' : Run)
    → Marks b r r'
    → active (record r { changed = b || r.changed }) ≡ active r'
active-Marks true r r' (m, k) = ground (arith, m)
active-Marks false r r' (m, k) = ground (arith, m, k refl)

module _ (t : Task) (real : t.check_mode ≡ false) where
  queue_items-Marks :
      (op method : String) (item : Dict Value) (r : Run)
      → Marks (not (is_empty item)) r (queue_items t op method item r).1
  unfolding queue_items queue_method mark
  queue_items-Marks op method [] r = (refl, λ h. refl)
  queue_items-Marks op method (e ∷ item) r = (ground arith, λ h. ground arith)

  queue_each-Marks :
      (op : String) (changes : Dict (List Atom)) (methods : List (String × List String)) (r : Run)
      → (queue_each t op changes methods r).0 ≡ ok tt
      → Marks (has_changes changes methods) r (queue_each t op changes methods r).1
  unfolding queue_each
  queue_each-Marks op changes [] r h = (refl, λ e. refl)
  queue_each-Marks op changes ((method, attrs) ∷ methods) r h =
      let item = sort_values (pick (as_is attrs) changes) in
      let (u, h1, s1) = bind_ok (queue_items t op method item) _ r tt h in
      let r1 : Run = (queue_items t op method item r).1 in
      let rest = queue_each-Marks op changes methods r1 (rw s1 at h) in
      rw s1 (
        Marks-then _ _ r r1 (queue_each t op changes methods r1).1
          (queue_items-Marks op method item r) rest)

  add_remove_list_items-Marks :
      (r : Run) (b : Bool)
      → (add_remove_list_items t r).0 ≡ ok b
      → (b ≡ false)
        × Marks
            (has_changes r.diffs.list_add member_methods
              || has_changes r.diffs.list_del member_methods)
            r
            (add_remove_list_items t r).1
  unfolding add_remove_list_items
  add_remove_list_items-Marks r b h =
      let (u, h1, s1) = bind_ok (queue_each t "add" r.diffs.list_add member_methods) _ r b h in
      let r1 : Run = (queue_each t "add" r.diffs.list_add member_methods r).1 in
      let h' = rw s1 at h in
      let (u2, h2, s2) =
        bind_ok (queue_each t "remove" r.diffs.list_del member_methods) _ r1 b h' in
      let first = queue_each-Marks "add" r.diffs.list_add member_methods r h1 in
      let second = queue_each-Marks "remove" r.diffs.list_del member_methods r1 h2 in
      let h'' = rw s2 at h' in
      let r2 : Run = (queue_each t "remove" r.diffs.list_del member_methods r1).1 in
      rw (s1, s2) (ground (arith, h''), Marks-then _ _ r r1 r2 first second)

or_swap : (a b c : Bool) → (b || (a || c)) ≡ ((a || b) || c)
or_swap a b c = ground arith

-- A queue of one function.
queue_one :
    (f : M Bool) (r : Run) (b : Bool)
    → (f r).0 ≡ ok b
    → queue_requests (f ∷ []) r ≡ (ok tt, (f r).1)
unfolding queue_requests
queue_one f r true h = rw h
queue_one f r false h = rw h

module _ (t t' : Task) (real : t.check_mode ≡ false) (dry : t'.check_mode ≡ true) where
  predicted_mark :
      (r : Run) (b : Bool)
      → (add_remove_list_items t r).0 ≡ ok b
      → active (add_remove_list_items t' r).1 ≡ active (add_remove_list_items t r).1
  predicted_mark r b h =
      let added : Bool = has_changes r.diffs.list_add member_methods in
      let removed : Bool = has_changes r.diffs.list_del member_methods in
      let (goes_on, marks) = add_remove_list_items-Marks t real r b h in
      ap (λ x. active x.1) (add_remove_list_items_dry t' r dry)
      ∙ ap (λ c. active (record r { changed = c })) (or_swap added removed r.changed)
      ∙ active-Marks (added || removed) r (add_remove_list_items t r).1 marks

  pub add_remove_list_items-Alike :
      Alike (add_remove_list_items t ∷ []) (add_remove_list_items t' ∷ [])
  unfolding queue_requests
  add_remove_list_items-Alike r h =
      let (b, h1, s1) = bind_ok (add_remove_list_items t) _ r tt h in
      let there = queue_one (add_remove_list_items t) r b h1 in
      let predicted =
        queue_one (add_remove_list_items t') r false
          (ap (λ x. x.0) (add_remove_list_items_dry t' r dry)) in
      (
        ap (λ x. x.0) predicted,
        ap (λ x. active x.1) predicted ∙ predicted_mark r b h1 ∙ sym (ap (λ x. active x.1) there),
      )
