-- ===== src/Ipa/Classes/Caacl/Dry.antt =====
-- `add_remove_list_items` in check mode.
use freeipa_cloud_prov.Prelude.{
  String, ◌≡◌, refl, Bool, true, false, not, ◌||◌, List, [], ◌∷◌, arith,
}
use freeipa_cloud_prov.Prelude.Lists.{is_empty}
use freeipa_cloud_prov.Dict.{Dict}
use freeipa_cloud_prov.Result.{ok}
use freeipa_cloud_prov.Ipa.Values.{Atom}
use freeipa_cloud_prov.Ipa.Client.{Task}
use freeipa_cloud_prov.Ipa.Session.{Run}
use freeipa_cloud_prov.Ipa.Classes.Queueing.{mark, pick}
use freeipa_cloud_prov.Ipa.Classes.Caacl.{
  queue_items, queue_each, sort_values, as_is, member_methods, add_remove_list_items,
}

-- Whether the changes have a value for one of the methods.
abbrev pub has_changes : Dict (List Atom) → List (String × List String) → Bool
has_changes changes [] = false
has_changes changes ((method, attrs) ∷ methods) =
    not (is_empty (sort_values (pick (as_is attrs) changes))) || has_changes changes methods

queue_each-dry :
    (t : Task) (op : String) (changes : Dict (List Atom)) (methods : List (String × List String))
    (r : Run)
    → t.check_mode ≡ true
    → queue_each t op changes methods r
      ≡ (ok tt, record r { changed = has_changes changes methods || r.changed })
unfolding queue_each queue_items mark
queue_each-dry t op changes [] r dry = refl
queue_each-dry t op changes ((method, attrs) ∷ methods) r dry = ground (
  arith,
  queue_each-dry t op changes methods r dry,
  queue_each-dry t op changes methods (record r { changed = true }) dry,
)

-- In check mode no request for the members of an ACL is queued; the object is marked as changed
-- where there are members to add or to remove, and keeps an earlier mark.
pub add_remove_list_items_dry :
    (t : Task) (r : Run)
    → t.check_mode ≡ true
    → add_remove_list_items t r ≡ (
      ok false,
      record r {
        changed =
            has_changes r.diffs.list_del member_methods
            || (has_changes r.diffs.list_add member_methods || r.changed);
      },
    )
unfolding add_remove_list_items
add_remove_list_items_dry t r dry =
    let step1 = queue_each-dry t "add" r.diffs.list_add member_methods r dry in
    let r1 : Run = record r {
      changed = has_changes r.diffs.list_add member_methods || r.changed;
    } in
    let step2 = queue_each-dry t "remove" r.diffs.list_del member_methods r1 dry in
    ground (arith, step1, step2)
