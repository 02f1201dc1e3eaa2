-- ===== src/Ipa/Ensure/Item.antt =====
-- Which keys the item of an `add_or_mod` request has.
use freeipa_cloud_prov.Prelude.{
  String, ◌≡◌, refl, true, ◌||◌, Option, none, some, List, [], ◌∷◌, arith, contains, ◌==◌,
  string_eq,
}
use freeipa_cloud_prov.Dict.{Dict, get, has, set, erase, get-set, get-erase}
use freeipa_cloud_prov.Ipa.Values.{Atom, Value, table, list, atom}
use freeipa_cloud_prov.Ipa.Client.{ClassSpec, base_keys}
use freeipa_cloud_prov.Ipa.Diff.{Changes}
use freeipa_cloud_prov.Ipa.Hooks.{true_value}
use freeipa_cloud_prov.Ipa.Ensure.{
  with_keys, put_table, put_all, change_item, attr_list, rewritten, rewrite_attr,
  mod_rewrite_list_changes,
}

has-with_keys {ℓ} :
    {V : Type ℓ} (ks : List String) (d : Dict V) (k : String)
    → has k (with_keys ks d) ≡ true
    → contains ks k ≡ true
has-with_keys ks [] k h = cc
has-with_keys ks ((j, v) ∷ d) k h = ground (arith, has-with_keys ks d k)

has-put_all : (d item : Dict Value) (k : String) → has k (put_all d item) ≡ (has k d || has k item)
has-put_all [] item k = refl
has-put_all ((j, v) ∷ d) item k = ground (arith, has-put_all d (set j v item) k, get-set k j v item)

has-put_table :
    (name : String) (t : Dict (List Atom)) (item : Dict Value) (k : String)
    → has k (put_table name t item) ≡ true
    → (k == name || has k item) ≡ true
has-put_table name [] item k h = ground arith
has-put_table name (e ∷ t) item k h = ground (arith, get-set k name (table (e ∷ t)) item)

has-set : (k j : String) (v : Value) (d : Dict Value) → has k (set j v d) ≡ (k == j || has k d)
has-set k j v d = ground (arith, get-set k j v d)

has-rewritten :
    (name : String) (o : Option Value) (item : Dict Value) (k : String)
    → has k (rewritten name o item) ≡ true
    → (k == name || has k item) ≡ true
unfolding rewritten
has-rewritten name none item k h = ground arith
has-rewritten name (some (table t)) item k h =
    ground (arith, has-set k name (attr_list t) (erase name item), get-erase k name item)
has-rewritten name (some (list xs)) item k h = ground arith
has-rewritten name (some (atom a)) item k h = ground arith

-- The item of a request that adds or modifies an object has no key but the base keys of the class,
-- the two keys for list values, and `all`.
pub item_keys :
    (c : ClassSpec) (diffs : Changes) (k : String)
    → has k (mod_rewrite_list_changes (set "all" true_value (change_item c diffs))) ≡ true
    → contains ("all" ∷ "addattr" ∷ "delattr" ∷ base_keys c) k ≡ true
unfolding mod_rewrite_list_changes change_item rewrite_attr
item_keys c diffs k h =
    let ks = base_keys c in
    let added : Dict Value = put_table "addattr" (with_keys ks diffs.list_add) [] in
    let removed : Dict Value = put_table "delattr" (with_keys ks diffs.list_del) added in
    let changed : Dict Value = put_all (with_keys ks diffs.scalars) removed in
    let whole : Dict Value = set "all" true_value changed in
    let first : Dict Value = rewritten "addattr" (get "addattr" whole) whole in
    let second : Dict Value = rewritten "delattr" (get "delattr" first) first in
    ground (
      arith,
      has-set k "all" true_value second,
      has-rewritten "delattr" (get "delattr" first) first k,
      has-rewritten "addattr" (get "addattr" whole) whole k,
      has-set k "all" true_value changed,
      has-put_all (with_keys ks diffs.scalars) removed k,
      has-with_keys ks diffs.scalars k,
      has-put_table "delattr" (with_keys ks diffs.list_del) added k,
      has-put_table "addattr" (with_keys ks diffs.list_add) [] k,
    )
