-- ===== src/Ipa/Diff/Lists.antt =====
-- The list parameters: what `op` gives for each key, and what the changes lead to.
use freeipa_cloud_prov.Prelude.{
  String, ◌≡◌, refl, Bool, true, false, not, ◌&&◌, ◌||◌, none, some, List, [], ◌∷◌, ◌++◌, arith,
  contains, contains-append, string_eq, if◌then◌else◌,
}
use freeipa_cloud_prov.Prelude.Lists.{is_empty}
use freeipa_cloud_prov.Dict.{Dict, get, has, keys, contains-keys}
use freeipa_cloud_prov.Result.{Result, ok, err, >>=-eq-ok}
use freeipa_cloud_prov.Ipa.Values.{Atom, Value, Failure, member, difference, intersection}
use freeipa_cloud_prov.Ipa.Client.{ClassSpec, State, absent, exact, without_keys}
use freeipa_cloud_prov.Ipa.Values.Sets.{member-difference, member-intersection}
use freeipa_cloud_prov.Ipa.Diff.{
  scalars_of, is_list_param, list_slice, values_at, op_keys, op, Changes, list_add_of, list_del_of,
  compute_changes,
}

abbrev pub result_or_nil {ℓ} : {A : Type ℓ} → Result Failure (List A) → List A
result_or_nil (ok xs) = xs
result_or_nil (err _) = []

-- The set of values that an object has under a key; none where the key is missing.
abbrev pub values : String → Dict Value → List Atom
values k d = result_or_nil (values_at k d)

-- The values that a dict of changes has under a key.
abbrev pub listed : String → Dict (List Atom) → List Atom
listed k d = elim (get k d) [ none ↦ [] | some vs ↦ vs ]

abbrev pub is_absent : State → Bool
is_absent absent = true
is_absent _ = false

-- The values to remove, from those given and those there.
abbrev pub removals : State → List Atom → List Atom → List Atom
removals exact wanted there = difference there wanted
removals absent wanted there = intersection wanted there
removals _ wanted there = []

-- Whether the object has `v` under `k` after the changes, from whether it had it before.
abbrev pub after : Changes → String → Atom → Bool → Bool
after ch k v had = (had || member (listed k ch.list_add) v) && not (member (listed k ch.list_del) v)

-- Whether a value is to be there, from whether it was there and whether it is given.
abbrev pub target : State → Bool → Bool → Bool
target exact there given = given
target absent there given = there && not given
target _ there given = there || given

target_lem :
    (s : State) (wanted there : List Atom) (v : Atom)
    → ((member there v || member (if is_absent s then [] else difference wanted there) v)
        && not (member (removals s wanted there) v))
      ≡ target s (member there v) (member wanted v)
target_lem exact wanted there v =
    ground (arith, member-difference wanted there v, member-difference there wanted v)
target_lem absent wanted there v = ground (arith, member-intersection wanted there v)
target_lem _ wanted there v = ground (arith, member-difference wanted there v)

pub contains-without_keys :
    (drop ks : List String) (j : String)
    → contains (without_keys drop ks) j ≡ (contains ks j && not (contains drop j))
contains-without_keys drop [] j = refl
contains-without_keys drop (k ∷ ks) j = ground (arith, contains-without_keys drop ks j)

module _ (f : List Atom → List Atom → List Atom) (a b : Dict Value) where
  listed-op_keys :
      (ks : List String) (j : String) (res : Dict (List Atom))
      → op_keys f a b ks ≡ ok res
      → listed j res ≡ (if contains ks j then f (values j a) (values j b) else [])
  unfolding op_keys
  listed-op_keys [] j res h = ground arith
  listed-op_keys (k ∷ ks) j res h =
      let (xs, px, h1) = >>=-eq-ok (values_at k a) _ h in
      let (ys, py, h2) = >>=-eq-ok (values_at k b) _ h1 in
      let (rest, pr, h3) = >>=-eq-ok (op_keys f a b ks) _ h2 in
      ground (arith, listed-op_keys ks j rest pr)

  values_of_missing : (j : String) (d : Dict Value) → has j d ≡ false → values j d ≡ []
  unfolding values_at
  values_of_missing j d h = ground arith

  -- `op` gives each key the operation's result on the two sets under it.
  listed-op :
      (j : String) (res : Dict (List Atom))
      → f [] [] ≡ []
      → op f a b ≡ ok res
      → listed j res ≡ f (values j a) (values j b)
  unfolding op
  listed-op j res e h = ground (
    arith,
    listed-op_keys (keys a ++ without_keys (keys a) (keys b)) j res h,
    contains-append (keys a) (without_keys (keys a) (keys b)) j,
    contains-without_keys (keys a) (keys b) j,
    contains-keys j a,
    contains-keys j b,
    values_of_missing j a,
    values_of_missing j b,
  )

get-list_slice :
    (c : ClassSpec) (k : String) (d : Dict Value)
    → get k (list_slice c d) ≡ (if is_list_param c k then get k d else none)
unfolding list_slice
get-list_slice c k [] = ground arith
get-list_slice c k (_ ∷ d) = ground (arith, get-list_slice c k d)

pub values-list_slice :
    (c : ClassSpec) (k : String) (d : Dict Value)
    → is_list_param c k ≡ true
    → values k (list_slice c d) ≡ values k d
unfolding values_at
values-list_slice c k d h = ground (arith, get-list_slice c k d)

pub values-list_slice_ne :
    (c : ClassSpec) (k : String) (d : Dict Value)
    → is_list_param c k ≡ false
    → values k (list_slice c d) ≡ []
unfolding values_at
values-list_slice_ne c k d h = ground (arith, get-list_slice c k d)

pub listed-list_add_of :
    (s : State) (k : String) (change curr : Dict Value) (res : Dict (List Atom))
    → list_add_of s change curr ≡ ok res
    → listed k res ≡ (if is_absent s then [] else difference (values k change) (values k curr))
unfolding list_add_of
listed-list_add_of absent k change curr res h = ground arith
listed-list_add_of _ k change curr res h = listed-op difference change curr k res refl h

pub listed-list_del_of :
    (s : State) (k : String) (change curr : Dict Value) (res : Dict (List Atom))
    → list_del_of s change curr ≡ ok res
    → listed k res ≡ removals s (values k change) (values k curr)
unfolding list_del_of
listed-list_del_of exact k change curr res h = listed-op difference curr change k res refl h
listed-list_del_of absent k change curr res h = listed-op intersection change curr k res refl h
listed-list_del_of _ k change curr res h = ground arith

-- No key is listed with no value.
abbrev pub NoEmpty : Dict (List Atom) → Type 0
NoEmpty [] = Unit
NoEmpty ((k, vs) ∷ d) = (is_empty vs ≡ false) × NoEmpty d

op_keys-NoEmpty :
    (f : List Atom → List Atom → List Atom) (a b : Dict Value) (ks : List String)
    (res : Dict (List Atom))
    → op_keys f a b ks ≡ ok res
    → NoEmpty res
unfolding op_keys
op_keys-NoEmpty f a b [] res h = ground arith
op_keys-NoEmpty f a b (k ∷ ks) res h =
    let (xs, px, h1) = >>=-eq-ok (values_at k a) _ h in
    let (ys, py, h2) = >>=-eq-ok (values_at k b) _ h1 in
    let (rest, pr, h3) = >>=-eq-ok (op_keys f a b ks) _ h2 in
    ground (arith, op_keys-NoEmpty f a b ks rest pr)

list_add_of-NoEmpty :
    (s : State) (change curr : Dict Value) (res : Dict (List Atom))
    → list_add_of s change curr ≡ ok res
    → NoEmpty res
unfolding list_add_of op
list_add_of-NoEmpty absent change curr res h = ground arith
list_add_of-NoEmpty _ change curr res h = op_keys-NoEmpty difference change curr _ res h

list_del_of-NoEmpty :
    (s : State) (change curr : Dict Value) (res : Dict (List Atom))
    → list_del_of s change curr ≡ ok res
    → NoEmpty res
unfolding list_del_of op
list_del_of-NoEmpty exact change curr res h = op_keys-NoEmpty difference curr change _ res h
list_del_of-NoEmpty absent change curr res h = op_keys-NoEmpty intersection change curr _ res h
list_del_of-NoEmpty _ change curr res h = ground arith

pub eq_nil_of_listed :
    (d : Dict (List Atom)) → NoEmpty d → ((k : String) → listed k d ≡ []) → d ≡ []
eq_nil_of_listed [] u h = refl
eq_nil_of_listed ((k, vs) ∷ d) (u, us) h = ground (arith, h k)

module _ (c : ClassSpec) (s : State) (change curr : Dict Value) (ch : Changes) where
  -- The parts of a successful `compute_changes`, under a key of a list parameter.
  pub compute_changes_lists :
      (k : String)
      → compute_changes c s change curr ≡ ok ch
      → is_list_param c k ≡ true
      → (listed k ch.list_add
          ≡ (if is_absent s then [] else difference (values k change) (values k curr)))
        × (listed k ch.list_del ≡ removals s (values k change) (values k curr))
  unfolding compute_changes
  compute_changes_lists k h is_list =
      let (added, pa, h1) = >>=-eq-ok (list_add_of s _ _) _ h in
      let (removed, pr, h2) = >>=-eq-ok (list_del_of s _ _) _ h1 in
      let (scalars, ps, h3) = >>=-eq-ok (scalars_of c s _ _) _ h2 in
      ground (
        arith,
        listed-list_add_of s k (list_slice c change) (list_slice c curr) added pa,
        listed-list_del_of s k (list_slice c change) (list_slice c curr) removed pr,
        values-list_slice c k change is_list,
        values-list_slice c k curr is_list,
      )

  -- No key of another parameter is listed.
  pub compute_changes_lists_ne :
      (k : String)
      → compute_changes c s change curr ≡ ok ch
      → is_list_param c k ≡ false
      → (listed k ch.list_add ≡ []) × (listed k ch.list_del ≡ [])
  unfolding compute_changes
  compute_changes_lists_ne k h no_list =
      let (added, pa, h1) = >>=-eq-ok (list_add_of s _ _) _ h in
      let (removed, pr, h2) = >>=-eq-ok (list_del_of s _ _) _ h1 in
      let (scalars, ps, h3) = >>=-eq-ok (scalars_of c s _ _) _ h2 in
      ground (
        arith,
        listed-list_add_of s k (list_slice c change) (list_slice c curr) added pa,
        listed-list_del_of s k (list_slice c change) (list_slice c curr) removed pr,
        values-list_slice_ne c k change no_list,
        values-list_slice_ne c k curr no_list,
      )

  pub compute_changes-NoEmpty :
      compute_changes c s change curr ≡ ok ch → NoEmpty ch.list_add × NoEmpty ch.list_del
  unfolding compute_changes
  compute_changes-NoEmpty h =
      let (added, pa, h1) = >>=-eq-ok (list_add_of s _ _) _ h in
      let (removed, pr, h2) = >>=-eq-ok (list_del_of s _ _) _ h1 in
      let (scalars, ps, h3) = >>=-eq-ok (scalars_of c s _ _) _ h2 in
      ground (
        arith,
        list_add_of-NoEmpty s (list_slice c change) (list_slice c curr) added pa,
        list_del_of-NoEmpty s (list_slice c change) (list_slice c curr) removed pr,
      )

  pub apply-compute_changes :
      (k : String) (v : Atom)
      → compute_changes c s change curr ≡ ok ch
      → is_list_param c k ≡ true
      → after ch k v (member (values k curr) v)
        ≡ target s (member (values k curr) v) (member (values k change) v)
  apply-compute_changes k v h is_list =
      let (pa, pr) = compute_changes_lists k h is_list in
      rw (pa, pr) (target_lem s (values k change) (values k curr) v)
