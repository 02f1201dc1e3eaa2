-- ===== src/Ipa/Diff/Again.antt =====
-- A second computation, on the object that the changes lead to, finds nothing to do.
use freeipa_cloud_prov.Prelude.{
  String, ◌≡◌, ◌≢◌, refl, ap, ◌∙◌, Bool, true, false, Option, none, some, List, [], ◌∷◌, arith,
  string_eq, if◌then◌else◌, inl, inr, Bool-cases,
}
use freeipa_cloud_prov.Dict.{Dict, get, has, NodupKeys}
use freeipa_cloud_prov.Result.{ok}
use freeipa_cloud_prov.Ipa.Values.{
  Atom, null, Value, atom, list, table, same_value, member, atom_eq, difference,
}
use freeipa_cloud_prov.Ipa.Values.Sets.{
  member-difference, member-intersection, same_value_refl, eq_nil_of_member,
}
use freeipa_cloud_prov.Ipa.Client.{
  ClassSpec, ParamSpec, State, absent, exact, argument_spec, standard_params,
}
use freeipa_cloud_prov.Ipa.Diff.{is_list_param, Changes, compute_changes}
use freeipa_cloud_prov.Ipa.Diff.Lists.{
  listed, values, after, target, removals, is_absent, compute_changes_lists_ne,
  compute_changes-NoEmpty, eq_nil_of_listed, apply-compute_changes, compute_changes_lists,
}
use freeipa_cloud_prov.Ipa.Diff.Scalars.{
  written, differs, default_at, has_default, with_default, scalars-compute_changes,
  scalars-compute_changes_ne,
}

-- What the object shows of a scalar: `clean` leaves a null out.
abbrev pub shown : Option Value → Option Value
shown none = none
shown (some (atom null)) = none
shown (some v) = some v

-- `curr'` is an object to which the changes to `curr` were applied.
pub record Applied (c : ClassSpec) (ch : Changes) (curr curr' : Dict Value) : Type 0 where
  pub lists :
      (k : String) (v : Atom)
      → is_list_param c k ≡ true
      → member (values k curr') v ≡ after ch k v (member (values k curr) v)
  pub scalars :
      (k : String)
      → is_list_param c k ≡ false
      → get k curr' ≡ shown (elim (get k ch.scalars) [ none ↦ get k curr | some v ↦ some v ])

-- The same, of the parameters of the object alone: those of the module itself, such as `state` and
-- `ipa_host`, are not shown by any object.
pub record AppliedToObject (c : ClassSpec) (ch : Changes) (curr curr' : Dict Value) : Type 0 where
  pub lists :
      (k : String) (v : Atom)
      → is_list_param c k ≡ true
      → member (values k curr') v ≡ after ch k v (member (values k curr) v)
  pub scalars :
      (k : String)
      → has k standard_params ≡ false
      → is_list_param c k ≡ false
      → get k curr' ≡ shown (elim (get k ch.scalars) [ none ↦ get k curr | some v ↦ some v ])

-- Changes that ask for nothing of the object.
pub record AsksNothing (ch : Changes) : Type 0 where
  pub no_scalar : (k : String) → has k standard_params ≡ false → get k ch.scalars ≡ none
  pub no_addition : ch.list_add ≡ []
  pub no_removal : ch.list_del ≡ []

target_idem :
    (s : State) (there given : Bool) → target s (target s there given) given ≡ target s there given
target_idem exact there given = refl
target_idem absent there given = ground arith
target_idem _ there given = ground arith

default_at_null :
    (c : ClassSpec) (k : String) → has_default c k ≡ false → default_at c k ≡ atom null
default_at_null c k h = go (argument_spec c) h
  where
    go :
        (spec : Dict ParamSpec)
        → with_default spec k ≡ false
        → elim (get k spec) [
          | none ↦ atom null
          | some p ↦ elim p.default [ none ↦ atom null | some v ↦ v ]
        ]
          ≡ atom null
    go [] e = refl
    go ((j, p) ∷ spec) e = ground (arith, go spec)

same_value_null : (v : Value) → same_value v (atom null) ≡ true → v ≡ atom null
same_value_null (atom null) h = refl
same_value_null (atom (Atom.bool true)) h = ground arith
same_value_null (atom (Atom.bool false)) h = ground arith
same_value_null (atom (Atom.int n)) h = ground arith
same_value_null (atom (Atom.str s)) h = ground arith
same_value_null (atom (Atom.wrapped k s)) h = ground arith
same_value_null (atom (Atom.nested t)) h = ground arith
same_value_null (list xs) h = ground arith
same_value_null (table t) h = ground arith

shown-some : (v : Value) → v ≢ atom null → shown (some v) ≡ some v
shown-some (atom null) h = absurd (h refl)
shown-some (atom (Atom.bool b)) h = refl
shown-some (atom (Atom.int n)) h = refl
shown-some (atom (Atom.str s)) h = refl
shown-some (atom (Atom.wrapped k s)) h = refl
shown-some (atom (Atom.nested t)) h = refl
shown-some (list xs) h = refl
shown-some (table t) h = refl

abbrev wanted_write : Value → Option Value → Option Value
wanted_write v there = if differs v there then some v else none

abbrev applied : Option Value → Option Value → Option Value
applied there write = shown (elim write [ none ↦ there | some v ↦ some v ])

wanted_write_again :
    (v : Value) (there : Option Value)
    → v ≢ atom null
    → wanted_write v (applied there (wanted_write v there)) ≡ none
wanted_write_again v none h = rw (shown-some v h) (rw (same_value_refl v))
wanted_write_again v (some w) h = elim (Bool-cases (same_value v w)) [
  | inl e ↦ rw e (rw (shown-some w (λ q. h (same_value_null v (rw q at e)))) (rw e))
  | inr e ↦ rw e (rw (shown-some v h) (rw (same_value_refl v)))
]

written_exact_kept :
    (d : Value) (defaulted : Bool) (there : Option Value)
    → (defaulted ≡ false → d ≡ atom null)
    → written exact d defaulted none (applied there (written exact d defaulted none there)) ≡ none
written_exact_kept d defaulted none hd = refl
written_exact_kept d true (some (atom null)) hd = refl
written_exact_kept d true (some w) hd = ground arith
written_exact_kept d false (some w) hd = rw (hd refl)

-- Outside state `absent`, nothing is written again to the value that was written.
written_again :
    (s : State) (d : Value) (defaulted : Bool) (given there : Option Value)
    → s ≢ absent
    → (defaulted ≡ false → d ≡ atom null)
    → given ≢ some (atom null)
    → written s d defaulted given (applied there (written s d defaulted given there)) ≡ none
written_again absent d defaulted given there h hd hg = absurd (h refl)
written_again exact d defaulted (some v) there h hd hg =
    wanted_write_again v there (λ e. hg (ap some e))
written_again exact d defaulted none there h hd hg = written_exact_kept d defaulted there hd
written_again _ d defaulted (some v) there h hd hg =
    wanted_write_again v there (λ e. hg (ap some e))
written_again _ d defaulted none there h hd hg = refl

-- A dict in which no key is found has no entry.
eq_nil_of_get {ℓ} : {V : Type ℓ} (d : Dict V) → ((k : String) → get k d ≡ none) → d ≡ []
eq_nil_of_get [] h = refl
eq_nil_of_get ((k, v) ∷ d) h = ground (arith, h k)

-- What is left to add and to remove where the values are those of the requested state.
no_additions :
    (s : State) (wanted there : List Atom) (before : Atom → Bool)
    → ((v : Atom) → member there v ≡ target s (before v) (member wanted v))
    → (if is_absent s then [] else difference wanted there) ≡ []
no_additions absent wanted there before h = refl
no_additions _ wanted there before h =
    eq_nil_of_member _ (λ v. ground (arith, h v, member-difference wanted there v))

no_removals :
    (s : State) (wanted there : List Atom) (before : Atom → Bool)
    → ((v : Atom) → member there v ≡ target s (before v) (member wanted v))
    → removals s wanted there ≡ []
no_removals exact wanted there before h =
    eq_nil_of_member _ (λ v. ground (arith, h v, member-difference there wanted v))
no_removals absent wanted there before h =
    eq_nil_of_member _ (λ v. ground (arith, h v, member-intersection wanted there v))
no_removals _ wanted there before h = refl

module _ (c : ClassSpec) (s : State) (change curr curr' : Dict Value) (ch ch' : Changes)
    (first : compute_changes c s change curr ≡ ok ch)
    (second : compute_changes c s change curr' ≡ ok ch')
    (done : (k : String) (v : Atom)
      → is_list_param c k ≡ true
      → member (values k curr') v ≡ after ch k v (member (values k curr) v)) where
  reached :
      (k : String) (v : Atom)
      → is_list_param c k ≡ true
      → member (values k curr') v ≡ target s (member (values k curr) v) (member (values k change) v)
  reached k v is_list =
      done k v is_list ∙ apply-compute_changes c s change curr ch k v first is_list

  nothing_listed : (k : String) → (listed k ch'.list_add ≡ []) × (listed k ch'.list_del ≡ [])
  nothing_listed k = elim (Bool-cases (is_list_param c k)) [
    | inl is_list ↦
        let (pa, pr) = compute_changes_lists c s change curr' ch' k second is_list in
        let before : Atom → Bool = λ v. member (values k curr) v in
        (
          pa ∙ no_additions s _ _ before (λ v. reached k v is_list),
          pr ∙ no_removals s _ _ before (λ v. reached k v is_list),
        )
    | inr no_list ↦ compute_changes_lists_ne c s change curr' ch' k second no_list
  ]

  nothing_written :
      NodupKeys change
      → s ≢ absent
      → ((k : String) → get k change ≢ some (atom null))
      → (k : String)
      → (is_list_param c k ≡ false
          → get k curr' ≡ shown (elim (get k ch.scalars) [ none ↦ get k curr | some v ↦ some v ]))
      → get k ch'.scalars ≡ none
  nothing_written u h nulls k set_there = elim (Bool-cases (is_list_param c k)) [
    | inl is_list ↦ scalars-compute_changes_ne c s change curr' ch' k u second is_list
    | inr scalar ↦
        scalars-compute_changes c s change curr' ch' k u second scalar
        ∙ rw (set_there scalar, scalars-compute_changes c s change curr ch k u first scalar)
            (written_again s _ _ (get k change) (get k curr) h (default_at_null c k) (nulls k))
  ]

  no_lists : (ch'.list_add ≡ []) × (ch'.list_del ≡ [])
  no_lists =
      let (some_add, some_del) = compute_changes-NoEmpty c s change curr' ch' second in
      (
        eq_nil_of_listed ch'.list_add some_add (λ k. (nothing_listed k).0),
        eq_nil_of_listed ch'.list_del some_del (λ k. (nothing_listed k).1),
      )

module _ (c : ClassSpec) (s : State) (change curr curr' : Dict Value) (ch ch' : Changes)
    (first : compute_changes c s change curr ≡ ok ch)
    (second : compute_changes c s change curr' ≡ ok ch') where
  -- The same request asks nothing more of the object that the changes were applied to.
  pub compute_changes-AsksNothing :
      AppliedToObject c ch curr curr'
      → NodupKeys change
      → s ≢ absent
      → ((k : String) → get k change ≢ some (atom null))
      → AsksNothing ch'
  compute_changes-AsksNothing done u h nulls =
      let (no_add, no_del) = no_lists c s change curr curr' ch ch' first second done.lists in
      record {
        no_scalar = λ k own.
            nothing_written c s change curr curr' ch ch' first second done.lists u h nulls k
              (done.scalars k own);
        no_addition = no_add;
        no_removal = no_del;
      }

module _ (c : ClassSpec) (s : State) (change curr curr' : Dict Value) (ch ch' : Changes)
    (first : compute_changes c s change curr ≡ ok ch)
    (second : compute_changes c s change curr' ≡ ok ch') (done : Applied c ch curr curr') where
  -- Where the changes of one computation were applied to the object, the same request finds nothing
  -- to set, to add or to remove. The state is not `absent`, the parameters have no key twice, and
  -- no value given is null.
  pub compute_changes_again :
      NodupKeys change
      → s ≢ absent
      → ((k : String) → get k change ≢ some (atom null))
      → (ch'.scalars ≡ []) × (ch'.list_add ≡ []) × (ch'.list_del ≡ [])
  compute_changes_again u h nulls =
      let (no_add, no_del) = no_lists c s change curr curr' ch ch' first second done.lists in
      (
        eq_nil_of_get ch'.scalars (λ k.
            nothing_written c s change curr curr' ch ch' first second done.lists u h nulls k
              (done.scalars k)),
        no_add,
        no_del,
      )
