-- ===== src/Ipa/Clean/NoNull.antt =====
-- What `clean` and `munge_module_params` of lib/python/ipa.py give has no key twice and no null.
use freeipa_cloud_prov.Prelude.{
  String, ◌≡◌, ◌≢◌, refl, subst, inl, inr, Bool-cases, Option-cases, Bool, true, false, not, ◌&&◌,
  Option, none, some, List, [], ◌∷◌, arith, contains, string_eq,
}
use freeipa_cloud_prov.Dict.{
  Dict, get, has, set, erase, keys, NodupKeys, get-set, get-erase, set-NodupKeys, erase-NodupKeys,
}
use freeipa_cloud_prov.Result.{ok, >>=-eq-ok, ok_unique}
use freeipa_cloud_prov.Ipa.Values.{Value, null, atom}
use freeipa_cloud_prov.Ipa.Client.{Kind, ParamSpec, ClassSpec, argument_spec, Task, State, exact}
use freeipa_cloud_prov.Ipa.Clean.{
  clean_list, clean_scalar, to_bool, to_int, clean_value, put_value, clean_onto, clean, pop_keys,
  munge_pop_request_keys, add_defaults, munge_state_exact_add_defaults,
}
use freeipa_cloud_prov.Ipa.Hooks.{base_munge_module_params}

pub record IsClean (d : Dict Value) : Type 0 where
  pub nodup : NodupKeys d
  pub no_null : (k : String) → get k d ≢ some (atom null)

IsClean-[] : IsClean []
IsClean-[] = record { nodup = tt; no_null = λ k e. ground arith }

pub set-IsClean :
    (k : String) (v : Value) (d : Dict Value) → v ≢ atom null → IsClean d → IsClean (set k v d)
set-IsClean k v d h c = record {
  nodup = set-NodupKeys k v d c.nodup;
  no_null = λ j e. ground (arith, get-set j k v d, c.no_null j);
}

pub erase-IsClean : (k : String) (d : Dict Value) → IsClean d → IsClean (erase k d)
erase-IsClean k d c = record {
  nodup = erase-NodupKeys k d c.nodup;
  no_null = λ j e. ground (arith, get-erase j k d, c.no_null j);
}

clean_value_ne : (kind : Kind) (v w : Value) → clean_value kind v ≡ ok (some w) → w ≢ atom null
unfolding clean_value clean_list clean_scalar to_bool to_int
clean_value_ne kind v w h e = ground arith

put_value-IsClean :
    (kind : Kind) (k : String) (v : Value) (cleaned : Option Value) (d : Dict Value)
    → clean_value kind v ≡ ok cleaned
    → IsClean d
    → IsClean (put_value k cleaned d)
put_value-IsClean kind k v none d h c = c
put_value-IsClean kind k v (some w) d h c = set-IsClean k w d (clean_value_ne kind v w h) c

clean_onto-IsClean :
    (kw : Dict ParamSpec) (item dirty out : Dict Value)
    → clean_onto kw item dirty ≡ ok out
    → IsClean item
    → IsClean out
unfolding clean_onto
clean_onto-IsClean kw item [] out h c = let same : item ≡ out = cc in subst IsClean same c
clean_onto-IsClean kw item ((k, v) ∷ dirty) out h c = elim (Option-cases (get k kw)) [
  | inl none_there ↦ clean_onto-IsClean kw item dirty out (rw (clean_onto, none_there) at h) c
  | inr (p, there) ↦
      let (cleaned, hc, rest) = >>=-eq-ok (clean_value p.kind v) _ (rw (clean_onto, there) at h) in
      clean_onto-IsClean kw (put_value k cleaned item) dirty out rest
        (put_value-IsClean p.kind k v cleaned item hc c)
]

-- What `clean` gives.
pub clean-IsClean : (c : ClassSpec) (dirty out : Dict Value) → clean c dirty ≡ ok out → IsClean out
unfolding clean
clean-IsClean c dirty out h = clean_onto-IsClean c.kw_args [] dirty out h IsClean-[]

pop_keys-IsClean :
    (param_keys ks : List String) (d : Dict Value) → IsClean d → IsClean (pop_keys param_keys ks d)
pop_keys-IsClean param_keys [] d c = c
pop_keys-IsClean param_keys (k ∷ ks) d c = elim (Bool-cases (contains param_keys k)) [
  | inl h ↦ rw h (pop_keys-IsClean param_keys ks (erase k d) (erase-IsClean k d c))
  | inr h ↦ rw h (pop_keys-IsClean param_keys ks d c)
]

-- No parameter has a null as its default.
abbrev null_default : Option Value → Bool
null_default (some (atom null)) = true
null_default _ = false

abbrev pub gives_defaults : Dict ParamSpec → Bool
gives_defaults [] = true
gives_defaults ((_, p) ∷ spec) = not (null_default p.default) && gives_defaults spec

add_defaults-IsClean :
    (spec : Dict ParamSpec) (d : Dict Value)
    → gives_defaults spec ≡ true
    → IsClean d
    → IsClean (add_defaults spec d)
add_defaults-IsClean [] d g c = c
add_defaults-IsClean ((k, p) ∷ spec) d g c = elim (Bool-cases (has k d)) [
  | inl h ↦ rw h (add_defaults-IsClean spec d (ground (arith, g)) c)
  | inr h ↦ elim (Option-cases p.default) [
    | inl e ↦ rw (h, e) (add_defaults-IsClean spec d (ground (arith, g)) c)
    | inr (v, e) ↦
        rw (h, e)
          (add_defaults-IsClean spec (set k v d) (ground (arith, g))
            (set-IsClean k v d (λ q. ground (arith, g, e, q)) c))
  ]
]

-- What `munge_module_params` gives.
pub base_munge_module_params-IsClean :
    (c : ClassSpec) (t : Task) (canon : Dict Value)
    → gives_defaults (argument_spec c) ≡ true
    → base_munge_module_params c t ≡ ok canon
    → IsClean canon
unfolding base_munge_module_params munge_pop_request_keys munge_state_exact_add_defaults
base_munge_module_params-IsClean c t canon g h =
    let (item, hc, rest) = >>=-eq-ok (clean c t.params) _ h in
    let popped =
      pop_keys-IsClean c.param_keys (keys item) item (clean-IsClean c t.params item hc) in
    subst IsClean (ok_unique _ rest refl) (with_defaults t.state popped)
  where
    with_defaults :
        (s : State) {d : Dict Value} → IsClean d → IsClean (munge_state_exact_add_defaults c s d)
    with_defaults exact popped = add_defaults-IsClean (argument_spec c) _ g popped
    with_defaults _ popped = popped
