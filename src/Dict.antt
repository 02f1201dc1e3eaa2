-- ===== src/Dict.antt =====
-- Python's `dict` with string keys, as an association list in insertion order.
use freeipa_cloud_prov.Prelude.{
  String, ◌≡◌, refl, Bool, true, false, Option, none, some, List, [], ◌∷◌, arith, ◌==◌, contains,
  string_eq, if◌then◌else◌,
}

abbrev pub Dict {ℓ} : Type ℓ → Type ℓ
Dict V = List (String × V)

abbrev pub is_some {ℓ} : {A : Type ℓ} → Option A → Bool
is_some none = false
is_some (some _) = true

module _ {ℓ} {V : Type ℓ} where
  abbrev pub keys : Dict V → List String
  keys [] = []
  keys ((k, _) ∷ d) = k ∷ keys d

  -- `d.get(k)`, and `d[k]` where `none` is a `KeyError`
  abbrev pub get : String → Dict V → Option V
  get k [] = none
  get k ((j, v) ∷ d) = if k == j then some v else get k d

  -- `k in d`
  abbrev pub has : String → Dict V → Bool
  has k d = is_some (get k d)

  -- `d[k] = v`
  abbrev pub set : String → V → Dict V → Dict V
  set k v [] = (k, v) ∷ []
  set k v ((j, w) ∷ d) = if k == j then (k, v) ∷ d else (j, w) ∷ set k v d

  -- `d.pop(k, None)`
  abbrev pub erase : String → Dict V → Dict V
  erase k [] = []
  erase k ((j, w) ∷ d) = let rest = erase k d in if k == j then rest else (j, w) ∷ rest

  pub get-set :
      (j k : String) (v : V) (d : Dict V) → get j (set k v d) ≡ (if j == k then some v else get j d)
  get-set j k v [] = refl
  get-set j k v (_ ∷ d) = ground (arith, get-set j k v d)

  pub get-erase :
      (j k : String) (d : Dict V) → get j (erase k d) ≡ (if j == k then none else get j d)
  get-erase j k [] = ground arith
  get-erase j k (_ ∷ d) = ground (arith, get-erase j k d)

  pub contains-keys : (k : String) (d : Dict V) → contains (keys d) k ≡ has k d
  contains-keys k [] = refl
  contains-keys k (_ ∷ d) = ground (arith, contains-keys k d)

  -- What every Python dict has: a key stands once.
  abbrev pub NodupKeys : Dict V → Type 0
  NodupKeys [] = Unit
  NodupKeys ((k, _) ∷ d) = (has k d ≡ false) × NodupKeys d

  pub set-NodupKeys : (k : String) (v : V) (d : Dict V) → NodupKeys d → NodupKeys (set k v d)
  set-NodupKeys k v [] u = (refl, tt)
  set-NodupKeys k v ((j, _) ∷ d) (fresh, u) = ground (arith, set-NodupKeys k v d u, get-set j k v d)

  pub erase-NodupKeys : (k : String) (d : Dict V) → NodupKeys d → NodupKeys (erase k d)
  erase-NodupKeys k [] u = tt
  erase-NodupKeys k ((j, _) ∷ d) (fresh, u) = ground (arith, erase-NodupKeys k d u, get-erase j k d)
