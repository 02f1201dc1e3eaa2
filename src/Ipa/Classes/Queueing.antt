-- ===== src/Ipa/Classes/Queueing.antt =====
-- What the change functions of lib/modules/ipa_*.py share: they queue a request by its method.
use freeipa_cloud_prov.Prelude.{
  ℕ, ltb, leb, eqb, if◌then◌else◌, String, Bool, true, false, none, some, List, [], ◌∷◌, string_eq,
}
use freeipa_cloud_prov.Dict.{Dict, get}
use freeipa_cloud_prov.Result.{Result, ok, err}
use freeipa_cloud_prov.Exec.{lift, modify, ◌>>=◌}
use freeipa_cloud_prov.Ipa.Values.{
  ℤ, pos, negsuc, Atom, null, bool, int, str, wrapped, nested, norm, Value, Failure, key_error,
}
use freeipa_cloud_prov.Ipa.Texts.{text_le}
use freeipa_cloud_prov.Ipa.Session.{M}
use freeipa_cloud_prov.Ipa.Ensure.{entry, enqueue}

-- Appends an entry whose name and request are given, with the request's name computed first.
unfoldable pub queue_method :
    String → String → Result Failure (List Value) → Dict Value → M (Unit {0})
queue_method name method params item = do
  keys ← lift params
  enqueue (entry name (record { method = method; name = keys; item = item }))

-- `self.changed = True`
unfoldable pub mark : M (Unit {0})
mark = modify (λ r. record r { changed = true })

-- The values under those of the keys that the changes have, each under its new key.
unfoldable pub pick : List (String × String) → Dict (List Atom) → Dict Value
pick [] changes = []
pick ((key, new_key) ∷ keys) changes =
    let rest = pick keys changes in
    elim (get key changes) [ none ↦ rest | some vs ↦ (new_key, Value.list vs) ∷ rest ]

-- `d[k]`
abbrev pub item_at : String → Dict Value → Result Failure Value
item_at k d = elim (get k d) [ none ↦ err (key_error k) | some v ↦ ok v ]

-- Python 2 sorts `None` before numbers, these before dicts, and those before texts.
rank : Atom → ℕ
rank null = 0
rank (bool _) = 1
rank (int _) = 1
rank (wrapped _ _) = 2
rank (nested _) = 2
rank (str _) = 3

int_le : ℤ → ℤ → Bool
int_le (pos a) (pos b) = leb a b
int_le (negsuc a) (negsuc b) = leb b a
int_le (negsuc _) (pos _) = true
int_le (pos _) (negsuc _) = false

within_rank : Atom → Atom → Bool
unfolding int_le
within_rank (int a) (int b) = int_le a b
within_rank (str s) (str t) = text_le s t
within_rank _ _ = true

unfoldable pub atom_le : Atom → Atom → Bool
unfolding rank within_rank
atom_le a b = if eqb (rank a) (rank b) then within_rank (norm a) (norm b) else ltb (rank a) (rank b)

unfoldable pub insert_atom : Atom → List Atom → List Atom
insert_atom a [] = a ∷ []
insert_atom a (b ∷ bs) = let rest = insert_atom a bs in if atom_le a b then a ∷ b ∷ bs else b ∷ rest

-- `sorted(xs)`
unfoldable pub sort_atoms : List Atom → List Atom
sort_atoms [] = []
sort_atoms (a ∷ xs) = insert_atom a (sort_atoms xs)
