-- ===== src/Ipa/Ensure.antt =====
-- `find`, `add_or_mod`, `rem`, the queue and `main` of lib/python/ipa.py.
pub mod Item
pub mod Runs
pub mod Again
pub mod Reports
pub mod Prediction
pub mod Outcomes
pub mod Order
pub mod Posts
pub mod Queue
pub mod Quiet
use freeipa_cloud_prov.Prelude.{
  ℕ, zero, suc, String, ◌<>◌, Bool, true, false, not, ◌&&◌, Option, none, some, List, [], ◌∷◌, ◌++◌,
  map, contains, string_eq, if◌then◌else◌, ltb,
}
use freeipa_cloud_prov.Prelude.Lists.{is_empty}
use freeipa_cloud_prov.Dict.{Dict, get, set, keys, erase}
use freeipa_cloud_prov.Result.{Result, ok, err}
use freeipa_cloud_prov.Exec.{pure, raise, lift, gets, modify, ◌>>=◌, ◌>>◌}
use freeipa_cloud_prov.Ipa.Values.{
  Atom, Value, table, Failure, attribute_error, index_error, key_error,
}
use freeipa_cloud_prov.Ipa.Texts.{sort_texts, attr_texts}
use freeipa_cloud_prov.Ipa.Client.{
  State, absent, ClassSpec, base_keys, method_name, add, rem as rem_key, mod_, find as find_key,
  Task,
}
use freeipa_cloud_prov.Ipa.Diff.{Changes}
use freeipa_cloud_prov.Ipa.Session.{
  Request, Payload, object, objects, scalar, Outer, Body, Server, Reply, Entry, Run, M, login,
  post_json,
}
use freeipa_cloud_prov.Ipa.Hooks.{Client, true_value}

-- The entries of a dict whose keys are among the given ones.
abbrev pub with_keys {ℓ} : {V : Type ℓ} → List String → Dict V → Dict V
with_keys ks [] = []
with_keys ks ((k, v) ∷ d) =
    let rest = with_keys ks d in if contains ks k then (k, v) ∷ rest else rest

-- `item.setdefault(name, {})[k] = v` for each entry, and `item[k] = v` for the scalars
abbrev pub put_table : String → Dict (List Atom) → Dict Value → Dict Value
put_table name [] item = item
put_table name (e ∷ t) item = set name (table (e ∷ t)) item

abbrev pub put_all : Dict Value → Dict Value → Dict Value
put_all [] item = item
put_all ((k, v) ∷ d) item = put_all d (set k v item)

-- The item of `add_or_mod` before it is made a request.
unfoldable pub change_item : ClassSpec → Changes → Dict Value
change_item c diffs = put_all (with_keys (base_keys c) diffs.scalars) (
    put_table "delattr" (with_keys (base_keys c) diffs.list_del)
      (put_table "addattr" (with_keys (base_keys c) diffs.list_add) []))

-- One of the two keys in the loop of `mod_rewrite_list_changes`.
-- The sorted texts for the entries of a table.
attr_list : List (String × List Atom) → Value
attr_list t = Value.list (map Atom.str (sort_texts (attr_texts t)))

rewritten : String → Option Value → Dict Value → Dict Value
rewritten name none item = item
rewritten name (some (table t)) item = set name (attr_list t) (erase name item)
rewritten name (some (Value.list _)) item = item
rewritten name (some (Value.atom _)) item = item

rewrite_attr : String → Dict Value → Dict Value
unfolding rewritten attr_list
rewrite_attr name item = rewritten name (get name item) item

unfoldable pub mod_rewrite_list_changes : Dict Value → Dict Value
unfolding rewrite_attr
mod_rewrite_list_changes item =
    set "all" true_value (rewrite_attr "delattr" (rewrite_attr "addattr" item))

head_response : List Entry → Result Failure (Dict Value)
head_response [] = err index_error
head_response (e ∷ _) = ok e.response_cleaned

-- The property `response_cleaned`
unfoldable pub response_cleaned : M (Dict Value)
unfolding head_response
response_cleaned r = lift (head_response r.requests) r

-- `bool(self.response_cleaned)` decides `is_absent`.
abbrev pub is_absent : M Bool
unfolding response_cleaned
is_absent = do curr ← response_cleaned; pure (is_empty curr)

count_of : Option Outer → ℕ
count_of none = 0
count_of (some o) = elim o.count [ none ↦ 0 | some n ↦ n ]

-- The property `exists`
unfoldable pub exists : ClassSpec → M Bool
unfolding count_of
exists c r = elim (get (method_name c find_key) r.responses) [
  | none ↦ (err (key_error (method_name c find_key)), r)
  | some body ↦ (ok (ltb 0 (count_of body.result)), r)
]

abbrev pub entry : String → Request → Entry
entry name q = record { name = name; request = q; response = none; response_cleaned = [] }

abbrev pub enqueue : Entry → M (Unit {0})
enqueue e = modify (λ r. record r { requests = r.requests ++ (e ∷ []) })

abbrev pub blank : Request
blank = record { method = ""; name = []; item = [] }

-- `self.requests` has no other entry when `find` runs.
abbrev pub put_find : Entry → M (Unit {0})
put_find e = modify (λ r. record r { requests = e ∷ [] })

as_object : Option Payload → Result Failure (Dict Value)
as_object none = err attribute_error
as_object (some (object d)) = ok d
as_object (some (objects _)) = err attribute_error
as_object (some (scalar _)) = err attribute_error

module _ (c : Client) (t : Task) where
  -- `find` up to its request
  unfoldable pub find_request : M Request
  find_request = do
    put_find (entry "find" blank)
    canon ← lift (c.munge_module_params t)
    modify (λ r. record r { canon_params = canon })
    name ← lift (c.find_request_params t)
    item ← lift (c.find_request_item t)
    let q : Request = record { method = method_name c.spec find_key; name = name; item = item }
    put_find (entry "find" q)
    pure q

  -- `find` from the response on
  unfoldable pub find_response : Request → Option Payload → M (Unit {0})
  unfolding as_object
  find_response q response = do
    put_find (record (entry "find" q) { response = response })
    found ← lift (as_object response)
    curr ← lift (c.munge_response t found)
    put_find (record (entry "find" q) { response = response; response_cleaned = curr })
    canon ← gets (λ r. r.canon_params)
    diffs ← lift (c.compute_changes_ t canon curr)
    modify (λ r. record r { diffs = diffs })

  unfoldable pub find : Server → M (Unit {0})
  find server = do
    q ← find_request
    response ← post_json c.spec (c.find_filter t) server q
    find_response q response

  -- Makes the request of a non-empty change, or that creates the object, and queues it.
  unfoldable pub queue_change : Dict Value → M Bool
  queue_change item = do
    missing ← is_absent
    name ← lift (c.mod_request_params t)
    q ← lift (
        c.check_mod_request (record {
          method = method_name c.spec (if missing then add else mod_);
          name = name;
          item = mod_rewrite_list_changes (set "all" true_value item);
        }))
    enqueue (entry "add_or_mod" q)
    pure false

  -- `add_or_mod` gives `None`, which does not stop the queue.
  unfoldable pub add_or_mod : M Bool
  add_or_mod = do
    diffs ← gets (λ r. r.diffs)
    let item : Dict Value = change_item c.spec diffs
    let change : M Bool = queue_change item
    there ← (if is_empty item then exists c.spec else pure false)
    if there then pure false else change

  -- The end of `rem`: the request that removes the object.
  unfoldable pub queue_removal : M Bool
  queue_removal = do
    name ← (λ r. (do curr ← response_cleaned; lift (c.rem_request_params t curr r.canon_params)) r)
    item ← (λ r. (do curr ← response_cleaned; lift (c.rem_request_item curr r.canon_params)) r)
    enqueue (
        entry "rem" (
          c.rem_request_cleanup
            (record { method = method_name c.spec rem_key; name = name; item = item })))
    pure true

  abbrev is_state_absent : State → Bool
  is_state_absent absent = true
  is_state_absent _ = false

  unfoldable pub rem : M Bool
  rem = do
    canon ← gets (λ r. r.canon_params)
    let removal : M Bool = queue_removal
    if not (is_state_absent t.state)
        then pure false
        else if c.is_rem_param_request canon
        then pure false
        else (do
          missing ← is_absent
          if missing then pure true else if t.check_mode then pure true else removal)

  -- The response to one queued request; in check mode nothing is posted.
  unfoldable pub post_entry : Server → Request → M (Option Payload)
  post_entry server q =
      if t.check_mode then pure (some (object [])) else post_json c.spec (c.find_filter t) server q

  -- `process_queue` from an entry on: those before it are done.
  unfoldable pub process_from : Server → List Entry → List Entry → M (Unit {0})
  process_from server done [] = pure tt
  process_from server done (e ∷ todo) = do
    response ← post_entry server e.request
    let e' : Entry = record e { response = response }
    modify (λ r. record r { requests = done ++ (e' ∷ todo); changed = true })
    process_from server (done ++ (e' ∷ [])) todo

  process_all : Server → List Entry → M (Unit {0})
  process_all server [] = pure tt
  process_all server (e ∷ todo) = process_from server (e ∷ []) todo

  -- All entries but that of `find`.
  unfoldable pub process_queue : Server → M (Unit {0})
  unfolding process_all
  process_queue server r = process_all server r.requests r

-- The loop of `queue_requests`: a function that gives `True` ends it.
unfoldable pub queue_requests : List (M Bool) → M (Unit {0})
queue_requests [] = pure tt
queue_requests (f ∷ fs) =
    let rest = queue_requests fs in do stop ← f; if stop then pure tt else rest

abbrev pub last_response : List Entry → Option Payload
last_response [] = none
last_response (e ∷ []) = e.response
last_response (_ ∷ e ∷ es) = last_response (e ∷ es)

-- What `ensure` returns
unfoldable pub report : Run → Bool × Option Payload
report r = (r.changed, last_response r.requests)

-- The functions of `change_functions` are given, since a subclass adds its own to them.
unfoldable pub ensure : Client → Task → Server → List (M Bool) → M (Bool × Option Payload)
ensure c t server changes = do
  find c t server
  queue_requests changes
  process_queue c t server
  gets report

abbrev pub base_changes : Client → Task → List (M Bool)
base_changes c t = rem c t ∷ add_or_mod c t ∷ []

-- `main`, from a fresh object; the first reply is that to the password.
unfoldable pub main : Client → Task → Reply → Server → List (M Bool) → M (Bool × Option Payload)
main c t password_reply server changes = do login password_reply; ensure c t server changes
