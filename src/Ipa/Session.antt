-- ===== src/Ipa/Session.antt =====
-- The object's state during one run, and `login` and `_post_json` of lib/python/ipa.py.
-- The server and `fetch_url` are not part of the repository: what they answer is a parameter, a
-- function of the requests that were posted before and of the request at hand.
use freeipa_cloud_prov.Prelude.{
  ℕ, String, ◌<>◌, Bool, true, false, ◌||◌, Option, none, some, List, [], ◌∷◌, ◌++◌, ◌==◌,
  string_eq, if◌then◌else◌, eqb,
}
use freeipa_cloud_prov.Prelude.Texts.{codes, infix_of}
use freeipa_cloud_prov.Dict.{Dict, set}
use freeipa_cloud_prov.Result.{Result, ok, err}
use freeipa_cloud_prov.Exec.{Exec, pure, raise, lift, modify, ◌>>◌}
use freeipa_cloud_prov.Ipa.Values.{ℤ, Atom, Value, Failure, fail_json, raised, attribute_error}
use freeipa_cloud_prov.Ipa.Client.{ClassSpec, method_name, find}
use freeipa_cloud_prov.Ipa.Diff.{Changes}

pub record Request : Type 0 where
  pub method : String
  pub name : List Value
  pub item : Dict Value

-- What a reply holds under `result`, or under `result` in that.
pub data Payload : Type 0 where
  object : Dict Value → Payload
  objects : List (Dict Value) → Payload
  scalar : Atom → Payload

-- What a reply holds under `error`: a dict with a `message`, or a text.
pub data ErrorValue : Type 0 where
  message : String → ErrorValue
  error_text : String → ErrorValue

-- The dict under `result`: its own `result` and `count`, and its other keys.
pub record Outer : Type 0 where
  pub inner : Option Payload
  pub count : Option ℕ
  pub others : Dict Value

pub record Body : Type 0 where
  pub error : Option ErrorValue
  pub result : Option Outer

-- `fetch_url` raises, or gives a status with a message and a body; no body is one that
-- `json.loads` refuses.
pub data Reply : Type 0 where
  unreachable : String → Reply
  replied : ℕ → String → Option Body → Reply

abbrev pub Server : Type 0
Server = List Request → Request → Reply

-- An entry of `self.requests`.
pub record Entry : Type 0 where
  pub name : String
  pub request : Request
  pub response : Option Payload
  pub response_cleaned : Dict Value

-- The object during a run. `posted` is what has gone to the server, oldest first.
pub record Run : Type 0 where
  pub requests : List Entry
  pub responses : Dict Body
  pub changed : Bool
  pub canon_params : Dict Value
  pub diffs : Changes
  pub posted : List Request

abbrev pub no_changes : Changes
no_changes = record { scalars = []; list_add = []; list_del = [] }

abbrev pub start : Run
start = record {
  requests = [];
  responses = [];
  changed = false;
  canon_params = [];
  diffs = no_changes;
  posted = [];
}

abbrev pub M : Type 0 → Type 0
M A = Exec Failure Run A

abbrev pub accepted_status : ℕ → Bool
accepted_status n = eqb n 200 || eqb n 201 || eqb n 204

-- `_fail(msg, e)` with a text `e`: one that has the word `message` in it is taken for a dict.
unfoldable pub fail_ : String → String → Failure
fail_ msg e = if infix_of (codes "message") (codes e) then attribute_error else fail_json msg e

-- The same inside a `try` whose handler calls `_fail(outer, str(e))`: the handler does not see
-- the exit of `fail_json`, and does see the `AttributeError`.
unfoldable pub fail_in_try : String → String → String → Failure
fail_in_try outer msg e =
    if infix_of (codes "message") (codes e)
    then fail_json outer "'str' object has no attribute 'get'"
    else fail_json msg e

-- `_fail(msg, err)` with the error of a reply
fail_value : String → ErrorValue → Failure
unfolding fail_
fail_value msg (message e) = fail_json msg e
fail_value msg (error_text e) = fail_ msg e

-- `login`: the reply to the password post
unfoldable pub login : Reply → M (Unit {0})
unfolding fail_ fail_in_try
login (unreachable e) = raise (fail_ "login" e)
login (replied status msg body) =
    if accepted_status status then pure tt else raise (fail_in_try "login" "login" msg)

-- The filter of find results, where the class has one.
abbrev pub Filter : Type 0
Filter = Option (Dict Value → Result Failure Bool)

abbrev keep_if : Bool → Dict Value → List (Dict Value) → List (Dict Value)
keep_if true d ds = d ∷ ds
keep_if false d ds = ds

filter_objects :
    (Dict Value → Result Failure Bool) → List (Dict Value) → Result Failure (List (Dict Value))
filter_objects test [] = ok []
filter_objects test (d ∷ ds) = elim (test d) [
  | err e ↦ err e
  | ok b ↦ elim (filter_objects test ds) [ err e ↦ err e | ok rest ↦ ok (keep_if b d rest) ]
]

-- `result[-1] if len(result) > 0 else {}`
last_object : List (Dict Value) → Dict Value
last_object [] = []
last_object (d ∷ []) = d
last_object (d ∷ e ∷ ds) = last_object (e ∷ ds)

last_of : Result Failure (List (Dict Value)) → Result Failure (Option Payload)
unfolding last_object
last_of (ok ds) = ok (some (object (last_object ds)))
last_of (err e) = err e

-- The list of a find reply is filtered, and its last element is taken.
select_result : Bool → Filter → Payload → Result Failure (Option Payload)
unfolding last_of filter_objects
select_result true none (objects ds) = last_of (ok ds)
select_result true (some test) (objects ds) = last_of (filter_objects test ds)
select_result false _ (objects ds) = ok (some (objects ds))
select_result _ _ (object d) = ok (some (object d))
select_result _ _ (scalar a) = ok (some (scalar a))

with_count : Option ℕ → Dict Value → Dict Value
with_count none d = d
with_count (some n) d = set "count" (Value.atom (Atom.int (ℤ.pos n))) d

-- `result` is what stands under `result`, or the dict itself where it has no such key.
payload_of : Outer → Payload
unfolding with_count
payload_of o = elim o.inner [ none ↦ object (with_count o.count o.others) | some p ↦ p ]

extract : Bool → Filter → Option Outer → Result Failure (Option Payload)
unfolding payload_of select_result
extract is_find filter none = ok none
extract is_find filter (some o) = select_result is_find filter (payload_of o)

unfoldable pub read_body : String → Bool → Filter → Body → M (Option Payload)
unfolding extract fail_value
read_body method is_find filter body = do
  modify (λ r. record r { responses = set method body r.responses })
  elim body.error [
    | none ↦ lift (extract is_find filter body.result)
    | some e ↦ raise (fail_value ("response " <> method) e)
  ]

unfoldable pub read_reply : String → Bool → Filter → Reply → M (Option Payload)
unfolding read_body fail_ fail_in_try
read_reply method is_find filter (unreachable e) = raise (fail_ ("post " <> method) e)
read_reply method is_find filter (replied status msg none) =
    if accepted_status status
    then raise (raised "No JSON object could be decoded")
    else raise (fail_in_try ("post " <> method) method msg)
read_reply method is_find filter (replied status msg (some body)) =
    if accepted_status status
    then read_body method is_find filter body
    else raise (fail_in_try ("post " <> method) method msg)

-- The reply is the server's answer after what was posted before; the request is recorded.
unfoldable pub post_json : ClassSpec → Filter → Server → Request → M (Option Payload)
unfolding read_reply
post_json c filter server q r =
    read_reply q.method (q.method == method_name c find) filter (server r.posted q)
      (record r { posted = r.posted ++ (q ∷ []) })
