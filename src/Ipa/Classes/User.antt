-- ===== src/Ipa/Classes/User.antt =====
-- lib/modules/ipa_user.py
use freeipa_cloud_prov.Prelude.{
  String, Bool, true, false, Option, none, some, List, [], ◌∷◌, ◌++◌, map, ◌==◌, string_eq,
  if◌then◌else◌,
}
use freeipa_cloud_prov.Dict.{Dict, get, set, erase}
use freeipa_cloud_prov.Result.{Result, ok, err, ◌>>=◌ as ◌>>=ᵣ◌}
use freeipa_cloud_prov.Exec.{pure, gets, ◌>>=◌, ◌>>◌}
use freeipa_cloud_prov.Ipa.Values.{
  Atom, null, bool, int, str, wrapped, nested, letters, same_value, Value, atom, list, table,
  Failure, type_error, atom_eq,
}
use freeipa_cloud_prov.Ipa.Client.{
  ClassSpec, ParamSpec, Kind, str_kind, bool_kind, int_kind, list_kind, base_methods, Task,
}
use freeipa_cloud_prov.Ipa.Session.{M}
use freeipa_cloud_prov.Ipa.Hooks.{Client, base_munge_response, base_mod_request_params, true_value}
use freeipa_cloud_prov.Ipa.Enablable.{
  EnableSpec, enablable_spec, enablable_client, enablable_changes,
}
use freeipa_cloud_prov.Ipa.Classes.Zone.{of_kind}
use freeipa_cloud_prov.Ipa.Classes.Words.{principal_name}
use freeipa_cloud_prov.Ipa.Classes.Queueing.{queue_method, mark}

abbrev pub of_kinds : Kind → List String → Dict ParamSpec
of_kinds kind [] = []
of_kinds kind (k ∷ ks) = (k, of_kind kind) ∷ of_kinds kind ks

abbrev pub user_spec : ClassSpec
user_spec = record {
  name = "user";
  methods = base_methods;
  kw_args =
      of_kinds str_kind (
        "uid" ∷ "givenname" ∷ "sn" ∷ "cn" ∷ "displayname" ∷ "initials" ∷ "homedirectory" ∷ "gecos"
        ∷ "loginshell" ∷ [])
      ++ (("mail", of_kind list_kind)
          ∷ ("userpassword", of_kind str_kind)
          ∷ ("gidnumber", of_kind int_kind)
          ∷ [])
      ++ of_kinds str_kind ("street" ∷ "l" ∷ "st" ∷ "postalcode" ∷ [])
      ++ of_kinds list_kind ("telephonenumber" ∷ "mobile" ∷ "pager" ∷ "fax" ∷ [])
      ++ of_kinds str_kind (
          "orgunit" ∷ "title" ∷ "manager" ∷ "carlicense" ∷ "ipasshpubkey" ∷ "user_auth_type"
          ∷ "category" ∷ "radius" ∷ "radius_username" ∷ "departmentnumber" ∷ "employeenumber"
          ∷ "employeetype" ∷ "preferredlanguage" ∷ [])
      ++ (("nsaccountlock", record { kind = bool_kind; default = some (atom (bool false)) })
          ∷ ("usercertificate", of_kind list_kind)
          ∷ ("krbprincipalname", of_kind list_kind)
          ∷ []);
  param_keys = "uid" ∷ [];
  own_base_keys = some (
      "givenname" ∷ "sn" ∷ "cn" ∷ "displayname" ∷ "initials" ∷ "homedirectory" ∷ "gecos"
      ∷ "loginshell" ∷ "mail" ∷ "userpassword" ∷ "gidnumber" ∷ "street" ∷ "l" ∷ "st" ∷ "postalcode"
      ∷ "telephonenumber" ∷ "mobile" ∷ "pager" ∷ "fax" ∷ "orgunit" ∷ "title" ∷ "manager"
      ∷ "carlicense" ∷ "ipasshpubkey" ∷ "user_auth_type" ∷ "category" ∷ "radius" ∷ "radius_username"
      ∷ "departmentnumber" ∷ "employeenumber" ∷ "employeetype" ∷ "preferredlanguage" ∷ []);
}

abbrev pub user_enable : EnableSpec
user_enable = record { enablekey = "nsaccountlock"; sense_inverted = true }

-- `for v in value`: the letters of a text, the keys of a dict
abbrev key_of : String × List Atom → Atom
key_of (k, _) = str k

unfoldable pub elements : Value → Result Failure (List Atom)
elements (list xs) = ok xs
elements (table t) = ok (map key_of t)
elements (atom (str s)) = ok (letters s)
elements (atom (wrapped k _)) = ok (str k ∷ [])
elements (atom (nested t)) = ok (map (λ e. str (e.0)) t)
elements (atom null) = err type_error
elements (atom (bool _)) = err type_error
elements (atom (int _)) = err type_error

-- The certificate in `{'__base64__': …}`
abbrev pub plain : Atom → Atom
plain (wrapped k s) = if k == "__base64__" then str s else wrapped k s
plain a = a

abbrev pub put_certificates : Option Value → Dict Value → Result Failure (Dict Value)
put_certificates none response = ok response
put_certificates (some v) response = elements v >>=ᵣ λ xs.
    ok (set "usercertificate" (list (map plain xs)) (erase "usercertificate" response))

-- `munge_response_usercertificate`
unfoldable pub user_certificates : Dict Value → Result Failure (Dict Value)
user_certificates response = put_certificates (get "usercertificate" response) response

-- `if name in xs: xs.remove(name)`
unfoldable pub drop_first : Value → List Atom → List Atom
drop_first v [] = []
drop_first v (x ∷ xs) = let rest = drop_first v xs in if same_value (atom x) v then xs else x ∷ rest

abbrev pub drop_canonical : Option Value → List Atom → List Atom
drop_canonical none xs = xs
drop_canonical (some (atom null)) xs = xs
drop_canonical (some v) xs = drop_first v xs

-- `krbprincipal_re.match` takes a text only.
unfoldable pub short_names : List Atom → Result Failure (List Atom)
short_names [] = ok []
short_names (str s ∷ xs) = short_names xs >>=ᵣ λ rest. ok (str (principal_name s) ∷ rest)
short_names (_ ∷ xs) = err type_error

-- A reply has a list there; the assignment to an element refuses a text, `enumerate` a scalar.
abbrev pub put_principals : Option Value → Dict Value → Result Failure (Dict Value)
put_principals none response = ok response
put_principals (some (list xs)) response =
    short_names (drop_canonical (get "krbcanonicalname" response) xs) >>=ᵣ λ names.
    ok (set "krbprincipalname" (list names) response)
put_principals (some _) response = err type_error

-- `munge_response_krbprincipalname`
unfoldable pub user_principals : Dict Value → Result Failure (Dict Value)
user_principals response = put_principals (get "krbprincipalname" response) response

unfoldable pub user_munge_response : Task → Dict Value → Result Failure (Dict Value)
user_munge_response t response = user_certificates response >>=ᵣ λ with_certs.
    user_principals with_certs >>=ᵣ λ with_names.
    base_munge_response (enablable_spec user_spec user_enable) t with_names

abbrev pub user_client : Client
user_client = record (enablable_client user_spec user_enable) {
  munge_response = user_munge_response;
}

-- `{'__base64__': c}`; only a text can be the value
abbrev pub wrap_cert : Atom → Atom
wrap_cert (str s) = wrapped "__base64__" s
wrap_cert a = a

module _ (t : Task) where
  -- One round of the loop of `handle_cert`.
  unfoldable pub queue_certs : String → Option (List Atom) → M (Unit {0})
  queue_certs method none = pure tt
  queue_certs method (some certs) = do
    mark
    if t.check_mode
        then pure tt
        else queue_method method method (user_client.mod_request_params t)
            (("all", true_value) ∷ ("usercertificate", list (map wrap_cert certs)) ∷ [])

  unfoldable pub handle_cert : M Bool
  handle_cert = do
    diffs ← gets (λ r. r.diffs)
    queue_certs "user_add_cert" (get "usercertificate" diffs.list_add)
    queue_certs "user_remove_cert" (get "usercertificate" diffs.list_del)
    pure false

  -- One round of the loop of `handle_principal`.
  unfoldable pub queue_principals : String → Option (List Atom) → M (Unit {0})
  queue_principals method none = pure tt
  queue_principals method (some names) =
      if t.check_mode
      then pure tt
      else queue_method method method
          (base_mod_request_params (enablable_spec user_spec user_enable) (list names ∷ []) t)
          (("all", true_value) ∷ [])

  unfoldable pub handle_principal : M Bool
  handle_principal = do
    diffs ← gets (λ r. r.diffs)
    queue_principals "user_add_principal" (get "krbprincipalname" diffs.list_add)
    queue_principals "user_remove_principal" (get "krbprincipalname" diffs.list_del)
    pure false

  abbrev pub user_changes : List (M Bool)
  user_changes =
      enablable_changes user_client user_enable t ++ (handle_cert ∷ handle_principal ∷ [])
