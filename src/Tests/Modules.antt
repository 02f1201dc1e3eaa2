-- ===== src/Tests/Modules.antt =====
-- The theorems on the modules, applied to ca on a concrete server.
use freeipa_cloud_prov.Prelude.{
  Option, ◌≡◌, ◌≢◌, ◌⊎◌, refl, subst, true, false, none, some, [], ◌∷◌, arith, ltb, string_eq,
}
use freeipa_cloud_prov.Prelude.Lists.{length}
use freeipa_cloud_prov.Result.{ok}
use freeipa_cloud_prov.Dict.{Dict}
use freeipa_cloud_prov.Ipa.Values.{Atom, Value, atom, list, str, atom_eq, set_of, pos}
use freeipa_cloud_prov.Ipa.Client.{State, Task, method_name, find as find_key}
use freeipa_cloud_prov.Ipa.Clean.{
  clean, clean_list, clean_scalar, clean_value, clean_onto, munge_pop_request_keys,
  munge_state_exact_add_defaults,
}
use freeipa_cloud_prov.Ipa.Diff.{
  is_list_param, compute_changes, list_slice, scalar_slice, values_at, op, op_keys, list_add_of,
  list_del_of, scalars_of, set_scalars, reset_scalars,
}
use freeipa_cloud_prov.Ipa.Diff.Again.{AppliedToObject}
use freeipa_cloud_prov.Ipa.Session.{
  Payload, Request, object, objects, Server, replied, Run, start, login, post_json, read_body,
  read_reply,
}
use freeipa_cloud_prov.Ipa.Hooks.{
  base_munge_module_params, base_find_request_item, base_munge_response, base_mod_request_params,
}
use freeipa_cloud_prov.Ipa.Ensure.{
  change_item, mod_rewrite_list_changes, response_cleaned, exists, find_request, find_response,
  find, queue_change, add_or_mod, queue_removal, rem, post_entry, process_from, process_queue,
  queue_requests, last_response, report, ensure, main,
}
use freeipa_cloud_prov.Ipa.Ensure.Posts.{requests_of}
use freeipa_cloud_prov.Ipa.Ensure.Again.{found}
use freeipa_cloud_prov.Ipa.Classes.Ca.{ca_spec, ca_client, check_ca_request}
use freeipa_cloud_prov.Ipa.Classes.User.{user_client}
use freeipa_cloud_prov.Ipa.Classes.Modules.{ca, user, run_module}
use freeipa_cloud_prov.Ipa.Classes.Modules.Runs.{
  run_module-dry, run_module-in_order, run_module-reports,
}
use freeipa_cloud_prov.Ipa.Classes.Modules.Predicted.{predicting, run_module-predicts}
use freeipa_cloud_prov.Ipa.Classes.Modules.Agreement.{run_module-agrees}
use freeipa_cloud_prov.Ipa.Classes.Modules.Again.{run_module-again}
use freeipa_cloud_prov.Tests.Runs.{text, logged_in, server, describe}

described : (run_module ca (describe false) logged_in server).0 ≡ ok (true, some (object []))
unfolding run_module main login ensure find find_request find_response post_json read_reply
    read_body base_munge_module_params base_find_request_item base_munge_response
    base_mod_request_params clean clean_onto clean_value clean_list clean_scalar
    munge_pop_request_keys munge_state_exact_add_defaults compute_changes list_slice scalar_slice
    values_at op op_keys list_add_of list_del_of scalars_of set_scalars reset_scalars set_of
    string_eq atom_eq queue_requests rem add_or_mod change_item exists queue_change queue_removal
    response_cleaned mod_rewrite_list_changes check_ca_request process_queue process_from post_entry
    report
described = refl

run_module-in_order_example :
    (run_module ca (describe false) logged_in server).1.posted
    ≡ requests_of (run_module ca (describe false) logged_in server).1.requests
run_module-in_order_example =
    run_module-in_order ca (describe false) logged_in server (true, some (object [])) refl described

run_module-reports_example :
    true ≡ ltb 1 (length (run_module ca (describe false) logged_in server).1.posted)
run_module-reports_example =
    run_module-reports ca (describe false) logged_in server (true, some (object [])) refl described

run_module-dry_example :
    let r = (run_module ca (describe true) logged_in server).1 in
    (r.posted ≡ [])
    ⊎ ((q : Request) × (r.posted ≡ q ∷ []) × (q.method ≡ method_name ca_spec find_key))
run_module-dry_example = run_module-dry ca (describe true) logged_in server refl

run_module-predicts_example :
    run_module user (describe true) logged_in server
    ≡ main user_client
        (describe true)
        logged_in
        server
        (rem user_client (describe true)
          ∷ add_or_mod user_client (describe true)
          ∷ predicting user (describe true))
        start
run_module-predicts_example = run_module-predicts user (describe true) logged_in server refl

run_module-agrees_example :
    (p : Option Payload) × ((run_module ca (describe true) logged_in server).0 ≡ ok (true, p))
run_module-agrees_example =
    run_module-agrees State.present (("cn", text "vpn") ∷ ("description", text "new") ∷ []) ca
      logged_in server (true, some (object [])) refl (λ e. ground arith) described

-- The server after the description was set.
abbrev server_described : Server
server_described posted q = replied 200 "OK" (
    some (record {
      error = none;
      result = some (record {
        inner = some (objects ((("description", list (str "new" ∷ [])) ∷ []) ∷ []));
        count = some 1;
        others = [];
      });
    }))

-- The description that is wanted, in a state that also resets what is not given.
abbrev describe_exactly : Task
describe_exactly = record (describe false) { state = State.exact }

abbrev run_on : Server → Run
run_on there = (find ca_client describe_exactly there start).1

found_before : (find ca_client describe_exactly server start).0 ≡ ok tt
unfolding find find_request find_response post_json read_reply read_body base_munge_module_params
    base_find_request_item base_munge_response base_mod_request_params clean clean_onto clean_value
    clean_list clean_scalar munge_pop_request_keys munge_state_exact_add_defaults compute_changes
    list_slice scalar_slice values_at op op_keys list_add_of list_del_of scalars_of set_scalars
    reset_scalars set_of string_eq atom_eq
found_before = refl

found_after : (find ca_client describe_exactly server_described start).0 ≡ ok tt
unfolding find find_request find_response post_json read_reply read_body base_munge_module_params
    base_find_request_item base_munge_response base_mod_request_params clean clean_onto clean_value
    clean_list clean_scalar munge_pop_request_keys munge_state_exact_add_defaults compute_changes
    list_slice scalar_slice values_at op op_keys list_add_of list_del_of scalars_of set_scalars
    reset_scalars set_of string_eq atom_eq
found_after = refl

there_after : (exists ca_spec (run_on server_described)).0 ≡ ok true
unfolding find find_request find_response post_json read_reply read_body base_munge_module_params
    base_find_request_item base_munge_response base_mod_request_params clean clean_onto clean_value
    clean_list clean_scalar munge_pop_request_keys munge_state_exact_add_defaults compute_changes
    list_slice scalar_slice values_at op op_keys list_add_of list_del_of scalars_of set_scalars
    reset_scalars set_of string_eq atom_eq exists
there_after = refl

-- The defaults of the module's own parameters, which this state counts as changes.
abbrev own_defaults : Dict Value
own_defaults =
    ("state", text "present")
    ∷ ("ipa_prot", text "https")
    ∷ ("ipa_host", text "ipa.example.com")
    ∷ ("ipa_port", atom (Atom.int (pos 443)))
    ∷ ("ipa_user", text "admin")
    ∷ ("validate_certs", atom (Atom.bool true))
    ∷ []

diffs_before :
    (run_on server).diffs
    ≡ record { scalars = ("description", text "new") ∷ own_defaults; list_add = []; list_del = [] }
unfolding find find_request find_response post_json read_reply read_body base_munge_module_params
    base_find_request_item base_munge_response base_mod_request_params clean clean_onto clean_value
    clean_list clean_scalar munge_pop_request_keys munge_state_exact_add_defaults compute_changes
    list_slice scalar_slice values_at op op_keys list_add_of list_del_of scalars_of set_scalars
    reset_scalars set_of string_eq atom_eq
diffs_before = refl

cleaned_before : found (run_on server) ≡ ("description", text "old") ∷ []
unfolding find find_request find_response post_json read_reply read_body base_munge_module_params
    base_find_request_item base_munge_response base_mod_request_params clean clean_onto clean_value
    clean_list clean_scalar munge_pop_request_keys munge_state_exact_add_defaults compute_changes
    list_slice scalar_slice values_at op op_keys list_add_of list_del_of scalars_of set_scalars
    reset_scalars set_of string_eq atom_eq
cleaned_before = refl

cleaned_after : found (run_on server_described) ≡ ("description", text "new") ∷ []
unfolding find find_request find_response post_json read_reply read_body base_munge_module_params
    base_find_request_item base_munge_response base_mod_request_params clean clean_onto clean_value
    clean_list clean_scalar munge_pop_request_keys munge_state_exact_add_defaults compute_changes
    list_slice scalar_slice values_at op op_keys list_add_of list_del_of scalars_of set_scalars
    reset_scalars set_of string_eq atom_eq
cleaned_after = refl

description_is_scalar : is_list_param ca_spec "description" ≢ true
unfolding string_eq
description_is_scalar e = ground (arith, e)

description_set-AppliedToObject :
    AppliedToObject ca_spec
      (run_on server).diffs
      (found (run_on server))
      (found (run_on server_described))
description_set-AppliedToObject =
    rw (diffs_before, cleaned_before, cleaned_after)
      (record {
        lists = λ k v is_list. elim (string_eq.dec k "description") [
          | yes e ↦
              absurd (description_is_scalar (subst (λ j. is_list_param ca_spec j ≡ true) e is_list))
          | no n ↦ unfold values_at set_of in ground arith
        ];
        scalars = λ k own scalar. elim (string_eq.dec k "description") [
          | yes e ↦ ground (arith, e)
          | no n ↦ ground (arith, own)
        ];
      })

run_module-again_example :
    run_module ca describe_exactly logged_in server_described
    ≡ (ok (false, last_response (run_on server_described).requests), run_on server_described)
run_module-again_example =
    run_module-again ca describe_exactly server server_described logged_in (λ e. ground arith)
      (unfold login in refl) found_before found_after there_after description_set-AppliedToObject
