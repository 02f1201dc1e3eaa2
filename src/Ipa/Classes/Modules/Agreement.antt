-- ===== src/Ipa/Classes/Modules/Agreement.antt =====
-- Check mode against real runs, for the modules whose change functions mark what they would do:
-- lib/modules/ipa_dnsrecord.py, ipa_ca.py, ipa_group.py, ipa_cert.py, ipa_dnszone.py and
-- ipa_caacl.py.
use mathlib.Core.Path.{fun_ext}
use mathlib.Core.List.{append-nil}
use freeipa_cloud_prov.Prelude.{
  not, String, sym, none, some, ◌≡◌, ◌≢◌, refl, ◌∙◌, Bool, true, false, ◌||◌, Option, List, [], ◌∷◌,
  ◌++◌, arith,
}
use freeipa_cloud_prov.Result.{ok}
use freeipa_cloud_prov.Ipa.Client.{absent, Task, State}
use freeipa_cloud_prov.Dict.{Dict}
use freeipa_cloud_prov.Ipa.Values.{Value}
use freeipa_cloud_prov.Ipa.Session.{Entry, Payload, Reply, Server, Run}
use freeipa_cloud_prov.Ipa.Hooks.{
  Client, base_munge_module_params, base_find_request_item, base_munge_response,
  base_mod_request_params,
}
use freeipa_cloud_prov.Ipa.Ensure.{
  find_request, find_response, find, queue_change, add_or_mod, rem, queue_requests,
}
use freeipa_cloud_prov.Ipa.Ensure.Prediction.{active, Alike, Alike-[], Alike-cons, main_predicted}
use freeipa_cloud_prov.Ipa.Ensure.Runs.{rem-settled}
use freeipa_cloud_prov.Ipa.Enablable.{
  EnableSpec, asks_flag, enable_or_disable, enablable_munge_module_params,
}
use freeipa_cloud_prov.Ipa.Classes.Zone.{dnszone_client, dnszone_enable}
use freeipa_cloud_prov.Ipa.Classes.Caacl.{
  caacl_client, caacl_enable, caacl_munge_response, add_remove_list_items,
}
use freeipa_cloud_prov.Ipa.Classes.Caacl.Agreement.{add_remove_list_items-Alike}
use freeipa_cloud_prov.Ipa.Classes.Record.{
  record_zone, is_origin, record_find_item, record_filter, record_mod_params,
}
use freeipa_cloud_prov.Ipa.Classes.Group.{handle_members}
use freeipa_cloud_prov.Ipa.Classes.Group.Members.{
  member_entries, is_there, added, removed, handle_members_entries,
}
use freeipa_cloud_prov.Ipa.Classes.Cert.{
  cert_munge_module_params, cert_mod_request_params, cert_find_request_item, cert_munge_response,
  cert_compute_changes,
}
use freeipa_cloud_prov.Ipa.Classes.Modules.{
  Module, dnszone, dnsrecord, ca, group, caacl, service, user, cert, run_module,
}
use freeipa_cloud_prov.Ipa.Classes.Modules.Runs.{
  client_of, extra_of, changes_of-AllQuiet, run_module-main,
}

-- The modules whose change functions mark in check mode what they would do; those of a zone and of
-- an ACL do, but for the state that enables or disables.
abbrev pub marks_all : Module → State → Bool
marks_all dnsrecord s = true
marks_all ca s = true
marks_all group s = true
marks_all cert s = true
marks_all dnszone s = not (asks_flag s)
marks_all caacl s = not (asks_flag s)
marks_all service s = false
marks_all user s = false

-- A task, in check mode or not.
abbrev pub asked : State → Dict Value → Bool → Task
asked s params check_mode = record { state = s; check_mode = check_mode; params = params }

-- A marked change counts whether or not its request is queued.
active_members :
    (r : Run) (es fs : List Entry) (b c : Bool)
    → (b ≡ false → es ≡ [])
    → (c ≡ false → fs ≡ [])
    → active (record r { changed = b || (c || r.changed) })
      ≡ active (record r { requests = (r.requests ++ es) ++ fs; changed = b || (c || r.changed) })
active_members r es fs true c he hf = refl
active_members r es fs false true he hf = refl
active_members r es fs false false he hf =
    rw (he refl, hf refl) (rw (append-nil r.requests) (rw (append-nil r.requests) refl))

no_member_entries :
    (t : Task) (method : String) (o : Option (Dict Value))
    → is_there o ≡ false
    → member_entries t method o ≡ []
no_member_entries t method none h = refl
no_member_entries t method (some item) h = ground arith

false_of_not : (b : Bool) → not b ≡ true → b ≡ false
false_of_not b h = ground arith

-- Without a state that enables or disables, `enable_or_disable` does not regard check mode.
enable_or_disable_same :
    (c : Client) (x : EnableSpec) (params : Dict Value) (s : State)
    → asks_flag s ≡ false
    → enable_or_disable c x (asked s params false) ≡ enable_or_disable c x (asked s params true)
unfolding enable_or_disable
enable_or_disable_same c x params State.present h = refl
enable_or_disable_same c x params absent h = refl
enable_or_disable_same c x params State.exact h = refl
enable_or_disable_same c x params State.enabled h = ground arith
enable_or_disable_same c x params State.disabled h = ground arith

module _ (s : State) (params : Dict Value) where
  abbrev real : Task
  real = asked s params false

  abbrev dry : Task
  dry = asked s params true

  handle_members-Alike : Alike (handle_members real ∷ []) (handle_members dry ∷ [])
  unfolding queue_requests
  handle_members-Alike r h =
      rw (handle_members_entries real r, handle_members_entries dry r)
        (
          refl,
          active_members r _ _ _ _ (no_member_entries real _ (added real r))
              (no_member_entries real _ (removed real r)),
        )

  find_same :
      (m : Module) (server : Server)
      → marks_all m s ≡ true
      → find (client_of m) real server ≡ find (client_of m) dry server
  unfolding find find_request find_response base_munge_module_params base_find_request_item
      base_munge_response record_zone record_find_item record_filter is_origin
      cert_munge_module_params cert_find_request_item cert_munge_response cert_compute_changes
      enablable_munge_module_params caacl_munge_response
  find_same dnsrecord server h = refl
  find_same ca server h = refl
  find_same group server h = refl
  find_same cert server h = refl
  find_same dnszone server h = refl
  find_same caacl server h = refl
  find_same service server h = ground arith
  find_same user server h = ground arith

  add_or_mod_same :
      (m : Module)
      → marks_all m s ≡ true
      → add_or_mod (client_of m) real ≡ add_or_mod (client_of m) dry
  unfolding add_or_mod queue_change base_mod_request_params record_mod_params
      cert_mod_request_params
  add_or_mod_same dnsrecord h = refl
  add_or_mod_same ca h = refl
  add_or_mod_same group h = refl
  add_or_mod_same cert h = refl
  add_or_mod_same dnszone h = refl
  add_or_mod_same caacl h = refl
  add_or_mod_same service h = ground arith
  add_or_mod_same user h = ground arith

  extra_of-Alike : (m : Module) → marks_all m s ≡ true → Alike (extra_of m real) (extra_of m dry)
  extra_of-Alike dnsrecord h = Alike-[]
  extra_of-Alike ca h = Alike-[]
  extra_of-Alike group h = handle_members-Alike
  extra_of-Alike cert h = Alike-[]
  extra_of-Alike dnszone h =
      Alike-cons _ _ [] []
        (enable_or_disable_same dnszone_client dnszone_enable params s (false_of_not _ h)) Alike-[]
  extra_of-Alike caacl h =
      Alike-cons _ _ (add_remove_list_items real ∷ []) (add_remove_list_items dry ∷ [])
        (enable_or_disable_same caacl_client caacl_enable params s (false_of_not _ h))
        (add_remove_list_items-Alike real dry refl refl)
  extra_of-Alike service h = ground arith
  extra_of-Alike user h = ground arith

  -- Where a run out of check mode of a DNS zone, a DNS record, a CA, a group, an ACL or a
  -- certificate succeeds, the same task in check mode succeeds too, on the same server, and reports
  -- a change exactly where the run does. The state is not `absent` and, for a zone and an ACL,
  -- neither `enabled` nor `disabled`.
  pub run_module-agrees :
      (m : Module) (password_reply : Reply) (server : Server) (out : Bool × Option Payload)
      → marks_all m s ≡ true
      → s ≢ absent
      → (run_module m real password_reply server).0 ≡ ok out
      → (p : Option Payload) × ((run_module m dry password_reply server).0 ≡ ok (out.0, p))
  run_module-agrees m password_reply server out marks h done =
      let c : Client = client_of m in
      let alike =
        Alike-cons (rem c real) (rem c dry) _ _
          (fun_ext (λ r. rem-settled c real r h ∙ sym (rem-settled c dry r h)))
          (Alike-cons (add_or_mod c real) (add_or_mod c dry) _ _ (add_or_mod_same m marks)
            (extra_of-Alike m marks)) in
      rw (run_module-main m dry password_reply server) (
        main_predicted c real dry server _ _ (find_same m server marks) refl alike
          (changes_of-AllQuiet m real) (changes_of-AllQuiet m dry) password_reply out
          (rw (run_module-main m real password_reply server) at done))
