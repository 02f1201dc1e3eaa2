-- ===== src/Ipa/Classes/Modules/Runs.antt =====
-- What the modules post and report, whatever the object, the parameters and the server are.
use freeipa_cloud_prov.Prelude.{◌≡◌, refl, ◌⊎◌, Bool, true, false, Option, List, [], ◌∷◌, ltb}
use freeipa_cloud_prov.Prelude.Lists.{length}
use freeipa_cloud_prov.Result.{ok}
use freeipa_cloud_prov.Ipa.Client.{method_name, find as find_key, Task}
use freeipa_cloud_prov.Ipa.Session.{Request, Payload, Reply, Server, M, start}
use freeipa_cloud_prov.Ipa.Hooks.{Client}
use freeipa_cloud_prov.Ipa.Ensure.{rem, add_or_mod, main}
use freeipa_cloud_prov.Ipa.Ensure.Quiet.{AllQuiet, base_changes-AllQuiet}
use freeipa_cloud_prov.Ipa.Ensure.Posts.{requests_of}
use freeipa_cloud_prov.Ipa.Ensure.Order.{posted-main_dry, main_posts_in_order}
use freeipa_cloud_prov.Ipa.Ensure.Reports.{main_reports}
use freeipa_cloud_prov.Ipa.Enablable.Flag.{enablable_changes-AllQuiet}
use freeipa_cloud_prov.Ipa.Classes.Zone.{dnszone_client, dnszone_enable}
use freeipa_cloud_prov.Ipa.Classes.Record.{dnsrecord_client}
use freeipa_cloud_prov.Ipa.Classes.Ca.{ca_client}
use freeipa_cloud_prov.Ipa.Classes.Group.{group_client, handle_members}
use freeipa_cloud_prov.Ipa.Classes.Group.Members.{group_changes-AllQuiet}
use freeipa_cloud_prov.Ipa.Classes.Caacl.{caacl_client, caacl_enable, add_remove_list_items}
use freeipa_cloud_prov.Ipa.Classes.Service.{
  service_client, handle_managedby_host, handle_allow_keytab,
}
use freeipa_cloud_prov.Ipa.Classes.User.{user_client, user_enable, handle_cert, handle_principal}
use freeipa_cloud_prov.Ipa.Enablable.{enable_or_disable}
use freeipa_cloud_prov.Ipa.Classes.Cert.{cert_client}
use freeipa_cloud_prov.Ipa.Classes.Quiet.{
  caacl_changes-AllQuiet, service_changes-AllQuiet, user_changes-AllQuiet,
}
use freeipa_cloud_prov.Ipa.Classes.Modules.{
  Module, dnszone, dnsrecord, ca, group, caacl, service, user, cert, run_module,
}

-- The class of a module.
abbrev pub client_of : Module → Client
client_of dnszone = dnszone_client
client_of dnsrecord = dnsrecord_client
client_of ca = ca_client
client_of group = group_client
client_of caacl = caacl_client
client_of service = service_client
client_of user = user_client
client_of cert = cert_client

-- The functions that the class adds to those of the base class.
abbrev pub extra_of : Module → Task → List (M Bool)
extra_of dnszone t = enable_or_disable dnszone_client dnszone_enable t ∷ []
extra_of group t = handle_members t ∷ []
extra_of caacl t = enable_or_disable caacl_client caacl_enable t ∷ add_remove_list_items t ∷ []
extra_of service t = handle_managedby_host t ∷ handle_allow_keytab t ∷ []
extra_of user t =
    enable_or_disable user_client user_enable t ∷ handle_cert t ∷ handle_principal t ∷ []
extra_of _ t = []

abbrev pub changes_of : Module → Task → List (M Bool)
changes_of m t = rem (client_of m) t ∷ add_or_mod (client_of m) t ∷ extra_of m t

pub changes_of-AllQuiet : (m : Module) (t : Task) → AllQuiet t (changes_of m t)
changes_of-AllQuiet dnszone t = enablable_changes-AllQuiet dnszone_client dnszone_enable t
changes_of-AllQuiet dnsrecord t = base_changes-AllQuiet dnsrecord_client t
changes_of-AllQuiet ca t = base_changes-AllQuiet ca_client t
changes_of-AllQuiet group t = group_changes-AllQuiet t
changes_of-AllQuiet caacl t = caacl_changes-AllQuiet t
changes_of-AllQuiet service t = service_changes-AllQuiet t
changes_of-AllQuiet user t = user_changes-AllQuiet t
changes_of-AllQuiet cert t = base_changes-AllQuiet cert_client t

pub run_module-main :
    (m : Module) (t : Task) (password_reply : Reply) (server : Server)
    → run_module m t password_reply server
      ≡ main
          (client_of m)
          t
          password_reply
          server
          (rem (client_of m) t ∷ add_or_mod (client_of m) t ∷ extra_of m t)
          start
unfolding run_module
run_module-main dnszone t password_reply server = refl
run_module-main dnsrecord t password_reply server = refl
run_module-main ca t password_reply server = refl
run_module-main group t password_reply server = refl
run_module-main caacl t password_reply server = refl
run_module-main service t password_reply server = refl
run_module-main user t password_reply server = refl
run_module-main cert t password_reply server = refl

module _ (m : Module) (t : Task) (password_reply : Reply) (server : Server) where
  -- In check mode a run of any module posts at most one request, and that is a find request,
  -- whether the run succeeds or not.
  pub run_module-dry :
      t.check_mode ≡ true
      → let r = (run_module m t password_reply server).1 in
        (r.posted ≡ [])
        ⊎ ((q : Request) × (r.posted ≡ q ∷ [])
            × (q.method ≡ method_name (client_of m).spec find_key))
  run_module-dry dry = rw (run_module-main m t password_reply server) (
      posted-main_dry (client_of m) t server (changes_of m t) (changes_of-AllQuiet m t)
        password_reply dry)

  -- A run of any module, out of check mode, that succeeds has posted each queued request once, in
  -- the order of the queue.
  pub run_module-in_order :
      (out : Bool × Option Payload)
      → t.check_mode ≡ false
      → (run_module m t password_reply server).0 ≡ ok out
      → let r = (run_module m t password_reply server).1 in r.posted ≡ requests_of r.requests
  run_module-in_order out real h = rw (run_module-main m t password_reply server) (
      main_posts_in_order (client_of m) t server (changes_of m t) (changes_of-AllQuiet m t)
        password_reply out real (rw (run_module-main m t password_reply server) at h))

  -- A run of any module, out of check mode, that succeeds reports a change exactly where it has
  -- posted more than one request.
  pub run_module-reports :
      (out : Bool × Option Payload)
      → t.check_mode ≡ false
      → (run_module m t password_reply server).0 ≡ ok out
      → out.0 ≡ ltb 1 (length (run_module m t password_reply server).1.posted)
  run_module-reports out real h = rw (run_module-main m t password_reply server) (
      main_reports (client_of m) t server (changes_of m t) (changes_of-AllQuiet m t) password_reply
        out real (rw (run_module-main m t password_reply server) at h))
