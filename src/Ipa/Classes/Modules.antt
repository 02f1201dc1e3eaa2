-- ===== src/Ipa/Classes/Modules.antt =====
-- The modules as they are run: `main` of each lib/modules/ipa_*.py.
pub mod Runs
pub mod Agreement
pub mod Again
pub mod Predicted
use freeipa_cloud_prov.Prelude.{Bool, Option, List, [], ◌∷◌, ◌++◌}
use freeipa_cloud_prov.Result.{Result}
use freeipa_cloud_prov.Ipa.Values.{Failure}
use freeipa_cloud_prov.Ipa.Client.{Task}
use freeipa_cloud_prov.Ipa.Session.{Payload, Reply, Server, Run, M, start}
use freeipa_cloud_prov.Ipa.Hooks.{Client}
use freeipa_cloud_prov.Ipa.Ensure.{base_changes, main}
use freeipa_cloud_prov.Ipa.Enablable.{enablable_changes}
use freeipa_cloud_prov.Ipa.Classes.Zone.{dnszone_client, dnszone_changes}
use freeipa_cloud_prov.Ipa.Classes.Record.{dnsrecord_client}
use freeipa_cloud_prov.Ipa.Classes.Ca.{ca_client}
use freeipa_cloud_prov.Ipa.Classes.Group.{group_client, group_changes}
use freeipa_cloud_prov.Ipa.Classes.Caacl.{caacl_client, caacl_changes}
use freeipa_cloud_prov.Ipa.Classes.Service.{service_client, service_changes}
use freeipa_cloud_prov.Ipa.Classes.User.{user_client, user_changes}
use freeipa_cloud_prov.Ipa.Classes.Cert.{cert_client}

module _ (t : Task) (password_reply : Reply) (server : Server) where
  -- A module makes one object of its class and runs it.
  abbrev outcome : Client → List (M Bool) → Result Failure (Bool × Option Payload) × Run
  outcome c changes = main c t password_reply server changes start

  abbrev dnszone_main : Result Failure (Bool × Option Payload) × Run
  dnszone_main = outcome dnszone_client (dnszone_changes t)

  abbrev dnsrecord_main : Result Failure (Bool × Option Payload) × Run
  dnsrecord_main = outcome dnsrecord_client (base_changes dnsrecord_client t)

  abbrev ca_main : Result Failure (Bool × Option Payload) × Run
  ca_main = outcome ca_client (base_changes ca_client t)

  abbrev group_main : Result Failure (Bool × Option Payload) × Run
  group_main = outcome group_client (group_changes t)

  abbrev caacl_main : Result Failure (Bool × Option Payload) × Run
  caacl_main = outcome caacl_client (caacl_changes t)

  abbrev pub service_main : Result Failure (Bool × Option Payload) × Run
  service_main = outcome service_client (service_changes t)

  abbrev user_main : Result Failure (Bool × Option Payload) × Run
  user_main = outcome user_client (user_changes t)

  abbrev cert_main : Result Failure (Bool × Option Payload) × Run
  cert_main = outcome cert_client (base_changes cert_client t)

pub data Module : Type 0 where
  dnszone dnsrecord ca group caacl service user cert : Module

-- The module that a task names.
unfoldable pub run_module :
    Module → Task → Reply → Server → Result Failure (Bool × Option Payload) × Run
run_module dnszone t = dnszone_main t
run_module dnsrecord t = dnsrecord_main t
run_module ca t = ca_main t
run_module group t = group_main t
run_module caacl t = caacl_main t
run_module service t = service_main t
run_module user t = user_main t
run_module cert t = cert_main t
