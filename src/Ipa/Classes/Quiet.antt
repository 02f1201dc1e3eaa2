-- ===== src/Ipa/Classes/Quiet.antt =====
-- The change functions that single classes add: lib/modules/ipa_caacl.py, ipa_service.py and
-- ipa_user.py.
use freeipa_cloud_prov.Prelude.{
  String, Bool, Option, none, some, List, [], ◌∷◌, arith, if◌then◌else◌,
}
use freeipa_cloud_prov.Dict.{Dict}
use freeipa_cloud_prov.Result.{Result}
use freeipa_cloud_prov.Exec.{pure, ◌>>◌}
use freeipa_cloud_prov.Ipa.Values.{Atom, Value, Failure}
use freeipa_cloud_prov.Ipa.Client.{Task}
use freeipa_cloud_prov.Ipa.Diff.{Changes}
use freeipa_cloud_prov.Ipa.Ensure.Queue.{first-append}
use freeipa_cloud_prov.Ipa.Ensure.Quiet.{
  tracks-append, IsQuiet, IsQuiet-then, IsQuiet-if, IsQuiet-pure, rem-IsQuiet, add_or_mod-IsQuiet,
  AllQuiet, quiet,
}
use freeipa_cloud_prov.Ipa.Enablable.Flag.{enable_or_disable-IsQuiet}
use freeipa_cloud_prov.Ipa.Classes.Queueing.{queue_method, mark}
use freeipa_cloud_prov.Ipa.Classes.Caacl.{
  caacl_client, caacl_enable, queue_items, queue_each, add_remove_list_items, caacl_changes,
}
use freeipa_cloud_prov.Ipa.Classes.Service.{
  service_client, queue_item, queue_hosts, handle_managedby_host, queue_keytabs,
  handle_allow_keytab, service_changes,
}
use freeipa_cloud_prov.Ipa.Classes.User.{
  user_client, user_enable, queue_certs, handle_cert, queue_principals, handle_principal,
  user_changes,
}

module _ (t : Task) (method name : String) (params : Result Failure (List Value))
    (item : Dict Value) where
  queue_method-IsQuiet : IsQuiet t (queue_method method name params item)
  unfolding queue_method
  queue_method-IsQuiet = record {
    at = λ r. ground arith;
    first = λ r q h. ground (arith, first-append r.requests q);
    honest = λ r a real done h. ground (arith, tracks-append r.requests);
  }

  -- A request that is marked first; in check mode the mark is all.
  marked-IsQuiet :
      IsQuiet t (mark >> (if t.check_mode then pure tt else queue_method method name params item))
  unfolding queue_method mark
  marked-IsQuiet = record {
    at = λ r. ground arith;
    first = λ r q h. ground (arith, first-append r.requests q);
    honest = λ r a real done h. ground (arith, tracks-append r.requests);
  }

module _ (t : Task) where
  queue_items-IsQuiet :
      (op method : String) (item : Dict Value) → IsQuiet t (queue_items t op method item)
  unfolding queue_items
  queue_items-IsQuiet op method item = IsQuiet-if t _ (IsQuiet-pure t tt) (marked-IsQuiet t _ _ _ _)

  queue_each-IsQuiet :
      (op : String) (changes : Dict (List Atom)) (methods : List (String × List String))
      → IsQuiet t (queue_each t op changes methods)
  unfolding queue_each
  queue_each-IsQuiet op changes [] = IsQuiet-pure t tt
  queue_each-IsQuiet op changes ((method, attrs) ∷ methods) =
      IsQuiet-then t (queue_items-IsQuiet op method _) (queue_each-IsQuiet op changes methods)

  pub add_remove_list_items-IsQuiet : IsQuiet t (add_remove_list_items t)
  unfolding add_remove_list_items
  add_remove_list_items-IsQuiet = search (quiet, queue_each-IsQuiet)

  queue_item-IsQuiet :
      (method : String) (item whole : Dict Value) → IsQuiet t (queue_item t method item whole)
  unfolding queue_item
  queue_item-IsQuiet method item whole =
      IsQuiet-if t _ (IsQuiet-pure t tt) (queue_method-IsQuiet t _ _ _ _)

  handle_managedby_host-IsQuiet : IsQuiet t (handle_managedby_host t)
  unfolding handle_managedby_host queue_hosts
  handle_managedby_host-IsQuiet = search (quiet, queue_item-IsQuiet)

  queue_keytabs-IsQuiet :
      (diffs : Changes) (rows : List (Bool × String × String))
      → IsQuiet t (queue_keytabs t diffs rows)
  unfolding queue_keytabs
  queue_keytabs-IsQuiet diffs [] = IsQuiet-pure t tt
  queue_keytabs-IsQuiet diffs ((adds, method, mode) ∷ rows) =
      IsQuiet-then t (queue_item-IsQuiet method _ _) (queue_keytabs-IsQuiet diffs rows)

  handle_allow_keytab-IsQuiet : IsQuiet t (handle_allow_keytab t)
  unfolding handle_allow_keytab
  handle_allow_keytab-IsQuiet = search (quiet, queue_keytabs-IsQuiet)

  queue_certs-IsQuiet :
      (method : String) (certs : Option (List Atom)) → IsQuiet t (queue_certs t method certs)
  unfolding queue_certs
  queue_certs-IsQuiet method none = IsQuiet-pure t tt
  queue_certs-IsQuiet method (some certs) = marked-IsQuiet t _ _ _ _

  pub handle_cert-IsQuiet : IsQuiet t (handle_cert t)
  unfolding handle_cert
  handle_cert-IsQuiet = search (quiet, queue_certs-IsQuiet)

  queue_principals-IsQuiet :
      (method : String) (names : Option (List Atom)) → IsQuiet t (queue_principals t method names)
  unfolding queue_principals
  queue_principals-IsQuiet method none = IsQuiet-pure t tt
  queue_principals-IsQuiet method (some names) =
      IsQuiet-if t _ (IsQuiet-pure t tt) (queue_method-IsQuiet t _ _ _ _)

  handle_principal-IsQuiet : IsQuiet t (handle_principal t)
  unfolding handle_principal
  handle_principal-IsQuiet = search (quiet, queue_principals-IsQuiet)

  pub caacl_changes-AllQuiet : AllQuiet t (caacl_changes t)
  caacl_changes-AllQuiet = (
    rem-IsQuiet caacl_client t,
    (
      add_or_mod-IsQuiet caacl_client t,
      (enable_or_disable-IsQuiet caacl_client caacl_enable t, (add_remove_list_items-IsQuiet, tt)),
    ),
  )

  pub service_changes-AllQuiet : AllQuiet t (service_changes t)
  service_changes-AllQuiet = (
    rem-IsQuiet service_client t,
    (
      add_or_mod-IsQuiet service_client t,
      (handle_managedby_host-IsQuiet, (handle_allow_keytab-IsQuiet, tt)),
    ),
  )

  pub user_changes-AllQuiet : AllQuiet t (user_changes t)
  user_changes-AllQuiet = (
    rem-IsQuiet user_client t,
    (
      add_or_mod-IsQuiet user_client t,
      (
        enable_or_disable-IsQuiet user_client user_enable t,
        (handle_cert-IsQuiet, (handle_principal-IsQuiet, tt)),
      ),
    ),
  )
