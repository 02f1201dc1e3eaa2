-- ===== src/Ipa/Classes/Modules/Predicted.antt =====
-- What check mode predicts for lib/modules/ipa_service.py and ipa_user.py.
use mathlib.Core.Path.{fun_ext}
use freeipa_cloud_prov.Prelude.{
  ◌≡◌, inl, inr, refl, ◌∙◌, String, Bool, true, false, Option, none, some, List, [], ◌∷◌, arith,
}
use freeipa_cloud_prov.Dict.{Dict}
use freeipa_cloud_prov.Result.{ok, Result-cases}
use freeipa_cloud_prov.Ipa.Values.{Atom, Value}
use freeipa_cloud_prov.Ipa.Client.{Task}
use freeipa_cloud_prov.Ipa.Diff.{Changes}
use freeipa_cloud_prov.Ipa.Session.{Request, Reply, Server, Run, M, start}
use freeipa_cloud_prov.Ipa.Hooks.{Client}
use freeipa_cloud_prov.Ipa.Ensure.{
  response_cleaned, find, add_or_mod, rem, queue_requests, ensure, main,
}
use freeipa_cloud_prov.Ipa.Ensure.Queue.{first?}
use freeipa_cloud_prov.Ipa.Ensure.Quiet.{IsQuiet, rem-IsQuiet, add_or_mod-IsQuiet}
use freeipa_cloud_prov.Ipa.Ensure.Posts.{find_ok}
use freeipa_cloud_prov.Ipa.Enablable.{EnableSpec, enable_or_disable}
use freeipa_cloud_prov.Ipa.Classes.Zone.{dnszone_client, dnszone_enable}
use freeipa_cloud_prov.Ipa.Classes.Group.{handle_members}
use freeipa_cloud_prov.Ipa.Classes.Group.Members.{handle_members-IsQuiet}
use freeipa_cloud_prov.Ipa.Classes.Caacl.{caacl_client, caacl_enable, add_remove_list_items}
use freeipa_cloud_prov.Ipa.Classes.Quiet.{add_remove_list_items-IsQuiet, handle_cert-IsQuiet}
use freeipa_cloud_prov.Ipa.Classes.Service.{
  queue_item, queue_hosts, handle_managedby_host, queue_keytabs, handle_allow_keytab,
}
use freeipa_cloud_prov.Ipa.Classes.User.{
  user_client, user_enable, handle_cert, queue_principals, handle_principal,
}
use freeipa_cloud_prov.Ipa.Classes.Modules.{
  Module, dnszone, dnsrecord, ca, group, caacl, service, user, cert, run_module,
}
use freeipa_cloud_prov.Ipa.Classes.Modules.Runs.{client_of, extra_of, run_module-main}

-- A change function that does nothing in a run that has found its object.
abbrev IsIdle : M Bool → Type 0
IsIdle f = (r : Run) (q : Request) → first? r.requests ≡ some q → f r ≡ (ok false, r)

-- One queue is another without some functions that do nothing.
data Drops (t : Task) : List (M Bool) → List (M Bool) → Type 0 where
  done : Drops t [] []
  keep :
      {f : M Bool} {fs gs : List (M Bool)} → IsQuiet t f → Drops t fs gs → Drops t (f ∷ fs) (f ∷ gs)
  drop_idle : {f : M Bool} {fs gs : List (M Bool)} → IsIdle f → Drops t fs gs → Drops t (f ∷ fs) gs

queue_requests-Drops :
    {t : Task} {fs gs : List (M Bool)} (r : Run) (q : Request)
    → Drops t fs gs
    → first? r.requests ≡ some q
    → queue_requests fs r ≡ queue_requests gs r
unfolding queue_requests
queue_requests-Drops r q done h = refl
queue_requests-Drops r q (drop_idle idle d) h = rw (idle r q h) (queue_requests-Drops r q d h)
queue_requests-Drops r q (keep {f} quiet d) h = elim (Result-cases (f r).0) [
  | inr (e, failed) ↦ rw failed
  | inl (true, stops) ↦ rw stops
  | inl (false, goes_on) ↦ rw goes_on (queue_requests-Drops (f r).1 q d (quiet.first r q h))
]

module _ (c : Client) (t : Task) (server : Server) {fs gs : List (M Bool)} (d : Drops t fs gs) where
  ensure-Drops : (r : Run) → ensure c t server fs r ≡ ensure c t server gs r
  unfolding ensure
  ensure-Drops r = elim (Result-cases (find c t server r).0) [
    | inr (e, failed) ↦ rw failed
    | inl (u, succeeds) ↦
        let (q, first, posted, is_find) = find_ok c t server r succeeds in
        rw succeeds (rw (queue_requests-Drops (find c t server r).1 q d first))
  ]

  main-Drops :
      (password_reply : Reply)
      → main c t password_reply server fs start ≡ main c t password_reply server gs start
  unfolding main
  main-Drops password_reply = rw (fun_ext ensure-Drops)

module _ (t : Task) (dry : t.check_mode ≡ true) where
  queue_item-dry :
      (method : String) (item whole : Dict Value) (r : Run)
      → queue_item t method item whole r ≡ (ok tt, r)
  unfolding queue_item
  queue_item-dry method item whole r = ground arith

  handle_managedby_host-dry : IsIdle (handle_managedby_host t)
  unfolding handle_managedby_host queue_hosts
  handle_managedby_host-dry r q h =
      rw (queue_item-dry "service_add_host" _ _ r) (rw (queue_item-dry "service_remove_host" _ _ r))

  queue_keytabs-dry :
      (diffs : Changes) (rows : List (Bool × String × String)) (r : Run)
      → queue_keytabs t diffs rows r ≡ (ok tt, r)
  unfolding queue_keytabs
  queue_keytabs-dry diffs [] r = refl
  queue_keytabs-dry diffs ((adds, method, mode) ∷ rows) r =
      rw (queue_item-dry method _ _ r) (queue_keytabs-dry diffs rows r)

  handle_allow_keytab-dry : IsIdle (handle_allow_keytab t)
  unfolding handle_allow_keytab
  handle_allow_keytab-dry r q h = rw (queue_keytabs-dry r.diffs _ r)

  queue_principals-dry :
      (method : String) (names : Option (List Atom)) (r : Run)
      → queue_principals t method names r ≡ (ok tt, r)
  unfolding queue_principals
  queue_principals-dry method none r = refl
  queue_principals-dry method (some names) r = rw dry

  handle_principal-dry : IsIdle (handle_principal t)
  unfolding handle_principal
  handle_principal-dry r q h =
      rw (queue_principals-dry "user_add_principal" _ r)
        (rw (queue_principals-dry "user_remove_principal" _ r))

  enable_or_disable-dry : (c : Client) (x : EnableSpec) → IsIdle (enable_or_disable c x t)
  unfolding enable_or_disable response_cleaned
  enable_or_disable-dry c x r q h = ground arith

-- The functions of a class that check mode runs as well, besides those of the base class.
abbrev pub predicting : Module → Task → List (M Bool)
predicting group t = handle_members t ∷ []
predicting caacl t = add_remove_list_items t ∷ []
predicting user t = handle_cert t ∷ []
predicting _ t = []

extra_of-Drops :
    (m : Module) (t : Task) → t.check_mode ≡ true → Drops t (extra_of m t) (predicting m t)
extra_of-Drops dnszone t dry =
    drop_idle (enable_or_disable-dry t dry dnszone_client dnszone_enable) done
extra_of-Drops dnsrecord t dry = done
extra_of-Drops ca t dry = done
extra_of-Drops group t dry = keep (handle_members-IsQuiet t) done
extra_of-Drops caacl t dry =
    drop_idle (enable_or_disable-dry t dry caacl_client caacl_enable)
      (keep (add_remove_list_items-IsQuiet t) done)
extra_of-Drops service t dry =
    drop_idle (handle_managedby_host-dry t dry) (drop_idle (handle_allow_keytab-dry t dry) done)
extra_of-Drops user t dry =
    drop_idle (enable_or_disable-dry t dry user_client user_enable)
      (keep (handle_cert-IsQuiet t) (drop_idle (handle_principal-dry t dry) done))
extra_of-Drops cert t dry = done

-- In check mode a run of any module is the one that calls, of the functions a class adds to `rem`
-- and `add_or_mod`, only `handle_members` of a group, `add_remove_list_items` of an ACL and
-- `handle_cert` of a user: the others make no difference to what is posted or reported.
pub run_module-predicts :
    (m : Module) (t : Task) (password_reply : Reply) (server : Server)
    → t.check_mode ≡ true
    → run_module m t password_reply server
      ≡ main
          (client_of m)
          t
          password_reply
          server
          (rem (client_of m) t ∷ add_or_mod (client_of m) t ∷ predicting m t)
          start
run_module-predicts m t password_reply server dry =
    let c : Client = client_of m in
    run_module-main m t password_reply server
    ∙ main-Drops c t server
        (keep (rem-IsQuiet c t) (keep (add_or_mod-IsQuiet c t) (extra_of-Drops m t dry)))
        password_reply
