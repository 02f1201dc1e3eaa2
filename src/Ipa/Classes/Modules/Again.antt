-- ===== src/Ipa/Classes/Modules/Again.antt =====
-- Second runs of the modules.
use freeipa_cloud_prov.Prelude.{◌≡◌, ◌≢◌, refl, sym, ap, subst, ◌∙◌, true, false, arith, string_eq}
use freeipa_cloud_prov.Dict.{Dict, has}
use freeipa_cloud_prov.Result.{ok, >>=-eq-ok, ok_unique}
use freeipa_cloud_prov.Ipa.Values.{null, Value, atom}
use freeipa_cloud_prov.Ipa.Client.{
  State, absent, exact, enabled, disabled, present, ClassSpec, argument_spec, standard_params,
  base_keys, Task,
}
use freeipa_cloud_prov.Ipa.Clean.NoNull.{
  IsClean, set-IsClean, erase-IsClean, gives_defaults, base_munge_module_params-IsClean,
}
use freeipa_cloud_prov.Ipa.Diff.{Changes, compute_changes}
use freeipa_cloud_prov.Ipa.Diff.Again.{AppliedToObject}
use freeipa_cloud_prov.Ipa.Session.{Reply, Server, Run, login, start}
use freeipa_cloud_prov.Ipa.Hooks.{Client, base_munge_module_params}
use freeipa_cloud_prov.Ipa.Ensure.{find, exists, last_response}
use freeipa_cloud_prov.Ipa.Ensure.Runs.{IsSettled, AllSettled, no_standard}
use freeipa_cloud_prov.Ipa.Ensure.Again.{found, IsRegular, main_again}
use freeipa_cloud_prov.Ipa.Enablable.{
  EnableSpec, enablable_munge_module_params, put_flag, enable_or_disable,
}
use freeipa_cloud_prov.Ipa.Classes.Zone.{dnszone_client, dnszone_enable}
use freeipa_cloud_prov.Ipa.Classes.Record.{dnsrecord_client}
use freeipa_cloud_prov.Ipa.Classes.Ca.{ca_client}
use freeipa_cloud_prov.Ipa.Classes.Group.{group_client, members_item, queue_members, handle_members}
use freeipa_cloud_prov.Ipa.Classes.Caacl.{
  caacl_client, caacl_enable, queue_items, queue_each, add_remove_list_items,
}
use freeipa_cloud_prov.Ipa.Classes.Service.{
  service_client, queue_item, queue_hosts, handle_managedby_host, queue_keytabs,
  handle_allow_keytab,
}
use freeipa_cloud_prov.Ipa.Classes.User.{
  user_client, user_enable, queue_certs, handle_cert, queue_principals, handle_principal,
}
use freeipa_cloud_prov.Ipa.Classes.Queueing.{pick, item_at}
use freeipa_cloud_prov.Ipa.Classes.Cert.{
  cert_spec, cert_client, subject_to_principal, cert_munge_module_params, cert_compute_changes,
  drop_scalars,
}
use freeipa_cloud_prov.Ipa.Classes.Modules.{
  Module, dnszone, dnsrecord, ca, group, caacl, service, user, cert, run_module,
}
use freeipa_cloud_prov.Ipa.Classes.Modules.Runs.{client_of, extra_of, run_module-main}

module _ (t : Task) where
  enable_or_disable-IsSettled :
      (c : Client) (x : EnableSpec)
      → has x.enablekey standard_params ≡ false
      → IsSettled (enable_or_disable c x t)
  unfolding enable_or_disable
  enable_or_disable-IsSettled c x own r h = rw (h.no_scalar x.enablekey own)

  handle_members-IsSettled : IsSettled (handle_members t)
  unfolding handle_members queue_members members_item
  handle_members-IsSettled r h = rw (h.no_addition, h.no_removal)

  add_remove_list_items-IsSettled : IsSettled (add_remove_list_items t)
  unfolding add_remove_list_items queue_each queue_items pick
  add_remove_list_items-IsSettled r h = rw (h.no_addition, h.no_removal)

  handle_managedby_host-IsSettled : IsSettled (handle_managedby_host t)
  unfolding handle_managedby_host queue_hosts queue_item pick
  handle_managedby_host-IsSettled r h = rw (h.no_addition, h.no_removal)

  handle_allow_keytab-IsSettled : IsSettled (handle_allow_keytab t)
  unfolding handle_allow_keytab queue_keytabs queue_item pick
  handle_allow_keytab-IsSettled r h = rw (h.no_addition, h.no_removal)

  handle_cert-IsSettled : IsSettled (handle_cert t)
  unfolding handle_cert queue_certs
  handle_cert-IsSettled r h = rw (h.no_addition, h.no_removal)

  handle_principal-IsSettled : IsSettled (handle_principal t)
  unfolding handle_principal queue_principals
  handle_principal-IsSettled r h = rw (h.no_addition, h.no_removal)

module _ (c : ClassSpec) (x : EnableSpec) (t : Task) where
  put_flag-IsClean : (s : State) (d : Dict Value) → IsClean d → IsClean (put_flag x s d)
  put_flag-IsClean enabled d clean = set-IsClean _ _ d (λ e. ground arith) clean
  put_flag-IsClean disabled d clean = set-IsClean _ _ d (λ e. ground arith) clean
  put_flag-IsClean present d clean = clean
  put_flag-IsClean absent d clean = clean
  put_flag-IsClean exact d clean = clean

  enablable_munge-IsClean :
      (canon : Dict Value)
      → gives_defaults (argument_spec c) ≡ true
      → enablable_munge_module_params c x t ≡ ok canon
      → IsClean canon
  unfolding enablable_munge_module_params
  enablable_munge-IsClean canon given h =
      let (item, hi, rest) = >>=-eq-ok (base_munge_module_params c t) _ h in
      subst IsClean (ok_unique _ rest refl)
        (put_flag-IsClean t.state item (base_munge_module_params-IsClean c t item given hi))

module _ (c : Client) (t : Task) (given : gives_defaults (argument_spec c.spec) ≡ true)
    (computes : c.compute_changes_
      ≡ (λ task change curr. compute_changes c.spec task.state change curr)) where
  -- A class that overrides neither method, and one that is enabled and disabled.
  base-IsRegular : c.munge_module_params ≡ base_munge_module_params c.spec → IsRegular c t
  base-IsRegular munges = record {
    munged = λ canon h. base_munge_module_params-IsClean c.spec t canon given (rw munges at h);
    computed = λ change curr ch h e. rw computes at e;
  }

  enablable-IsRegular :
      (x : EnableSpec)
      → c.munge_module_params ≡ enablable_munge_module_params c.spec x
      → IsRegular c t
  enablable-IsRegular x munges = record {
    munged = λ canon h. enablable_munge-IsClean c.spec x t canon given (rw munges at h);
    computed = λ change curr ch h e. rw computes at e;
  }

text-not_null : (v p : Value) → subject_to_principal v ≡ ok p → p ≢ atom null
unfolding subject_to_principal
text-not_null v p h e = ground arith

cert-IsRegular :
    (t : Task) → gives_defaults (argument_spec cert_spec) ≡ true → IsRegular cert_client t
unfolding cert_munge_module_params cert_compute_changes
cert-IsRegular t given = record {
  munged = λ canon h.
      let (item, hi, rest) = >>=-eq-ok (base_munge_module_params cert_spec t) _ h in
      let (subject, hs, rest1) = >>=-eq-ok (item_at "principal" item) _ rest in
      let (principal, hp, rest2) = >>=-eq-ok (subject_to_principal subject) _ rest1 in
      subst IsClean (ok_unique _ rest2 refl) (
        set-IsClean "principal" principal _ (text-not_null subject principal hp) (
          erase-IsClean "principal" item
            (base_munge_module_params-IsClean cert_spec t item given hi)));
  computed = λ change curr ch h e.
      let (ch0, h0, rest) = >>=-eq-ok (compute_changes cert_spec t.state change curr) _ e in
      h0 ∙ ap ok (sym (kept t.state ch0 h)) ∙ rest;
}
  where
    kept : (s : State) (ch : Changes) → s ≢ absent → drop_scalars s ch ≡ ch
    kept absent ch h = absurd (h refl)
    kept _ ch h = refl

client_of-IsRegular : (m : Module) (t : Task) → IsRegular (client_of m) t
unfolding string_eq
client_of-IsRegular dnszone t = enablable-IsRegular dnszone_client t refl refl dnszone_enable refl
client_of-IsRegular dnsrecord t = base-IsRegular dnsrecord_client t refl refl refl
client_of-IsRegular ca t = base-IsRegular ca_client t refl refl refl
client_of-IsRegular group t = base-IsRegular group_client t refl refl refl
client_of-IsRegular caacl t = enablable-IsRegular caacl_client t refl refl caacl_enable refl
client_of-IsRegular service t = base-IsRegular service_client t refl refl refl
client_of-IsRegular user t = enablable-IsRegular user_client t refl refl user_enable refl
client_of-IsRegular cert t = cert-IsRegular t refl

base_keys-no_standard : (m : Module) → no_standard (base_keys (client_of m).spec) ≡ true
unfolding string_eq
base_keys-no_standard dnszone = refl
base_keys-no_standard dnsrecord = refl
base_keys-no_standard ca = refl
base_keys-no_standard group = refl
base_keys-no_standard caacl = refl
base_keys-no_standard service = refl
base_keys-no_standard user = refl
base_keys-no_standard cert = refl

extra_of-AllSettled : (m : Module) (t : Task) → AllSettled (extra_of m t)
unfolding string_eq
extra_of-AllSettled dnszone t =
    (enable_or_disable-IsSettled t dnszone_client dnszone_enable refl, tt)
extra_of-AllSettled dnsrecord t = tt
extra_of-AllSettled ca t = tt
extra_of-AllSettled group t = (handle_members-IsSettled t, tt)
extra_of-AllSettled caacl t = (
  enable_or_disable-IsSettled t caacl_client caacl_enable refl,
  (add_remove_list_items-IsSettled t, tt),
)
extra_of-AllSettled service t =
    (handle_managedby_host-IsSettled t, (handle_allow_keytab-IsSettled t, tt))
extra_of-AllSettled user t = (
  enable_or_disable-IsSettled t user_client user_enable refl,
  (handle_cert-IsSettled t, (handle_principal-IsSettled t, tt)),
)
extra_of-AllSettled cert t = tt

module _ (m : Module) (t : Task) (before after : Server) where
  abbrev after_find : Server → Run
  after_find server = (find (client_of m) t server start).1

  -- Where the server has applied to the object the changes that a first run of a module computed, a
  -- run with the same parameters reports no change, posts nothing but its find request, and ends as
  -- `find` leaves it. This holds for every module, outside state `absent`; the login and both finds
  -- succeed, and the object is there. The defaults of the module's own parameters, which state
  -- `exact` counts as changes, need not be applied.
  pub run_module-again :
      (password_reply : Reply)
      → t.state ≢ absent
      → (login password_reply start).0 ≡ ok tt
      → (find (client_of m) t before start).0 ≡ ok tt
      → (find (client_of m) t after start).0 ≡ ok tt
      → (exists (client_of m).spec (after_find after)).0 ≡ ok true
      → AppliedToObject
          (client_of m).spec
          (after_find before).diffs
          (found (after_find before))
          (found (after_find after))
      → run_module m t password_reply after
        ≡ (ok (false, last_response (after_find after).requests), after_find after)
  run_module-again password_reply h logged_in ok1 ok2 there applied =
      run_module-main m t password_reply after
      ∙ main_again (client_of m) t (client_of-IsRegular m t) (extra_of m t)
          (extra_of-AllSettled m t) (base_keys-no_standard m) before after password_reply h
          logged_in ok1 ok2 there applied
