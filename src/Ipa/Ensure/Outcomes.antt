-- ===== src/Ipa/Ensure/Outcomes.antt =====
-- What the change functions of the base class make of the find response, by the requested state.
use freeipa_cloud_prov.Prelude.{
  ◌≡◌, ◌≢◌, false, ◌||◌, [], ◌∷◌, ◌++◌, arith, if◌then◌else◌, string_eq,
}
use freeipa_cloud_prov.Prelude.Lists.{is_empty}
use freeipa_cloud_prov.Result.{ok}
use freeipa_cloud_prov.Ipa.Client.{absent, ClassSpec, method_name, add, rem as rem_key, Task}
use freeipa_cloud_prov.Ipa.Session.{Request, Entry, Run, no_changes}
use freeipa_cloud_prov.Ipa.Hooks.{base_client, key_values, base_mod_request_params, true_value}
use freeipa_cloud_prov.Ipa.Ensure.{
  response_cleaned, exists, entry, queue_change, change_item, mod_rewrite_list_changes, add_or_mod,
  queue_removal, rem, queue_requests, base_changes,
}

-- The request that removes the object, and the one that creates it with no attribute.
abbrev pub removal_request : ClassSpec → Task → Request
removal_request c t = record {
  method = method_name c rem_key;
  name = key_values c t.params ++ [];
  item = [];
}

abbrev pub bare_add_request : ClassSpec → Task → Request
bare_add_request c t = record {
  method = method_name c add;
  name = key_values c t.params ++ [];
  item = ("all", true_value) ∷ [];
}

module _ (c : ClassSpec) (t : Task) (r : Run) (e : Entry) (found : r.requests ≡ e ∷ []) where
  -- With state `absent` and no attribute given, one removal request is queued for an object that
  -- was found, and none in check mode or where nothing was found.
  pub queue_removal_lem :
      t.state ≡ absent
      → r.canon_params ≡ []
      → queue_requests (base_changes (base_client c) t) r ≡ (
        ok tt,
        if is_empty e.response_cleaned || t.check_mode
            then r
            else record r { requests = e ∷ entry "rem" (removal_request c t) ∷ [] },
      )
  unfolding queue_requests rem queue_removal response_cleaned base_mod_request_params
  queue_removal_lem h no_params = ground arith

  -- With state `absent`, attributes given, no object found and so no change computed, a request
  -- that creates the object is queued.
  pub queue_absent_creates :
      t.state ≡ absent
      → r.canon_params ≢ []
      → r.diffs ≡ no_changes
      → e.response_cleaned ≡ []
      → (exists c r).0 ≡ ok false
      → queue_requests (base_changes (base_client c) t) r
        ≡ (ok tt, record r { requests = e ∷ entry "add_or_mod" (bare_add_request c t) ∷ [] })
  unfolding queue_requests rem add_or_mod change_item exists queue_change response_cleaned
      base_mod_request_params mod_rewrite_list_changes string_eq
  queue_absent_creates h params settled missing there = ground arith
