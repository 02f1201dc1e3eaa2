-- ===== src/Ipa/Classes/Cert/Revoke.antt =====
-- What a run that removes a certificate queues.
use freeipa_cloud_prov.Prelude.{String, ◌≡◌, false, some, [], ◌∷◌, arith, string_eq}
use freeipa_cloud_prov.Dict.{Dict, get}
use freeipa_cloud_prov.Result.{ok}
use freeipa_cloud_prov.Ipa.Values.{Value}
use freeipa_cloud_prov.Ipa.Client.{absent, Task}
use freeipa_cloud_prov.Ipa.Session.{Request, Entry, Run}
use freeipa_cloud_prov.Ipa.Ensure.{
  entry, response_cleaned, queue_removal, rem, queue_requests, base_changes,
}
use freeipa_cloud_prov.Ipa.Classes.Cert.{
  cert_client, cert_rem_request_params, cert_rem_request_item,
}

-- The request that revokes a certificate.
abbrev pub revocation : Value → Value → Value → Request
revocation serial cacn reason = record {
  method = "cert_revoke";
  name = serial ∷ [];
  item = ("cacn", cacn) ∷ ("revocation_reason", reason) ∷ [];
}

module _ (t : Task) (r : Run) (e : Entry) (found : r.requests ≡ e ∷ []) where
  -- With state `absent`, out of check mode, a certificate that was found is revoked, whatever other
  -- parameters are given: one request is queued, with its serial number, its CA and the reason
  -- given.
  pub queue_revocation :
      (entries : Dict Value) (first : String × Value) (serial cacn reason : Value)
      → t.state ≡ absent
      → t.check_mode ≡ false
      → e.response_cleaned ≡ first ∷ entries
      → get "serial_number" e.response_cleaned ≡ some serial
      → get "cacn" e.response_cleaned ≡ some cacn
      → get "revocation_reason" r.canon_params ≡ some reason
      → queue_requests (base_changes cert_client t) r
        ≡ (ok tt, record r { requests = e ∷ entry "rem" (revocation serial cacn reason) ∷ [] })
  unfolding queue_requests rem queue_removal response_cleaned cert_rem_request_params
      cert_rem_request_item
  queue_revocation entries first serial cacn reason h real there hs hc hr = ground arith
