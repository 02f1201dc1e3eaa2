-- ===== src/Tests/Plugins.antt =====
-- The theorems on the filters, applied to concrete texts.
use freeipa_cloud_prov.Prelude.{◌<◌, ◌≡◌, arith}
use freeipa_cloud_prov.Prelude.Texts.{codes}
use freeipa_cloud_prov.Prelude.Lists.{length}
use freeipa_cloud_prov.Filters.Escape.{Text, systemd_escape}
use freeipa_cloud_prov.Filters.Escape.Decode.{
  InRange, unescape, drop_slash, unescape-systemd_escape,
}
use freeipa_cloud_prov.Filters.Cert.{header, pem_rounds, ipa_cert_to_pem}
use freeipa_cloud_prov.Filters.Cert.Pem.{IsPem, ipa_cert_to_pem-IsPem, pem_rounds-stops}

path-InRange : InRange (codes "/opt/my-data")
path-InRange = ground arith

unescape-systemd_escape_example :
    unescape (systemd_escape (codes "/opt/my-data")) ≡ drop_slash (codes "/opt/my-data")
unescape-systemd_escape_example = unescape-systemd_escape (codes "/opt/my-data") path-InRange

abbrev two_lines : Text
two_lines = codes "MIIDpTCCAo2gAwIBAgIBATANBgkqhkiG9w0BAQsFADA4MRYwFAYDVQQKDA1FWEFNUExF"

ipa_cert_to_pem-IsPem_example : IsPem (codes "MIID") (ipa_cert_to_pem (codes "MIID"))
ipa_cert_to_pem-IsPem_example = ipa_cert_to_pem-IsPem (codes "MIID")

-- A text of one full line and four more characters.
pem_rounds-stops_example :
    (length (pem_rounds 1 header two_lines).1 < 64)
    × (pem_rounds 1 header two_lines ≡ pem_rounds 5 header two_lines)
pem_rounds-stops_example = pem_rounds-stops 1 5 header two_lines (ground arith) (ground arith)
