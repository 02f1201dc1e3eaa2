-- ===== src/Filters/Hosts.antt =====
-- `freeipa_dns_server_ips` and `ip_addr_list` of lib/filter_plugins.
pub mod Known
use freeipa_cloud_prov.Prelude.{
  String, ◌≡◌, refl, Bool, true, false, Option, none, some, List, [], ◌∷◌, arith, ◌==◌, string_eq,
  if◌then◌else◌,
}
use freeipa_cloud_prov.Dict.{Dict, get, has}
use freeipa_cloud_prov.Result.{Result, ok, err, ◌>>=◌}

-- What the filters read of the variables of a host: the value of `freeipa_servers` in `groups`,
-- where that is a list, and the two addresses.
pub record HostVars : Type 0 where
  pub freeipa_servers : Option (List String)
  pub ipa_ip_addr : Option String
  pub default_ipv4_address : Option String

pub data Failure : Type 0 where
  key_error : String → Failure

-- `d[k]`
abbrev pub found {ℓ} : {A : Type ℓ} → String → Option A → Result Failure A
found k none = err (key_error k)
found k (some a) = ok a

abbrev pub onto_some : Option String → List String → List String
onto_some none ips = ips
onto_some (some ip) ips = ip ∷ ips

-- `[hostvars[s]['ipa_ip_addr'] for s in servers if 'ipa_ip_addr' in hostvars[s]]`
unfoldable pub server_ips : Dict HostVars → List String → Result Failure (List String)
server_ips hostvars [] = ok []
server_ips hostvars (s ∷ servers) = do
  vars ← found s (get s hostvars)
  ips ← server_ips hostvars servers
  ok (onto_some vars.ipa_ip_addr ips)

-- The random host is the first one; `none` is Python's `None`.
unfoldable pub freeipa_dns_server_ips : Dict HostVars → Result Failure (Option (List String))
freeipa_dns_server_ips [] = ok (some [])
freeipa_dns_server_ips ((host, vars) ∷ hostvars) = elim vars.freeipa_servers [
  | none ↦ ok none
  | some servers ↦ (server_ips ((host, vars) ∷ hostvars) servers >>= λ ips. ok (some ips))
]

unfoldable pub ip_addr_list : List String → Dict HostVars → Result Failure (List String)
ip_addr_list [] hostvars = ok []
ip_addr_list (h ∷ hosts) hostvars = do
  vars ← found h (get h hostvars)
  ip ← found "ansible_default_ipv4" vars.default_ipv4_address
  ips ← ip_addr_list hosts hostvars
  ok (ip ∷ ips)
