-- ===== src/Filters/Hosts/Known.antt =====
-- When the addresses of the DNS servers are found.
use freeipa_cloud_prov.Prelude.{
  String, ◌≡◌, refl, true, Option, none, some, List, [], ◌∷◌, arith, string_eq,
}
use freeipa_cloud_prov.Dict.{Dict, get, has}
use freeipa_cloud_prov.Result.{ok}
use freeipa_cloud_prov.Filters.Hosts.{HostVars, onto_some, server_ips}

-- Every server has variables.
abbrev AllKnown : Dict HostVars → List String → Type 0
AllKnown hostvars [] = Unit
AllKnown hostvars (s ∷ servers) = (has s hostvars ≡ true) × AllKnown hostvars servers

-- Where every server has variables, the addresses are found.
server_ips_ok :
    (hostvars : Dict HostVars) (servers : List String)
    → AllKnown hostvars servers
    → (ips : List String) × (server_ips hostvars servers ≡ ok ips)
unfolding server_ips
server_ips_ok hostvars [] h = ([], refl)
server_ips_ok hostvars (s ∷ servers) (known, h) =
    let (ips, e) = server_ips_ok hostvars servers h in
    known_ok s hostvars (get s hostvars) refl known ips e
  where
    known_ok :
        (s : String) (hostvars : Dict HostVars) (o : Option HostVars)
        → get s hostvars ≡ o
        → has s hostvars ≡ true
        → (ips : List String) → server_ips hostvars servers ≡ ok ips
        → (all : List String) × (server_ips hostvars (s ∷ servers) ≡ ok all)
    known_ok s hostvars none g known ips e = ground arith
    known_ok s hostvars (some vars) g known ips e = (onto_some vars.ipa_ip_addr ips, rw (g, e) refl)
