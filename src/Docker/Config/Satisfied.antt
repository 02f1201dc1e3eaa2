-- ===== src/Docker/Config/Satisfied.antt =====
-- What it means that `has_different_config` finds no difference.
use freeipa_cloud_prov.Prelude.{
  String, ◌≡◌, ◌≢◌, refl, subst, sym, ◌⊎◌, Option, true, false, not, none, some, List, [], ◌∷◌,
  ◌++◌, arith, string_eq, Option-cases, Bool-cases, inl, inr,
}
use freeipa_cloud_prov.Prelude.Texts.{lower_is}
use freeipa_cloud_prov.Prelude.Lists.{is_empty}
use freeipa_cloud_prov.Dict.{Dict, get}
use freeipa_cloud_prov.Docker.Config.{
  Params, Network, Ipam, differences, has_different_config, option_differences, driver_differences,
  ipam_driver_differences, driver_option_differences, ipam_option_differences,
  ipam_config_differences, camel_matches, first_config, find_camel,
}

List-cases {ℓ} :
    {A : Type ℓ} (xs : List A) → (xs ≡ []) ⊎ ((x : A) × (rest : List A) × (xs ≡ x ∷ rest))
List-cases [] = inl refl
List-cases (x ∷ xs) = inr (x, xs, refl)

-- A configuration has the value under a key that is `k` in lower case.
abbrev pub HasIpamOption : Dict String → String → String → Type 0
HasIpamOption config k v = (key : String) × (lower_is key k ≡ true) × (get key config ≡ some v)

find_camel-lower :
    (config : Dict String) (k key value : String)
    → find_camel k config ≡ some (key, value)
    → lower_is key k ≡ true
unfolding find_camel
find_camel-lower [] k key value h = ground arith
find_camel-lower ((j, w) ∷ config) k key value h = elim (Bool-cases (lower_is j k)) [
  | inl hit ↦ ground arith
  | inr miss ↦ find_camel-lower config k key value (rw (find_camel, miss) at h)
]

HasIpamOption-camel_matches :
    (config : Dict String) (k v : String)
    → camel_matches config k v ≡ true
    → HasIpamOption config k v
HasIpamOption-camel_matches config k v h = elim (Option-cases (find_camel k config)) [
  | inl missing ↦ absurd (ground arith)
  | inr ((key, value), there) ↦ (key, find_camel-lower config k key value there, ground arith)
]

-- There is a configuration, and the first has a property.
abbrev pub FirstConfig : Option Ipam → (Dict String → Type 0) → Type 0
FirstConfig ipam P =
    (i : Ipam) × (ipam ≡ some i)
    × (config : Dict String) × (others : List (Dict String)) × (i.config ≡ config ∷ others)
    × P config

FirstConfig-first_config :
    (ipam : Option Ipam) (config : Dict String) (P : Dict String → Type 0)
    → first_config ipam ≡ some config
    → P config
    → FirstConfig ipam P
FirstConfig-first_config none config P h holds = absurd (ground arith)
FirstConfig-first_config (some i) config P h holds = elim (List-cases i.config) [
  | inl empty ↦ absurd (ground (arith, empty))
  | inr (first, others, e) ↦
      let same : first ≡ config = ground (arith, e) in
      (i, refl, first, others, e, subst P (sym same) holds)
]

-- The network has what the parameters ask for; a parameter that is empty asks for nothing.
pub record Satisfied (p : Params) (net : Network) : Type 0 where
  pub driver : p.driver ≢ "" → net.driver ≡ p.driver
  pub options : (k v : String) → get k p.driver_options ≡ some v → get k net.options ≡ some v
  pub ipam_driver :
      p.ipam_driver ≢ "" → (i : Ipam) × (net.ipam ≡ some i) × (i.driver ≡ p.ipam_driver)
  pub ipam_options :
      (k v : String)
      → get k p.ipam_options ≡ some v
      → FirstConfig net.ipam (λ config. HasIpamOption config k v)
  pub ipv6 : p.ipv6 ≡ true → net.enable_ipv6 ≡ true

option_differences_nil :
    (options wanted : Dict String) (k v : String)
    → option_differences options wanted ≡ []
    → get k wanted ≡ some v
    → get k options ≡ some v
unfolding option_differences
option_differences_nil options [] k v h e = ground arith
option_differences_nil options ((j, w) ∷ wanted) k v h e =
    ground (arith, option_differences_nil options wanted k v)

ipam_option_differences_nil :
    (config wanted : Dict String) (k v : String)
    → ipam_option_differences config wanted ≡ []
    → get k wanted ≡ some v
    → camel_matches config k v ≡ true
unfolding ipam_option_differences
ipam_option_differences_nil config [] k v h e = ground arith
ipam_option_differences_nil config ((j, w) ∷ wanted) k v h e =
    ground (arith, ipam_option_differences_nil config wanted k v)

append_nil_parts {ℓ} : {A : Type ℓ} (xs ys : List A) → xs ++ ys ≡ [] → (xs ≡ []) × (ys ≡ [])
append_nil_parts [] ys h = (refl, h)
append_nil_parts (x ∷ xs) ys h = cc

driver_options_nil :
    (p : Params) (net : Network) (k v : String)
    → driver_option_differences p net ≡ []
    → get k p.driver_options ≡ some v
    → get k net.options ≡ some v
unfolding driver_option_differences
driver_options_nil p net k v h e =
    ground (arith, option_differences_nil net.options p.driver_options k v)

ipam_config_nil :
    (p : Params) (net : Network) (k v : String)
    → ipam_config_differences p net ≡ []
    → get k p.ipam_options ≡ some v
    → FirstConfig net.ipam (λ config. HasIpamOption config k v)
unfolding ipam_config_differences
ipam_config_nil p net k v h e = elim (Option-cases (first_config net.ipam)) [
  | inl missing ↦ absurd (grind arith)
  | inr (config, found) ↦ FirstConfig-first_config net.ipam config _ found (
      HasIpamOption-camel_matches config k v
        (ground (arith, ipam_option_differences_nil config p.ipam_options k v)))
]

ipam_driver_nil :
    (p : Params) (net : Network)
    → ipam_driver_differences p net ≡ []
    → p.ipam_driver ≢ ""
    → (i : Ipam) × (net.ipam ≡ some i) × (i.driver ≡ p.ipam_driver)
ipam_driver_nil p net h given = elim (Option-cases net.ipam) [
  | inl missing ↦ absurd (ground arith)
  | inr (i, found) ↦ (i, found, ground arith)
]

empty_iff_nil {ℓ} : {A : Type ℓ} (xs : List A) → not (is_empty xs) ≡ false → xs ≡ []
empty_iff_nil [] h = refl
empty_iff_nil (x ∷ xs) h = cc

-- A network in which no difference is found has all that the parameters ask for: the driver, the
-- options of the driver, the IPAM driver, each IPAM option as the value of a key of the first
-- configuration that is the option in lower case, and IPv6.
pub has_different_config-Satisfied :
    (p : Params) (net : Network) → (has_different_config p net).0 ≡ false → Satisfied p net
unfolding has_different_config differences
has_different_config-Satisfied p net h =
    let (n1, r1) = append_nil_parts (driver_differences p net) _ (empty_iff_nil _ h) in
    let (n2, r2) = append_nil_parts (driver_option_differences p net) _ r1 in
    let (n3, r3) = append_nil_parts (ipam_driver_differences p net) _ r2 in
    let (n4, n5) = append_nil_parts (ipam_config_differences p net) _ r3 in
    record {
      driver = λ given. ground arith;
      options = λ k v e. driver_options_nil p net k v n2 e;
      ipam_driver = λ given. ipam_driver_nil p net n3 given;
      ipam_options = λ k v e. ipam_config_nil p net k v n4 e;
      ipv6 = λ on. ground arith;
    }
