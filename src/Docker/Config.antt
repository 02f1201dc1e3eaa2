-- ===== src/Docker/Config.antt =====
-- The parameters and the networks of lib/modules/docker_network.py, and `has_different_config`.
pub mod Satisfied
use freeipa_cloud_prov.Prelude.{
  String, ◌<>◌, Bool, true, false, not, ◌&&◌, ◌||◌, Option, none, some, List, [], ◌∷◌, ◌++◌, ◌==◌,
  string_eq, if◌then◌else◌,
}
use freeipa_cloud_prov.Prelude.Lists.{is_empty}
use freeipa_cloud_prov.Prelude.Texts.{lower_is}
use freeipa_cloud_prov.Dict.{Dict, get}

pub data Wanted : Type 0 where
  present absent : Wanted

-- `module.params`. A text parameter that is `None` and one that is empty are both false: "".
pub record Params : Type 0 where
  pub network_name : String
  pub connected : List String
  pub state : Wanted
  pub driver : String
  pub driver_options : Dict String
  pub force : Bool
  pub appends : Bool
  pub ipam_driver : String
  pub ipam_options : Dict String
  pub ipv6 : Bool
  pub debug : Bool
  pub check_mode : Bool
  pub diff : Bool

pub record Ipam : Type 0 where
  pub driver : String
  pub config : List (Dict String)

-- What the daemon says of a network. `options` and `config` are empty where they are missing or
-- null; `containers` has the names in the dict `Containers`, none where that is null.
pub record Network : Type 0 where
  pub name : String
  pub driver : String
  pub options : Dict String
  pub ipam : Option Ipam
  pub enable_ipv6 : Bool
  pub containers : List String

-- A text as a condition.
abbrev pub truthy : String → Bool
truthy s = not (s == "")

-- `value` is what `d` has under `k`.
abbrev pub matches : Dict String → String → String → Bool
matches d k value = elim (get k d) [ none ↦ false | some v ↦ value == v ]

abbrev pub driver_differences : Params → Network → List String
driver_differences p net =
    if truthy p.driver && not (p.driver == net.driver) then "driver" ∷ [] else []

-- The loop over `driver_options`.
unfoldable pub option_differences : Dict String → Dict String → List String
option_differences options [] = []
option_differences options ((k, v) ∷ wanted) =
    let rest = option_differences options wanted in
    if matches options k v then rest else ("driver_options." <> k) ∷ rest

unfoldable pub driver_option_differences : Params → Network → List String
driver_option_differences p net =
    if is_empty p.driver_options
    then []
    else if is_empty net.options
    then "driver_options" ∷ []
    else option_differences net.options p.driver_options

abbrev pub has_ipam_driver : Option Ipam → String → Bool
has_ipam_driver none d = false
has_ipam_driver (some i) d = i.driver == d

abbrev pub ipam_driver_differences : Params → Network → List String
ipam_driver_differences p net =
    if truthy p.ipam_driver && not (has_ipam_driver net.ipam p.ipam_driver)
    then "ipam_driver" ∷ []
    else []

-- The first entry whose key is `key` in lower case.
unfoldable pub find_camel : String → Dict String → Option (String × String)
find_camel key [] = none
find_camel key ((k, v) ∷ config) = if lower_is k key then some (k, v) else find_camel key config

-- Whether the configuration has `value` under such a key; an empty key counts as none.
abbrev pub camel_matches : Dict String → String → String → Bool
camel_matches config key value = elim (find_camel key config) [
  | none ↦ false
  | some (k, v) ↦ truthy k && matches config k value
]

-- The loop over `ipam_options`.
unfoldable pub ipam_option_differences : Dict String → Dict String → List String
ipam_option_differences config [] = []
ipam_option_differences config ((k, v) ∷ wanted) =
    let rest = ipam_option_differences config wanted in
    if camel_matches config k v then rest else ("ipam_options." <> k) ∷ rest

-- The first configuration of a network that has any.
abbrev pub first_config : Option Ipam → Option (Dict String)
first_config none = none
first_config (some i) = elim i.config [ [] ↦ none | d ∷ _ ↦ some d ]

unfoldable pub ipam_config_differences : Params → Network → List String
ipam_config_differences p net =
    if is_empty p.ipam_options then [] else elim (first_config net.ipam) [
      | none ↦ "ipam_options" ∷ []
      | some config ↦ ipam_option_differences config p.ipam_options
    ]

abbrev pub ipv6_differences : Params → Network → List String
ipv6_differences p net = if p.ipv6 && not net.enable_ipv6 then "ipv6" ∷ [] else []

-- The list of `has_different_config`; its flag is set where the list gets an element.
unfoldable pub differences : Params → Network → List String
differences p net =
    driver_differences p net
    ++ (driver_option_differences p net
        ++ (ipam_driver_differences p net
            ++ (ipam_config_differences p net ++ ipv6_differences p net)))

unfoldable pub has_different_config : Params → Network → Bool × List String
has_different_config p net = (not (is_empty (differences p net)), differences p net)
