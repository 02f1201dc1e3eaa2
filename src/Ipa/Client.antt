-- ===== src/Ipa/Client.antt =====
-- What a subclass of `IPAClient` declares, and the parameters of one run of its module.
use freeipa_cloud_prov.Prelude.{
  String, ◌<>◌, Bool, true, Option, none, some, List, [], ◌∷◌, contains, string_eq, if◌then◌else◌,
}
use freeipa_cloud_prov.Dict.{Dict, set, keys}
use freeipa_cloud_prov.Ipa.Values.{Value, Atom, ℤ}

pub data State : Type 0 where
  present absent exact enabled disabled : State

-- The `type` of a parameter.
pub data Kind : Type 0 where
  str_kind bool_kind int_kind list_kind : Kind

-- One entry of `argument_spec`; `default` is `none` where the entry has no such key.
pub record ParamSpec : Type 0 where
  pub kind : Kind
  pub default : Option Value

pub data MethodKey : Type 0 where
  add rem mod_ find enabled_ disabled_ : MethodKey

-- The class attributes. `own_base_keys` is `none` where the class does not define `base_keys`.
pub record ClassSpec : Type 0 where
  pub name : String
  pub methods : MethodKey → String
  pub kw_args : Dict ParamSpec
  pub param_keys : List String
  pub own_base_keys : Option (List String)

-- `methods`, with the placeholder for the name left out
abbrev pub base_methods : MethodKey → String
base_methods add = "_add"
base_methods rem = "_del"
base_methods mod_ = "_mod"
base_methods find = "_find"
base_methods enabled_ = "_enable"
base_methods disabled_ = "_disable"

-- `self._methods`
abbrev pub method_name : ClassSpec → MethodKey → String
method_name c k = c.name <> c.methods k

abbrev pub text_value : String → Value
text_value s = Value.atom (Atom.str s)

-- `init_standard_params`
abbrev pub standard_params : Dict ParamSpec
standard_params =
    ("state", record { kind = Kind.str_kind; default = some (text_value "present") })
    ∷ ("ipa_prot", record { kind = Kind.str_kind; default = some (text_value "https") })
    ∷ ("ipa_host", record { kind = Kind.str_kind; default = some (text_value "ipa.example.com") })
    ∷ (
      "ipa_port",
      record { kind = Kind.int_kind; default = some (Value.atom (Atom.int (ℤ.pos 443))) },
    )
    ∷ ("ipa_user", record { kind = Kind.str_kind; default = some (text_value "admin") })
    ∷ ("ipa_pass", record { kind = Kind.str_kind; default = none })
    ∷ (
      "validate_certs",
      record { kind = Kind.bool_kind; default = some (Value.atom (Atom.bool true)) },
    )
    ∷ []

-- The loop of `init_kw_args` over `argument_spec`.
abbrev pub add_kw_args : Dict ParamSpec → Dict ParamSpec → Dict ParamSpec
add_kw_args spec [] = spec
add_kw_args spec ((k, p) ∷ kw) = add_kw_args (set k p spec) kw

abbrev pub argument_spec : ClassSpec → Dict ParamSpec
argument_spec c = add_kw_args standard_params c.kw_args

-- `[k for k in ks if k not in drop]`
abbrev pub without_keys : List String → List String → List String
without_keys drop [] = []
without_keys drop (k ∷ ks) =
    let rest = without_keys drop ks in if contains drop k then rest else k ∷ rest

-- `base_keys`: generated from `kw_args` where the class has none
abbrev pub base_keys : ClassSpec → List String
base_keys c = elim c.own_base_keys [
  | some ks ↦ ks
  | none ↦ without_keys c.param_keys (keys c.kw_args)
]

-- `argument_spec[k].get('default', None)` of an entry
abbrev pub default_of : ParamSpec → Value
default_of p = elim p.default [ none ↦ Value.atom Atom.null | some v ↦ v ]

-- `self.module`: what Ansible hands to one run.
pub record Task : Type 0 where
  pub state : State
  pub check_mode : Bool
  pub params : Dict Value
