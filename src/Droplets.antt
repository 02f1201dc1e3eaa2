-- ===== src/Droplets.antt =====
-- lib/action_plugins/do_droplet_info.py. The reply of the cloud's API is a parameter.
pub mod Selected
use freeipa_cloud_prov.Prelude.{
  String, ◌≡◌, Bool, true, false, Option, none, some, List, [], ◌∷◌, if◌then◌else◌, ◌==◌, contains,
  string_eq, ◌<>◌,
}
use freeipa_cloud_prov.Prelude.Lists.{select}
use freeipa_cloud_prov.Dict.{Dict, set}

-- A droplet: its name, and the other keys of its dict.
pub record Droplet : Type 0 where
  pub name : String
  pub info : Dict String

-- The argument `names`: a list, or something else.
pub data Names : Type 0 where
  listed : List String → Names
  other : Names

-- `self._task.args`, and the variable `DO_API_KEY` of the environment
pub record Args : Type 0 where
  pub api_token : Option String
  pub api_key : Option String
  pub name : Option String
  pub names : Option Names

-- Each success has the key `changed` too, which is false.
pub data Reply : Type 0 where
  failed : String → Reply
  single : Droplet → Reply
  by_name : Dict Droplet → Reply

-- `args.get('api_token', os.environ.get('DO_API_KEY', None))`
abbrev pub token_of : Args → Option String
token_of args = elim args.api_token [ some token ↦ some token | none ↦ args.api_key ]

-- `[d for d in manager.all_active_droplets() if d['name'] in names]`
abbrev pub selected : List String → List Droplet → List Droplet
selected names droplets = select (λ d. contains names d.name) droplets

abbrev pub single_reply : String → List Droplet → Reply
single_reply name (d ∷ []) = single d
single_reply name [] = failed ("No droplet named '" <> (name <> "' found"))
single_reply name (_ ∷ _ ∷ _) = failed ("No droplet named '" <> (name <> "' found"))

-- `dict([(d['name'], d) for d in droplets])`: of two with one name the last stays.
abbrev pub dict_of : Dict Droplet → List Droplet → Dict Droplet
dict_of so_far [] = so_far
dict_of so_far (d ∷ ds) = dict_of (set d.name d so_far) ds

abbrev pub lookup : Args → List Droplet → Reply
lookup args droplets = elim args.name [
  | some name ↦ single_reply name (selected (name ∷ []) droplets)
  | none ↦ elim args.names [
    | some (listed names) ↦ by_name (dict_of [] (selected names droplets))
    | some other ↦ failed "Argument 'names' must be a list"
    | none ↦ failed "Required argument 'name' or 'names' not found"
  ]
]

-- `run`: `all_active_droplets` is what the manager with a token lists.
unfoldable pub run : (String → List Droplet) → Args → Reply
run all_active_droplets args = elim (token_of args) [
  | none ↦ failed "No 'api_token' option or 'DO_API_KEY' environment variable set"
  | some token ↦ lookup args (all_active_droplets token)
]
