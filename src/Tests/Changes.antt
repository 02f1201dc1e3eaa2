-- ===== src/Tests/Changes.antt =====
-- The theorems on changes, applied to a DNS zone and a CA.
use freeipa_cloud_prov.Prelude.{
  subst, ◌≡◌, ◌≢◌, refl, true, false, [], ◌∷◌, arith, contains, string_eq,
}
use freeipa_cloud_prov.Prelude.Texts.{lower_is}
use freeipa_cloud_prov.Dict.{Dict, get}
use freeipa_cloud_prov.Result.{ok}
use freeipa_cloud_prov.Ipa.Values.{Atom, null, Value, atom, list, str, bool, atom_eq, set_of}
use freeipa_cloud_prov.Ipa.Client.{present, exact, base_keys}
use freeipa_cloud_prov.Ipa.Clean.{clean, clean_list, clean_scalar, to_bool, clean_value, clean_onto}
use freeipa_cloud_prov.Ipa.Clean.Typed.{Declared, clean-Declared}
use freeipa_cloud_prov.Ipa.Diff.{
  Changes, compute_changes, list_slice, scalar_slice, values_at, op, op_keys, list_add_of,
  list_del_of, scalars_of, set_scalars, reset_scalars, is_list_param,
}
use freeipa_cloud_prov.Ipa.Diff.Scalars.{written, default_at, has_default, scalars-compute_changes}
use freeipa_cloud_prov.Ipa.Diff.Again.{Applied, compute_changes_again}
use freeipa_cloud_prov.Ipa.Ensure.{change_item, mod_rewrite_list_changes}
use freeipa_cloud_prov.Ipa.Ensure.Item.{item_keys}
use freeipa_cloud_prov.Ipa.Classes.Zone.{dnszone_spec}

abbrev name_server : Atom
name_server = str "ns1.example.com."

abbrev old_server : Atom
old_server = str "ns0.example.com."

-- A zone with one name server is asked for; another one is there.
abbrev wanted_zone : Dict Value
wanted_zone = ("nsrecord", list (name_server ∷ [])) ∷ ("idnssoarefresh", atom (str "3600")) ∷ []

abbrev zone_there : Dict Value
zone_there = ("nsrecord", list (old_server ∷ [])) ∷ []

abbrev zone_changes : Changes
zone_changes = record {
  scalars = ("idnssoarefresh", atom (str "3600")) ∷ [];
  list_add = ("nsrecord", name_server ∷ []) ∷ [];
  list_del = ("nsrecord", old_server ∷ []) ∷ [];
}

zone_changes_computed : compute_changes dnszone_spec exact wanted_zone zone_there ≡ ok zone_changes
unfolding compute_changes list_slice scalar_slice values_at op op_keys list_add_of list_del_of
    scalars_of set_scalars reset_scalars set_of string_eq atom_eq
zone_changes_computed = refl

scalars-compute_changes_example :
    get "idnssoarefresh" zone_changes.scalars
    ≡ written exact
        (default_at dnszone_spec "idnssoarefresh")
        (has_default dnszone_spec "idnssoarefresh")
        (get "idnssoarefresh" wanted_zone)
        (get "idnssoarefresh" zone_there)
scalars-compute_changes_example =
    scalars-compute_changes dnszone_spec exact wanted_zone zone_there zone_changes "idnssoarefresh"
      (unfold string_eq in refl, (refl, tt)) zone_changes_computed (unfold string_eq in refl)

abbrev settled : Changes
settled = record { scalars = []; list_add = []; list_del = [] }

abbrev listed_server : Dict Value
listed_server = ("nsrecord", list (name_server ∷ [])) ∷ []

abbrev server_added : Changes
server_added = record {
  scalars = [];
  list_add = ("nsrecord", name_server ∷ []) ∷ [];
  list_del = [];
}

server_added_computed : compute_changes dnszone_spec present listed_server [] ≡ ok server_added
unfolding compute_changes list_slice scalar_slice values_at op op_keys list_add_of list_del_of
    scalars_of set_scalars reset_scalars set_of string_eq atom_eq
server_added_computed = refl

settled_computed : compute_changes dnszone_spec present listed_server listed_server ≡ ok settled
unfolding compute_changes list_slice scalar_slice values_at op op_keys list_add_of list_del_of
    scalars_of set_scalars reset_scalars set_of string_eq atom_eq
settled_computed = refl

nsrecord_is_list : is_list_param dnszone_spec "nsrecord" ≢ false
unfolding string_eq
nsrecord_is_list e = ground (arith, e)

server_added-Applied : Applied dnszone_spec server_added [] listed_server
unfolding values_at set_of
server_added-Applied = record {
  lists = λ k v is_list. elim (string_eq.dec k "nsrecord") [
    | yes e ↦ ground arith
    | no n ↦ ground arith
  ];
  scalars = λ k scalar. elim (string_eq.dec k "nsrecord") [
    | yes e ↦ absurd (nsrecord_is_list (subst (λ j. is_list_param dnszone_spec j ≡ false) e scalar))
    | no n ↦ ground arith
  ];
}

compute_changes_again_example :
    (settled.scalars ≡ []) × (settled.list_add ≡ []) × (settled.list_del ≡ [])
compute_changes_again_example =
    compute_changes_again dnszone_spec present listed_server [] listed_server server_added settled
      server_added_computed settled_computed server_added-Applied (refl, tt) (λ e. ground arith)
      (λ k e. elim (string_eq.dec k "nsrecord") [ yes d ↦ ground arith | no n ↦ ground arith ])

item_keys_example :
    contains ("all" ∷ "addattr" ∷ "delattr" ∷ base_keys dnszone_spec) "addattr" ≡ true
item_keys_example =
    item_keys dnszone_spec zone_changes "addattr"
      (unfold change_item mod_rewrite_list_changes string_eq in refl)

-- A zone's parameters as a playbook gives them.
abbrev raw_zone : Dict Value
raw_zone =
    ("nsrecord", atom name_server)
    ∷ ("idnszoneactive", list (str "TRUE" ∷ []))
    ∷ ("idnsallowquery", atom null)
    ∷ []

abbrev cleaned_zone : Dict Value
cleaned_zone = ("nsrecord", list (name_server ∷ [])) ∷ ("idnszoneactive", atom (bool true)) ∷ []

raw_zone_cleaned : clean dnszone_spec raw_zone ≡ ok cleaned_zone
unfolding clean clean_onto clean_value clean_list clean_scalar to_bool lower_is string_eq
raw_zone_cleaned = refl

clean-Declared_example : Declared dnszone_spec.kw_args "idnszoneactive" (atom (bool true))
clean-Declared_example =
    clean-Declared dnszone_spec raw_zone cleaned_zone "idnszoneactive" (atom (bool true))
      raw_zone_cleaned (unfold string_eq in refl)
