-- ===== src/Filters/Format.antt =====
-- `formatmapstr` and `formatmaplist` of lib/filter_plugins/DO_filters.py. `str.format` is a
-- parameter: it gives a text, or raises.
use freeipa_cloud_prov.Prelude.{◌≡◌, refl, List, [], ◌∷◌, map}
use freeipa_cloud_prov.Prelude.Texts.{Text, codes, join}
use freeipa_cloud_prov.Result.{Result, ok, ◌>>=◌}
use freeipa_cloud_prov.Filters.Domain.{split_dots, domain_to_dn}
use freeipa_cloud_prov.Filters.Domain.Names.{component}

module _ {ℓ κ} {D : Type ℓ} {E : Type κ} (format : Text → D → Result E Text) where
  -- `[fmt.format(d) for d in data]`
  unfoldable pub formatmaplist : List D → Text → Result E (List Text)
  formatmaplist [] fmt = ok []
  formatmaplist (d ∷ data_) fmt =
      format fmt d >>= λ item. formatmaplist data_ fmt >>= λ items. ok (item ∷ items)

  unfoldable pub formatmapstr : List D → Text → Text → Result E Text
  formatmapstr data_ fmt sep = formatmaplist data_ fmt >>= λ items. ok (join sep items)

module _ {κ} {E : Type κ} (format : Text → Text → Result E Text)
    (inserts : (part : Text) → format (codes "dc={}") part ≡ ok (component part)) where
  formatmaplist-map :
      (parts : List Text) → formatmaplist format parts (codes "dc={}") ≡ ok (map component parts)
  unfolding formatmaplist
  formatmaplist-map [] = refl
  formatmaplist-map (part ∷ parts) = rw (inserts part) (rw (formatmaplist-map parts))

  -- `domain_to_dn` gives what `formatmapstr` with the format `dc={}` and a comma gives of the parts
  -- between the dots. `str.format` puts the argument in place of the braces.
  pub formatmapstr-split_dots :
      (text : Text)
      → formatmapstr format (split_dots text) (codes "dc={}") (b',' ∷ []) ≡ ok (domain_to_dn text)
  unfolding formatmapstr domain_to_dn
  formatmapstr-split_dots text = rw (formatmaplist-map (split_dots text))
