-- ===== src/Parted/Info/Flags.antt =====
-- `read_flags` undoes the joining of the flags.
use freeipa_cloud_prov.Prelude.{◌≡◌, refl, ◌∙◌, ap, false, not, List, [], ◌∷◌, ◌++◌, map, arith}
use freeipa_cloud_prov.Prelude.Lists.{is_empty, select}
use freeipa_cloud_prov.Prelude.Texts.{Text, strip, join}
use freeipa_cloud_prov.Prelude.Splitting.{Without}
use freeipa_cloud_prov.Parted.Info.{split_flags, read_flags}

-- What is between two flags
abbrev pub between : Text
between = b',' ∷ b' ' ∷ []

-- A flag that is printed so that it can be read again.
abbrev pub IsFlag : Text → Type 0
IsFlag f = Without b',' f × (is_empty f ≡ false) × (strip f ≡ f)

abbrev pub AllFlags : List Text → Type 0
AllFlags [] = Unit
AllFlags (f ∷ fs) = IsFlag f × AllFlags fs

split_flags-Without : (f : Text) → Without b',' f → split_flags f ≡ f ∷ []
unfolding split_flags
split_flags-Without [] h = refl
split_flags-Without (c ∷ []) h = refl
split_flags-Without (c ∷ d ∷ f) (other, h) = ground (arith, split_flags-Without (d ∷ f) h)

split_flags-append :
    (f rest : Text) → Without b',' f → split_flags (f ++ (between ++ rest)) ≡ f ∷ split_flags rest
unfolding split_flags
split_flags-append [] rest h = refl
split_flags-append (c ∷ []) rest (other, h) = ground arith
split_flags-append (c ∷ d ∷ f) rest (other, h) = ground (arith, split_flags-append (d ∷ f) rest h)

split_flags-join :
    (f : Text) (fs : List Text) → AllFlags (f ∷ fs) → split_flags (join between (f ∷ fs)) ≡ f ∷ fs
unfolding join
split_flags-join f [] ((h, _, _), k) = split_flags-Without f h
split_flags-join f (g ∷ fs) ((h, _, _), k) =
    split_flags-append f (join between (g ∷ fs)) h ∙ ap (λ gs. f ∷ gs) (split_flags-join g fs k)

kept : (fs : List Text) → AllFlags fs → map strip (select (λ f. not (is_empty f)) fs) ≡ fs
kept [] h = refl
kept (f ∷ fs) ((_, some_text, same), h) = rw (some_text, same, kept fs h) refl

pub read_flags-join : (flags : List Text) → AllFlags flags → read_flags (join between flags) ≡ flags
unfolding read_flags
read_flags-join [] h = unfold join split_flags in refl
read_flags-join (f ∷ fs) h =
    ap (λ gs. map strip (select (λ g. not (is_empty g)) gs)) (split_flags-join f fs h)
    ∙ kept (f ∷ fs) h
