-- ===== src/Parted/Run/Flags.antt =====
-- What the script for a partition does to its flags.
use freeipa_cloud_prov.Prelude.{
  ◌≡◌, refl, Bool, true, false, not, ◌&&◌, ◌||◌, Option, none, some, List, [], ◌∷◌, ◌++◌, arith,
  if◌then◌else◌,
}
use freeipa_cloud_prov.Prelude.Lists.{is_empty}
use freeipa_cloud_prov.Prelude.Texts.{Text, same_text, text_in}
use freeipa_cloud_prov.Prelude.Numerals.{ℤ, pos, negsuc}
use freeipa_cloud_prov.Prelude.SameText.{text_in_same}
use freeipa_cloud_prov.Parted.Machine.{Step, unit, mklabel, mkpart, name, set, rm, show}
use freeipa_cloud_prov.Parted.Run.{
  Params, same_number, in_unit, texts_without, set_each, name_steps, flag_steps, second_script,
}

-- Whether a command that is given a number is about partition `n`.
abbrev pub is_about : ℤ → Option ℤ → Bool
is_about n none = false
is_about n (some i) = same_number i n

-- Whether partition `n` has flag `f` after a script, from whether it had it before: what parted
-- documents of its commands. `set` and `rm` are about the partition whose number they are given; a
-- new label leaves no partition.
abbrev pub flag_after : ℤ → Text → List Step → Bool → Bool
flag_after n f [] had = had
flag_after n f (set number g on ∷ steps) had =
    flag_after n f steps (if is_about n number && same_text f g then on else had)
flag_after n f (unit u ∷ steps) had = flag_after n f steps had
flag_after n f (name number text ∷ steps) had = flag_after n f steps had
flag_after n f (show u ∷ steps) had = flag_after n f steps had
flag_after n f (mklabel label ∷ steps) had = flag_after n f steps false
flag_after n f (mkpart kind fs start end ∷ steps) had = flag_after n f steps had
flag_after n f (rm number ∷ steps) had =
    flag_after n f steps (if is_about n number then false else had)

pub text_in-texts_without :
    (ys xs : List Text) (t : Text)
    → text_in (texts_without ys xs) t ≡ (text_in xs t && not (text_in ys t))
text_in-texts_without ys [] t = refl
text_in-texts_without ys (x ∷ xs) t = ground (
  arith,
  text_in-texts_without ys xs t,
  text_in-texts_without ys xs x,
  text_in_same ys t x,
  text_in_same xs t x,
)

same_number_refl : (n : ℤ) → same_number n n ≡ true
same_number_refl (pos n) = ground arith
same_number_refl (negsuc n) = ground arith

module _ (n : ℤ) (f : Text) where
  flag_after-append :
      (ss ts : List Step) (had : Bool)
      → flag_after n f (ss ++ ts) had ≡ flag_after n f ts (flag_after n f ss had)
  flag_after-append [] ts had = refl
  flag_after-append (set number g on ∷ ss) ts had = flag_after-append ss ts _
  flag_after-append (unit u ∷ ss) ts had = flag_after-append ss ts had
  flag_after-append (name number text ∷ ss) ts had = flag_after-append ss ts had
  flag_after-append (show u ∷ ss) ts had = flag_after-append ss ts had
  flag_after-append (mklabel label ∷ ss) ts had = flag_after-append ss ts false
  flag_after-append (mkpart kind fs start end ∷ ss) ts had = flag_after-append ss ts had
  flag_after-append (rm number ∷ ss) ts had = flag_after-append ss ts _

  flag_after-set_each :
      (number : Option ℤ) (on : Bool) (fs : List Text) (had : Bool)
      → flag_after n f (set_each number on fs) had
        ≡ (if is_about n number && text_in fs f then on else had)
  flag_after-set_each number on [] had = ground arith
  flag_after-set_each number on (g ∷ fs) had = ground (
    arith,
    flag_after-set_each number on fs (if is_about n number && same_text f g then on else had),
  )

  flag_after-in_unit :
      (u : Text) (steps : List Step) (had : Bool)
      → flag_after n f (in_unit u steps) had ≡ flag_after n f steps had
  flag_after-in_unit u [] had = refl
  flag_after-in_unit u (s ∷ steps) had = ground arith

  flag_after-flag_steps :
      (p : Params) (there : List Text) (had : Bool)
      → flag_after n f (second_script p there) had ≡ (
          if is_empty p.flags || not (is_about n p.number)
          then had
          else if text_in p.flags f && not (text_in there f)
          then true
          else if text_in there f && not (text_in p.flags f)
          then false
          else had)
  unfolding second_script flag_steps
  flag_after-flag_steps p there had = ground (
    arith,
    flag_after-in_unit p.unit_ (name_steps p ++ flag_steps p there) had,
    flag_after-append (name_steps p) (flag_steps p there) had,
    flag_after-append (set_each p.number true (texts_without there p.flags))
        (set_each p.number false (texts_without p.flags there)) had,
    flag_after-set_each p.number true (texts_without there p.flags) had,
    flag_after-set_each p.number false (texts_without p.flags there)
        (if is_about n p.number && text_in (texts_without there p.flags) f then true else had),
    text_in-texts_without there p.flags f,
    text_in-texts_without p.flags there f,
  )

-- After the script for a partition with a number each of its flags is as the task wants it: with
-- flags given, on exactly where it is among them; without, as it was before. The flags of every
-- other partition stay as they were. What the commands of a script do to a flag is as parted
-- documents it.
pub flag_after-second_script :
    (p : Params) (there : List Text) (n : ℤ) (f : Text)
    → p.number ≡ some n
    → (flag_after n f (second_script p there) (text_in there f)
        ≡ (if is_empty p.flags then text_in there f else text_in p.flags f))
      × ((other : ℤ) (had : Bool)
          → same_number n other ≡ false
          → flag_after other f (second_script p there) had ≡ had)
flag_after-second_script p there n f numbered = (
  ground (arith, flag_after-flag_steps n f p there (text_in there f), same_number_refl n),
  λ other had different. ground (arith, flag_after-flag_steps other f p there had),
)
