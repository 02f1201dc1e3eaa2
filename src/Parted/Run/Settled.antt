-- ===== src/Parted/Run/Settled.antt =====
-- A run on a disk that is as it is wanted.
use freeipa_cloud_prov.Prelude.{◌≡◌, refl, sym, true, false, List, [], ◌∷◌, arith}
use freeipa_cloud_prov.Prelude.Lists.{is_empty}
use freeipa_cloud_prov.Prelude.Texts.{Text, codes, same_text, text_in}
use freeipa_cloud_prov.Prelude.SameText.{same_text_refl}
use freeipa_cloud_prov.Result.{ok}
use freeipa_cloud_prov.Parted.Info.{DeviceInfo, Partition}
use freeipa_cloud_prov.Parted.Machine.{Command, System, parted, run_command}
use freeipa_cloud_prov.Parted.Run.{
  Params, part_exists, part_numbered, first_script, texts_without, flag_steps, second_script,
  run_first, flags_there, steps_of_partition, present_branch,
}
use freeipa_cloud_prov.Parted.Run.Flags.{text_in-texts_without}

-- Two lists of flags with the same members
abbrev pub SameFlags : List Text → List Text → Type 0
SameFlags xs ys = (f : Text) → text_in xs f ≡ text_in ys f

no_members : (xs : List Text) → ((f : Text) → text_in xs f ≡ false) → xs ≡ []
no_members [] h = refl
no_members (x ∷ xs) h = ground (arith, h x, same_text_refl x)

texts_without_same : (ys xs : List Text) → SameFlags xs ys → texts_without ys xs ≡ []
texts_without_same ys xs same =
    no_members (texts_without ys xs) (λ f. ground (arith, text_in-texts_without ys xs f, same f))

flag_steps_settled :
    (p : Params) (there : List Text) → SameFlags p.flags there → flag_steps p there ≡ []
unfolding flag_steps
flag_steps_settled p there same =
    rw (texts_without_same there p.flags same, texts_without_same p.flags there (λ f. sym (same f)))
      (ground arith)

second_script_settled :
    (p : Params) (there : List Text)
    → is_empty p.part_name ≡ true
    → SameFlags p.flags there
    → second_script p there ≡ []
unfolding second_script
second_script_settled p there unnamed same = rw (flag_steps_settled p there same, unnamed) refl

first_script_settled :
    (p : Params) (device : DeviceInfo)
    → is_empty p.label ≡ true
    → is_empty device.generic.table ≡ false
    → same_text device.generic.table (codes "unknown") ≡ false
    → part_exists device.partitions p.number ≡ true
    → first_script p device ≡ []
unfolding first_script
first_script_settled p device h labelled known there = ground arith

-- Out of check mode, where the partition is there with the wanted flags, the disk has a known label
-- and neither a label nor a name is given, the state `present` runs no command between the first
-- reading of the disk and the last, and there is no change and no script.
pub present_branch_settled :
    (sys : System) (p : Params) (device : DeviceInfo) (part : Partition) (commands : List Command)
    → p.check_mode ≡ false
    → is_empty p.label ≡ true
    → is_empty device.generic.table ≡ false
    → same_text device.generic.table (codes "unknown") ≡ false
    → part_exists device.partitions p.number ≡ true
    → part_numbered device.partitions p.number ≡ ok part
    → is_empty p.part_name ≡ true
    → SameFlags p.flags part.flags
    → present_branch sys p device commands ≡ (ok (false, []), commands)
unfolding present_branch run_first steps_of_partition flags_there parted second_script flag_steps
    run_command
present_branch_settled sys p device part commands wet h labelled known there found unnamed same =
    rw
      (
        first_script_settled p device h labelled known there,
        there,
        wet,
        found,
        second_script_settled p part.flags unnamed same,
      )
      refl
