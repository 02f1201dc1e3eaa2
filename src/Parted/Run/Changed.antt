-- ===== src/Parted/Run/Changed.antt =====
-- What a run reports: whether something changed, and the scripts.
use mathlib.Core.List.{append-nil}
use freeipa_cloud_prov.Prelude.{
  ◌≡◌, refl, ◌∙◌, ap, Bool, true, false, not, ◌||◌, Option, List, [], ◌∷◌, ◌++◌, arith,
  if◌then◌else◌,
}
use freeipa_cloud_prov.Prelude.Lists.{is_empty}
use freeipa_cloud_prov.Prelude.Texts.{Text}
use freeipa_cloud_prov.Prelude.Numerals.{ℤ}
use freeipa_cloud_prov.Result.{ok}
use freeipa_cloud_prov.Exec.Returns.{Returns, Returns-pure, Returns-if, Returns-bind, Returns-after}
use freeipa_cloud_prov.Parted.Info.{DeviceInfo, Partition}
use freeipa_cloud_prov.Parted.Machine.{
  Step, unit, mklabel, mkpart, name, set, rm, show, System, get_device_info, parted,
}
use freeipa_cloud_prov.Parted.Run.{
  Wanted, present, absent, info, Params, part_exists, label_for, label_steps, part_steps, in_unit,
  first_script, set_each, name_steps, flag_steps, second_script, Report, Done, texts_without,
  flags_there, steps_of_partition, present_branch, absent_branch, branch, check_params, main,
}

abbrev pub is_info : Wanted → Bool
is_info info = true
is_info present = false
is_info absent = false

-- The labels that a script puts on the disk.
abbrev pub labels_of : List Step → List Text
labels_of [] = []
labels_of (mklabel label ∷ steps) = label ∷ labels_of steps
labels_of (unit u ∷ steps) = labels_of steps
labels_of (mkpart kind fs start end ∷ steps) = labels_of steps
labels_of (name number n ∷ steps) = labels_of steps
labels_of (set number f on ∷ steps) = labels_of steps
labels_of (rm number ∷ steps) = labels_of steps
labels_of (show u ∷ steps) = labels_of steps

labels_of-append : (ss ts : List Step) → labels_of (ss ++ ts) ≡ labels_of ss ++ labels_of ts
labels_of-append [] ts = refl
labels_of-append (mklabel label ∷ ss) ts = ap (λ ls. label ∷ ls) (labels_of-append ss ts)
labels_of-append (unit u ∷ ss) ts = labels_of-append ss ts
labels_of-append (mkpart kind fs start end ∷ ss) ts = labels_of-append ss ts
labels_of-append (name number n ∷ ss) ts = labels_of-append ss ts
labels_of-append (set number f on ∷ ss) ts = labels_of-append ss ts
labels_of-append (rm number ∷ ss) ts = labels_of-append ss ts
labels_of-append (show u ∷ ss) ts = labels_of-append ss ts

labels_of-in_unit : (u : Text) (steps : List Step) → labels_of (in_unit u steps) ≡ labels_of steps
labels_of-in_unit u [] = refl
labels_of-in_unit u (s ∷ steps) = ground arith

labels_of-set_each :
    (number : Option ℤ) (on : Bool) (fs : List Text) → labels_of (set_each number on fs) ≡ []
labels_of-set_each number on [] = refl
labels_of-set_each number on (f ∷ fs) = labels_of-set_each number on fs

-- The label that a first script puts on a disk, in a list.
abbrev wanted_label : Text → List Text
wanted_label label = if is_empty label then [] else label ∷ []

labels_of-first_script :
    (p : Params) (device : DeviceInfo)
    → labels_of (first_script p device) ≡ wanted_label (label_for p device.generic)
unfolding first_script
labels_of-first_script p device = ground (
  arith,
  labels_of-in_unit p.unit_
      (label_steps (label_for p device.generic) ++ part_steps p device.partitions),
  labels_of-append (label_steps (label_for p device.generic)) (part_steps p device.partitions),
)

labels_of-flag_steps : (p : Params) (there : List Text) → labels_of (flag_steps p there) ≡ []
unfolding flag_steps
labels_of-flag_steps p there = ground (
  arith,
  labels_of-append (set_each p.number true (texts_without there p.flags))
      (set_each p.number false (texts_without p.flags there)),
  labels_of-set_each p.number true (texts_without there p.flags),
  labels_of-set_each p.number false (texts_without p.flags there),
)

labels_of-second_script : (p : Params) (there : List Text) → labels_of (second_script p there) ≡ []
unfolding second_script
labels_of-second_script p there = ground (
  arith,
  labels_of-in_unit p.unit_ (name_steps p ++ flag_steps p there),
  labels_of-append (name_steps p) (flag_steps p there),
  labels_of-flag_steps p there,
)

-- A report that says that something changed where there is a script.
abbrev IsHonest : Done → Type 0
IsHonest done = done.0 ≡ not (is_empty done.1)

either_script :
    (first second : List Step)
    → IsHonest (not (is_empty first) || not (is_empty second), first ++ second)
either_script [] second = ground arith
either_script (s ∷ first) second = refl

module _ (sys : System) (p : Params) where
  steps_of_partition-Returns :
      (parts : List Partition)
      → Returns (λ second. labels_of second ≡ []) (steps_of_partition sys p parts)
  unfolding steps_of_partition
  steps_of_partition-Returns parts =
      Returns-if (part_exists parts p.number || p.check_mode)
        (Returns-after (flags_there sys p parts)
          (λ there. Returns-pure (second_script p there) (labels_of-second_script p there)))
        (Returns-pure [] refl)

  -- What a run to the state `present` reports, from the device that it starts with.
  abbrev IsReport : DeviceInfo → Done → Type 0
  IsReport device done =
      IsHonest done × (labels_of done.1 ≡ wanted_label (label_for p device.generic))

  present_report :
      (device : DeviceInfo) (second : List Step)
      → labels_of second ≡ []
      → let first = first_script p device in
        IsReport device (not (is_empty first) || not (is_empty second), first ++ second)
  present_report device second h = (
    either_script (first_script p device) second,
    labels_of-append (first_script p device) second
        ∙ rw h (append-nil _)
        ∙ labels_of-first_script p device,
  )

  present_branch-Returns :
      (device : DeviceInfo) → Returns (IsReport device) (present_branch sys p device)
  unfolding present_branch
  present_branch-Returns device = Returns-after _ (λ parts.
      Returns-bind (steps_of_partition-Returns parts)
        (λ second h. Returns-after _ (λ _. Returns-pure _ (present_report device second h))))

  absent_branch-Returns : (device : DeviceInfo) → Returns IsHonest (absent_branch sys p device)
  unfolding absent_branch
  absent_branch-Returns device =
      Returns-if (part_exists device.partitions p.number || p.check_mode)
        (Returns-after (parted sys p.check_mode (rm p.number ∷ []) p.device p.align)
          (λ _. Returns-pure (true, rm p.number ∷ []) refl))
        (Returns-pure (false, []) refl)

  main-Returns :
      (Q : Done → Type 0)
      → ((device : DeviceInfo) → Returns Q (branch sys p p.state device))
      → Returns (λ r. Q (r.changed, r.output_script)) (main sys p)
  unfolding main
  main-Returns Q each = Returns-after (check_params sys p) (λ _.
      Returns-after (get_device_info sys p.device p.unit_) (λ device.
        Returns-bind (each device) (λ done h.
          Returns-after (get_device_info sys p.device p.unit_) (λ final. Returns-pure _ h))))

  branch-IsHonest :
      (w : Wanted)
      → not (is_info w) ≡ true
      → (device : DeviceInfo) → Returns IsHonest (branch sys p w device)
  branch-IsHonest present h device = record {
    value = λ s a e. ((present_branch-Returns device).value s a e).0;
  }
  branch-IsHonest absent h device = absent_branch-Returns device
  branch-IsHonest info h device = cc

  -- Unless the state is `info`, a run that succeeds reports a change exactly where it has a
  -- script.
  pub main_changed :
      (r : Report)
      → not (is_info p.state) ≡ true
      → (main sys p []).0 ≡ ok r
      → r.changed ≡ not (is_empty r.output_script)
  main_changed r h e = (main-Returns IsHonest (branch-IsHonest p.state h)).value [] r e

  abbrev Relabels : Done → Type 0
  Relabels done = (done.0 ≡ true) × (is_empty (labels_of done.1) ≡ false)

  report-Relabels :
      (device : DeviceInfo) (done : Done)
      → is_empty p.label ≡ false
      → IsReport device done
      → Relabels done
  report-Relabels device (c, []) h (honest, labels) = ground arith
  report-Relabels device (c, s ∷ steps) h (honest, labels) = ground arith

  branch-Relabels :
      (w : Wanted)
      → w ≡ present
      → is_empty p.label ≡ false
      → (device : DeviceInfo) → Returns Relabels (branch sys p w device)
  branch-Relabels present asks h device = record {
    value = λ s a e. report-Relabels device a h ((present_branch-Returns device).value s a e);
  }
  branch-Relabels absent asks h device = cc
  branch-Relabels info asks h device = cc

  -- A run to the state `present` that is given a label and succeeds reports a change, and its
  -- script puts a label on the disk, whatever label the disk has.
  pub main_relabels :
      (r : Report)
      → p.state ≡ present
      → is_empty p.label ≡ false
      → (main sys p []).0 ≡ ok r
      → (r.changed ≡ true) × (is_empty (labels_of r.output_script) ≡ false)
  main_relabels r asks h e = (main-Returns Relabels (branch-Relabels p.state asks h)).value [] r e
