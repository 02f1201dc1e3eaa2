-- ===== src/Parted/Run.antt =====
-- `main`: the scripts that bring a partition to the requested state.
pub mod Dry
pub mod Flags
pub mod Changed
pub mod Settled
use freeipa_cloud_prov.Prelude.{
  Bool, true, false, not, ◌&&◌, ◌||◌, Option, none, some, List, [], ◌∷◌, ◌++◌, map, if◌then◌else◌,
  eqb,
}
use freeipa_cloud_prov.Prelude.Lists.{is_empty, select}
use freeipa_cloud_prov.Prelude.Texts.{Text, codes, same_text, text_in, strip}
use freeipa_cloud_prov.Prelude.Numerals.{ℤ, pos, negsuc}
use freeipa_cloud_prov.Result.{Result, ok, err}
use freeipa_cloud_prov.Exec.{Exec, pure, raise, lift, ◌>>=◌, ◌>>◌}
use freeipa_cloud_prov.Parted.Failures.{Failure, fail_json, index_error}
use freeipa_cloud_prov.Parted.Units.{check_size_format}
use freeipa_cloud_prov.Parted.Info.{Generic, Partition, DeviceInfo}
use freeipa_cloud_prov.Parted.Machine.{
  Step, unit, mklabel, mkpart, name, set, rm, show, Command, System, M, get_device_info, parted,
}

pub data Wanted : Type 0 where
  present absent info : Wanted

-- `module.params`. A text or a list that is `None` and one that is empty are both false: [].
pub record Params : Type 0 where
  pub device : Text
  pub align : Text
  pub number : Option ℤ
  pub unit_ : Text
  pub label : Text
  pub part_type : Text
  pub fs_type : Text
  pub part_start : Text
  pub part_end : Text
  pub part_name : Text
  pub flags : List Text
  pub state : Wanted
  pub check_mode : Bool

abbrev pub is_zero : ℤ → Bool
is_zero (pos n) = eqb n 0
is_zero (negsuc n) = false

abbrev pub same_number : ℤ → ℤ → Bool
same_number (pos a) (pos b) = eqb a b
same_number (negsuc a) (negsuc b) = eqb a b
same_number (pos _) (negsuc _) = false
same_number (negsuc _) (pos _) = false

-- `part['num'] == number`
abbrev pub is_number : Option ℤ → Partition → Bool
is_number none part = false
is_number (some n) part = same_number part.num n

-- `part_exists(partitions, 'num', number)`
abbrev pub part_exists : List Partition → Option ℤ → Bool
part_exists [] number = false
part_exists (part ∷ parts) number =
    (not (is_zero part.num) && is_number number part) || part_exists parts number

-- `[p for p in parts if p['num'] == number][0]`
abbrev pub first_part : List Partition → Result Failure Partition
first_part [] = err index_error
first_part (part ∷ _) = ok part

unfoldable pub part_numbered : List Partition → Option ℤ → Result Failure Partition
part_numbered parts number = first_part (select (is_number number) parts)

-- The label that `mklabel` is given; none for the empty text.
abbrev pub label_for : Params → Generic → Text
label_for p generic =
    if is_empty generic.table || (same_text generic.table (codes "unknown") && is_empty p.label)
    then codes "msdos"
    else p.label

abbrev pub label_steps : Text → List Step
label_steps label = if is_empty label then [] else mklabel label ∷ []

abbrev pub part_steps : Params → List Partition → List Step
part_steps p parts =
    if is_empty p.part_type || part_exists parts p.number
    then []
    else mkpart p.part_type p.fs_type p.part_start p.part_end ∷ []

-- `if unit and script: script = "unit %s %s" % (unit, script)`
abbrev pub in_unit : Text → List Step → List Step
in_unit u [] = []
in_unit u (s ∷ steps) = if is_empty u then s ∷ steps else unit u ∷ s ∷ steps

unfoldable pub first_script : Params → DeviceInfo → List Step
first_script p device =
    in_unit p.unit_ (label_steps (label_for p device.generic) ++ part_steps p device.partitions)

-- `list(set(xs) - set(ys))`, in the order of the list
abbrev pub texts_without : List Text → List Text → List Text
texts_without ys [] = []
texts_without ys (x ∷ xs) =
    let rest = texts_without ys xs in if text_in ys x || text_in rest x then rest else x ∷ rest

abbrev pub set_each : Option ℤ → Bool → List Text → List Step
set_each number state [] = []
set_each number state (f ∷ flags) = set number f state ∷ set_each number state flags

abbrev pub name_steps : Params → List Step
name_steps p = if is_empty p.part_name then [] else name p.number p.part_name ∷ []

unfoldable pub flag_steps : Params → List Text → List Step
flag_steps p there =
    if is_empty p.flags
    then []
    else set_each p.number true (texts_without there p.flags)
      ++ set_each p.number false (texts_without p.flags there)

unfoldable pub second_script : Params → List Text → List Step
second_script p there = in_unit p.unit_ (name_steps p ++ flag_steps p there)

pub record Report : Type 0 where
  pub changed : Bool
  pub output_script : List Step
  pub disk : Generic
  pub partitions : List Partition

-- What the branches give: whether something changed, and the scripts one after the other.
abbrev pub Done : Type 0
Done = Bool × List Step

module _ (sys : System) (p : Params) where
  -- A script that is not empty is run, and the partitions are read again.
  unfoldable pub run_first : List Step → List Partition → M (List Partition)
  run_first steps parts = if is_empty steps then pure parts else (do
    parted sys p.check_mode steps p.device p.align
    device ← get_device_info sys p.device p.unit_
    pure device.partitions)

  unfoldable pub flags_there : List Partition → M (List Text)
  flags_there parts =
      if p.check_mode
      then pure []
      else (do part ← lift (part_numbered parts p.number); pure part.flags)

  unfoldable pub steps_of_partition : List Partition → M (List Step)
  steps_of_partition parts =
      if part_exists parts p.number || p.check_mode
      then (do there ← flags_there parts; pure (second_script p there))
      else pure []

  unfoldable pub present_branch : DeviceInfo → M Done
  present_branch device = do
    let first : List Step = first_script p device
    parts ← run_first first device.partitions
    second ← steps_of_partition parts
    parted sys p.check_mode second p.device p.align
    pure (not (is_empty first) || not (is_empty second), first ++ second)

  unfoldable pub absent_branch : DeviceInfo → M Done
  absent_branch device =
      if part_exists device.partitions p.number || p.check_mode
      then (do
        parted sys p.check_mode (rm p.number ∷ []) p.device p.align
        pure (true, rm p.number ∷ []))
      else pure (false, [])

  abbrev pub branch : Wanted → DeviceInfo → M Done
  branch present device = present_branch device
  branch absent device = absent_branch device
  branch info device = pure (false, show p.unit_ ∷ [])

  abbrev pub is_negative : Option ℤ → Bool
  is_negative (some (negsuc _)) = true
  is_negative (some (pos _)) = false
  is_negative none = false

  abbrev pub wrong_size : Text → Failure
  wrong_size argument = fail_json (
      codes "The argument '"
      ++ (argument ++ codes "' doesn't respect required format.The size unit is case sensitive."))

  -- The checks before anything is run.
  unfoldable pub check_params : M (Unit {0})
  check_params =
      if is_negative p.number
      then raise (fail_json (codes "The partition number must be non negative."))
      else (do
        start ← lift (check_size_format p.part_start)
        (if start then pure tt else raise (wrong_size (codes "part_start")))
        end ← lift (check_size_format p.part_end)
        if end then pure tt else raise (wrong_size (codes "part_end")))

  unfoldable pub main : M Report
  main = do
    check_params
    device ← get_device_info sys p.device p.unit_
    done ← branch p.state device
    final ← get_device_info sys p.device p.unit_
    pure (record {
      changed = done.0;
      output_script = done.1;
      disk = final.generic;
      partitions = final.partitions;
    })
