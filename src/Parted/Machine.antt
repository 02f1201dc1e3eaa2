-- ===== src/Parted/Machine.antt =====
-- The functions that run parted or read the kernel's files. Both are parameters: what a command
-- prints is a function of the commands that were run before it.
pub mod Version
pub mod Unlabeled
use freeipa_cloud_prov.Prelude.{
  ℕ, zero, suc, ◌+◌, ◌*◌, Bool, true, false, not, ◌&&◌, ◌||◌, Option, none, some, List, [], ◌∷◌,
  ◌++◌, if◌then◌else◌, ltb, leb, eqb,
}
use freeipa_cloud_prov.Prelude.Lists.{is_empty}
use freeipa_cloud_prov.Prelude.Texts.{Text, codes, lower, infix_of, prefix_of, strip, split}
use freeipa_cloud_prov.Prelude.Numerals.{ℤ, pos, negsuc, is_digit}
use freeipa_cloud_prov.Result.{Result, ok, err}
use freeipa_cloud_prov.Exec.{Exec, pure, raise, lift, ◌>>=◌, ◌>>◌}
use freeipa_cloud_prov.Parted.Failures.{Failure, fail_json, R, int, item}
use freeipa_cloud_prov.Parted.Units.{
  Decimal, Size, number, format_disk_size, unpacked, span, digits_value,
}
use freeipa_cloud_prov.Parted.Info.{Generic, DeviceInfo, lines_of, parse_partition_info}

-- One command of a parted script.
pub data Step : Type 0 where
  unit : Text → Step
  mklabel : Text → Step
  mkpart : Text → Text → Text → Text → Step
  name : Option ℤ → Text → Step
  set : Option ℤ → Text → Bool → Step
  rm : Option ℤ → Step
  show : Text → Step

-- The commands that are run. The executable is left out, the arguments are those after it.
pub data Command : Type 0 where
  version : Command
  print_label : Text → Command
  print_unit : Text → Text → Command
  script : Text → Text → List Step → Command

-- `succeeds` is `rc == 0`.
pub record Output : Type 0 where
  pub succeeds : Bool
  pub out : Text
  pub error : Text

-- `first_line` is the first line of a file, `none` where an `IOError` is raised.
pub record System : Type 0 where
  pub run_command : List Command → Command → Output
  pub first_line : Text → Option Text

-- The state: the commands that were run, oldest first.
abbrev pub M : Type 0 → Type 0
M A = Exec Failure (List Command) A

unfoldable pub run_command : System → Command → M Output
run_command sys c commands = (ok (sys.run_command commands c), commands ++ (c ∷ []))

-- The digits at the start, and what is behind them; `none` without a digit.
abbrev pub leading_number : Text × Text → Option (ℕ × Text)
leading_number ([], rest) = none
leading_number (c ∷ cs, rest) = some (digits_value 0 (c ∷ cs), rest)

abbrev pub revision : ℕ → ℕ → Text → Option (ℕ × ℕ × ℕ)
revision major minor [] = some (major, minor, 0)
revision major minor (c ∷ cs) = elim (leading_number (span is_digit cs)) [
  | none ↦ none
  | some (rev, rest) ↦ if eqb c b'.' && is_empty rest then some (major, minor, rev) else none
]

abbrev pub minor_of : ℕ → Text → Option (ℕ × ℕ × ℕ)
minor_of major [] = none
minor_of major (c ∷ cs) = elim (leading_number (span is_digit cs)) [
  | none ↦ none
  | some (minor, rest) ↦ if eqb c b'.' then revision major minor rest else none
]

-- `(\d+)\.(\d+)(?:\.(\d+))?$` at the start of a text
unfoldable pub version_here : Text → Option (ℕ × ℕ × ℕ)
version_here text = elim (leading_number (span is_digit text)) [
  | none ↦ none
  | some (major, rest) ↦ minor_of major rest
]

-- The same as far back as it matches, since the `.+` before it takes all it can.
unfoldable pub last_version : Text → Option (ℕ × ℕ × ℕ)
last_version [] = none
last_version (c ∷ cs) = elim (last_version cs) [ some v ↦ some v | none ↦ version_here (c ∷ cs) ]

-- What is behind `parted` and one character more, if the line begins so.
unfoldable pub behind_name : Text → Option Text
behind_name line =
    if prefix_of (codes "parted") line
    then elim line [ _ ∷ _ ∷ _ ∷ _ ∷ _ ∷ _ ∷ _ ∷ rest ↦ some rest | _ ↦ none ]
    else none

-- `^parted.+(\d+)\.(\d+)(?:\.(\d+))?$`
unfoldable pub match_version : Text → Option (ℕ × ℕ × ℕ)
match_version line = elim (behind_name line) [ none ↦ none | some rest ↦ last_version rest ]

abbrev pub no_version : Failure
no_version = fail_json (codes "Failed to get parted version.")

abbrev pub version_of_lines : List Text → R (ℕ × ℕ × ℕ)
version_of_lines [] = err no_version
version_of_lines (line ∷ _) = elim (match_version line) [ none ↦ err no_version | some v ↦ ok v ]

-- What `sysfs` has for a device.
abbrev pub read_record : System → Text → Text → Text
read_record sys path default = elim (sys.first_line path) [
  | none ↦ default
  | some line ↦ strip line
]

-- `os.path.basename(path)`
unfoldable pub basename : Text → Text
basename [] = []
basename (c ∷ cs) =
    let rest = basename cs in
    if eqb c b'/' then rest else if infix_of (b'/' ∷ []) cs then rest else c ∷ cs

minus : ℕ → ℤ
minus zero = pos 0
minus (suc n) = negsuc n

infixl 70 ◌*ℤ◌
unfoldable pub ◌*ℤ◌ : ℤ → ℤ → ℤ
unfolding minus
pos a *ℤ pos b = pos (a * b)
pos a *ℤ negsuc b = minus (a * suc b)
negsuc a *ℤ pos b = minus (suc a * b)
negsuc a *ℤ negsuc b = pos (suc a * suc b)

module _ (sys : System) where
  unfoldable pub parted_version : M (ℕ × ℕ × ℕ)
  parted_version = do
    output ← run_command sys version
    if output.succeeds then lift (version_of_lines (lines_of output.out)) else raise no_version

  -- The versions that print what they know of a disk without a label.
  abbrev pub prints_unlabeled : ℕ × ℕ × ℕ → Bool
  prints_unlabeled (major, minor, _) = (eqb major 3 && leb 1 minor) || ltb 3 major

  unfoldable pub check_parted_label : Text → M Bool
  check_parted_label device = do
    v ← parted_version
    if prints_unlabeled v then pure false else (do
      output ← run_command sys (print_label device)
      pure (not output.succeeds && infix_of (codes "unrecognised disk label") (lower output.out)))

  unfoldable pub get_unlabeled_device_info : Text → Text → M DeviceInfo
  get_unlabeled_device_info device unit_ =
      let base : Text = codes "/sys/block/" ++ basename device in
      let vendor = read_record sys (base ++ codes "/device/vendor") (codes "Unknown") in
      let model = read_record sys (base ++ codes "/device/model") (codes "model") in
      (do
        logic ← lift (int (read_record sys (base ++ codes "/queue/logical_block_size") (codes "0")))
        phys ← lift (int (read_record sys (base ++ codes "/queue/physical_block_size") (codes "0")))
        size ← lift (int (read_record sys (base ++ codes "/size") (codes "0")))
        formatted ← lift (format_disk_size (size *ℤ logic) unit_)
        shown ← lift (unpacked formatted)
        pure (record {
          generic = record {
            dev = device;
            size = number shown.0;
            unit = shown.1;
            table = codes "unknown";
            model = vendor ++ (b' ' ∷ model);
            logical_block = logic;
            physical_block = phys;
            chs_info = none;
          };
          partitions = [];
        }))

  abbrev pub device_error : Failure
  device_error = fail_json (codes "Error while getting device information with parted script")

  -- What is made of parted's output. The messages here are without the command that they end with.
  abbrev pub info_of : Output → Text → R DeviceInfo
  info_of output unit_ =
      if not output.succeeds && not (infix_of (codes "unrecognised disk label") output.error)
      then err device_error
      else parse_partition_info output.out unit_

  unfoldable pub get_device_info : Text → Text → M DeviceInfo
  get_device_info device unit_ = do
    label_needed ← check_parted_label device
    if label_needed
        then get_unlabeled_device_info device unit_
        else (do output ← run_command sys (print_unit device unit_); lift (info_of output unit_))

  -- `parted`: runs a script, unless it is empty or in check mode.
  unfoldable pub parted : Bool → List Step → Text → Text → M (Unit {0})
  parted check_mode steps device align = if is_empty steps || check_mode then pure tt else (do
    output ← run_command sys (script align device steps)
    if output.succeeds
        then pure tt
        else raise (fail_json (codes "Error while running parted script")))
