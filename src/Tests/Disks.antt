-- ===== src/Tests/Disks.antt =====
-- The theorems on parted, applied to concrete disks.
use freeipa_cloud_prov.Prelude.{
  ◌≡◌, refl, inl, Bool, true, false, Option, none, some, [], ◌∷◌, ◌++◌, arith, if◌then◌else◌,
}
use freeipa_cloud_prov.Prelude.Lists.{is_empty}
use freeipa_cloud_prov.Prelude.Texts.{Text, codes, text_in, join, split}
use freeipa_cloud_prov.Prelude.Numerals.{ℤ, pos, int_of_codes}
use freeipa_cloud_prov.Result.{ok, err}
use freeipa_cloud_prov.Parted.Failures.{type_error, int, item}
use freeipa_cloud_prov.Parted.Units.{
  Size, number, parse_unit, float, digits_value, check_size_format, span, drop_newline, decimal_on,
  chs_groups,
}
use freeipa_cloud_prov.Parted.Info.{
  Generic, Partition, DeviceInfo, parse_partition_info, lines_of, fields_of, split_flags,
  read_flags, read_partition, read_partitions, read_generic, read_chs,
}
use freeipa_cloud_prov.Parted.Info.RoundTrip.{
  Row, Disk, printed, device_of, parse_partition_info-printed,
}
use freeipa_cloud_prov.Parted.Machine.{
  Command, unit, mklabel, set, basename, version, print_label, print_unit, script, System,
  match_version, get_unlabeled_device_info, get_device_info, check_parted_label, parted_version,
  run_command, parted, version_here, last_version, behind_name,
}
use freeipa_cloud_prov.Parted.Machine.Version.{match_version_last}
use freeipa_cloud_prov.Parted.Machine.Unlabeled.{get_unlabeled_device_info-TypeError}
use freeipa_cloud_prov.Parted.Run.{
  present, Params, same_number, second_script, present_branch, Report, main, part_numbered,
  check_params, run_first, flags_there, steps_of_partition, first_script, flag_steps,
}
use freeipa_cloud_prov.Parted.Run.Dry.{NoScript, main_quiet}
use freeipa_cloud_prov.Parted.Run.Flags.{flag_after, flag_after-second_script}
use freeipa_cloud_prov.Parted.Run.Changed.{labels_of, main_relabels}
use freeipa_cloud_prov.Parted.Run.Settled.{present_branch_settled}

abbrev sda : Disk
sda = record {
  dev = codes "/dev/sda";
  size = codes "107.4GB";
  transport = codes "scsi";
  logical = codes "512";
  physical = codes "4096";
  table = codes "gpt";
  model = codes "A disk";
}

abbrev root_row : Row
root_row = record {
  num = codes "1";
  begin = codes "1.0MB";
  end = codes "50GB";
  size = codes "49GB";
  fstype = codes "ext4";
  name = codes "root";
  flags = codes "boot" ∷ codes "lvm" ∷ [];
}

abbrev size_of_sda : Size
size_of_sda = number (record { mantissa = pos 1074; places = 1 })

parse_partition_info-printed_example :
    parse_partition_info (printed (codes "BYT") sda (root_row ∷ [])) (codes "GB")
    ≡ device_of (size_of_sda, codes "GB") sda (root_row ∷ [])
unfolding parse_unit float join
parse_partition_info-printed_example =
    parse_partition_info-printed (codes "BYT") sda (root_row ∷ []) (codes "GB") size_of_sda
      (codes "GB") refl refl (ground arith) (ground arith)

-- A task that wants the flags `boot` and `esp` on the first partition of a labelled disk.
abbrev task : Params
task = record {
  device = codes "/dev/sda";
  align = codes "optimal";
  number = some (pos 1);
  unit_ = codes "GB";
  label = [];
  part_type = codes "primary";
  fs_type = [];
  part_start = codes "0%";
  part_end = codes "100%";
  part_name = [];
  flags = codes "boot" ∷ codes "esp" ∷ [];
  state = present;
  check_mode = false;
}

flag_after-second_script_example :
    (flag_after (pos 1) (codes "lvm") (second_script task (codes "lvm" ∷ [])) true ≡ false)
    × ((other : ℤ) (had : Bool)
        → same_number (pos 1) other ≡ false
        → flag_after other (codes "lvm") (second_script task (codes "lvm" ∷ [])) had ≡ had)
flag_after-second_script_example =
    flag_after-second_script task (codes "lvm" ∷ []) (pos 1) (codes "lvm") refl

-- A system with version 3.2 and the disk.
abbrev answer : Command → Text
answer version = codes "parted (GNU parted) 3.2"
answer (print_label device) = []
answer (print_unit device u) = printed (codes "BYT") sda (root_row ∷ [])
answer (script align device steps) = []

abbrev system : System
system = record {
  run_command = λ commands c. record { succeeds = true; out = answer c; error = [] };
  first_line = λ path. none;
}

abbrev dry_task : Params
dry_task = record task { check_mode = true }

main_quiet_example : NoScript ((main system dry_task []).1)
main_quiet_example = main_quiet system dry_task (inl refl)

abbrev part_of_sda : Partition
part_of_sda = record {
  num = pos 1;
  begin = number (record { mantissa = pos 10; places = 1 });
  end = number (record { mantissa = pos 50; places = 0 });
  size = some (number (record { mantissa = pos 49; places = 0 }));
  fstype = codes "ext4";
  flags = codes "boot" ∷ codes "esp" ∷ [];
  unit = codes "gb";
}

abbrev generic_of_sda : Generic
generic_of_sda = record {
  dev = codes "/dev/sda";
  size = size_of_sda;
  unit = codes "gb";
  table = codes "gpt";
  model = codes "A disk";
  logical_block = pos 512;
  physical_block = pos 4096;
  chs_info = none;
}

abbrev info_of_sda : DeviceInfo
info_of_sda = record { generic = generic_of_sda; partitions = part_of_sda ∷ [] }

present_branch_settled_example : present_branch system task info_of_sda [] ≡ (ok (false, []), [])
unfolding part_numbered
present_branch_settled_example =
    present_branch_settled system task info_of_sda part_of_sda [] refl refl refl refl refl refl refl
      (λ f. refl)

match_version_last_example :
    match_version
      (codes "parted" ++ (b' ' ∷ (codes "(GNU parted) 3." ++ (b'1' ∷ b'.' ∷ b'2' ∷ []))))
    ≡ some (1, 2, 0)
unfolding digits_value
match_version_last_example =
    match_version_last b' ' b'1' b'2' (codes "(GNU parted) 3.") [] refl refl

-- A system whose kernel knows the block sizes of a disk, but no size.
abbrev block_line : Text → Option Text
block_line path =
    if text_in (codes "/sys/block/sdb/size" ∷ []) path then none else some (codes "512")

abbrev sizeless : System
sizeless = record {
  run_command = λ commands c. record { succeeds = true; out = answer c; error = [] };
  first_line = block_line;
}

get_unlabeled_device_info-TypeError_example :
    get_unlabeled_device_info sizeless (codes "/dev/sdb") (codes "KiB") [] ≡ (err type_error, [])
unfolding int int_of_codes basename
get_unlabeled_device_info-TypeError_example =
    get_unlabeled_device_info-TypeError sizeless (codes "/dev/sdb") (codes "KiB") [] (pos 512)
      (pos 512) refl refl refl

abbrev labelling : Params
labelling = record task { label = codes "gpt" }

abbrev labelled_report : Report
labelled_report = record {
  changed = true;
  output_script =
      unit (codes "GB")
      ∷ mklabel (codes "gpt")
      ∷ unit (codes "GB")
      ∷ set (some (pos 1)) (codes "esp") true
      ∷ set (some (pos 1)) (codes "lvm") false
      ∷ [];
  disk = generic_of_sda;
  partitions = record part_of_sda { flags = codes "boot" ∷ codes "lvm" ∷ [] } ∷ [];
}

main_relabels_example :
    (labelled_report.changed ≡ true) × (is_empty (labels_of labelled_report.output_script) ≡ false)
unfolding check_params run_first part_numbered flags_there steps_of_partition first_script
    flag_steps second_script present_branch main check_size_format parse_unit float span
    drop_newline decimal_on digits_value chs_groups get_device_info check_parted_label
    parted_version run_command parted version_here last_version behind_name match_version lines_of
    fields_of split_flags read_flags read_partition read_partitions read_generic
    parse_partition_info read_chs item int split join int_of_codes
main_relabels_example = main_relabels system labelling labelled_report refl refl refl
