-- ===== src/Parted/Info/RoundTrip.antt =====
-- Reading back what parted prints of a disk.
use freeipa_cloud_prov.Prelude.{◌≡◌, refl, false, none, some, List, [], ◌∷◌, arith}
use freeipa_cloud_prov.Prelude.Texts.{Text, codes, lower, same_text, join}
use freeipa_cloud_prov.Prelude.Numerals.{ℤ}
use freeipa_cloud_prov.Result.{ok, err, ◌>>=◌}
use freeipa_cloud_prov.Parted.Failures.{R, item, int}
use freeipa_cloud_prov.Parted.Units.{Size, parse_unit}
use freeipa_cloud_prov.Parted.Info.{
  Generic, Partition, DeviceInfo, has_chs_line, read_partition, read_partitions, read_generic,
  parse_partition_info,
}
use freeipa_cloud_prov.Parted.Info.Lines.{
  AllPlain, lines_of_fields, output_of, fields_of-line_of, lines_of-output_of,
}
use freeipa_cloud_prov.Parted.Info.Flags.{between, AllFlags, read_flags-join}

-- A partition as parted holds it, before it is printed.
pub record Row : Type 0 where
  pub num : Text
  pub begin : Text
  pub end : Text
  pub size : Text
  pub fstype : Text
  pub name : Text
  pub flags : List Text

-- The disk as parted holds it: the path is the first field.
pub record Disk : Type 0 where
  pub dev : Text
  pub size : Text
  pub transport : Text
  pub logical : Text
  pub physical : Text
  pub table : Text
  pub model : Text

abbrev pub disk_fields : Disk → List Text
disk_fields d = d.dev ∷ d.size ∷ d.transport ∷ d.logical ∷ d.physical ∷ d.table ∷ d.model ∷ []

abbrev pub row_fields : Row → List Text
row_fields r = r.num ∷ r.begin ∷ r.end ∷ r.size ∷ r.fstype ∷ r.name ∷ join between r.flags ∷ []

abbrev pub all_fields : List Row → List (List Text)
all_fields [] = []
all_fields (r ∷ rows) = row_fields r ∷ all_fields rows

-- What parted prints: the header, the disk and the partitions.
abbrev pub printed : Text → Disk → List Row → Text
printed header disk rows =
    output_of (lines_of_fields ((header ∷ []) ∷ disk_fields disk ∷ all_fields rows))

abbrev pub RowsFlags : List Row → Type 0
RowsFlags [] = Unit
RowsFlags (r ∷ rows) = AllFlags r.flags × RowsFlags rows

-- The numbers of a partition, read one by one: nothing of the line format is left.
unfoldable pub partition_of : Text → Row → R Partition
partition_of unit r = do
  size ← parse_unit r.size []
  num ← int r.num
  begin ← parse_unit r.begin []
  end ← parse_unit r.end []
  ok (record {
    num = num;
    begin = begin.0;
    end = end.0;
    size = some size.0;
    fstype = r.fstype;
    flags = r.flags;
    unit = lower unit;
  })

unfoldable pub partitions_of : Text → List Row → R (List Partition)
partitions_of unit [] = ok []
partitions_of unit (r ∷ rows) = do
  part ← partition_of unit r
  parts ← partitions_of unit rows
  ok (part ∷ parts)

unfoldable pub device_of : Size × Text → Disk → List Row → R DeviceInfo
device_of (size, unit) disk rows = do
  logical ← int disk.logical
  physical ← int disk.physical
  parts ← partitions_of unit rows
  ok (record {
    generic = record {
      dev = disk.dev;
      size = size;
      unit = lower unit;
      table = disk.table;
      model = disk.model;
      logical_block = logical;
      physical_block = physical;
      chs_info = none;
    };
    partitions = parts;
  })

read_partition_row :
    (unit : Text) (r : Row)
    → same_text unit (codes "chs") ≡ false
    → AllFlags r.flags
    → read_partition unit (row_fields r) ≡ partition_of unit r
unfolding read_partition partition_of item
read_partition_row unit r other flags = rw (other, read_flags-join r.flags flags) refl

read_partitions_rows :
    (unit : Text) (rows : List Row)
    → same_text unit (codes "chs") ≡ false
    → AllPlain (all_fields rows)
    → RowsFlags rows
    → read_partitions unit (lines_of_fields (all_fields rows)) ≡ partitions_of unit rows
unfolding read_partitions partitions_of
read_partitions_rows unit [] other plain flags = refl
read_partitions_rows unit (r ∷ rows) other (p, plain) (f, flags) =
    rw
      (
        fields_of-line_of r.num
            (r.begin ∷ r.end ∷ r.size ∷ r.fstype ∷ r.name ∷ join between r.flags ∷ []) p,
        read_partition_row unit r other f,
        read_partitions_rows unit rows other plain flags,
      )
      refl

not_chs : (unit : Text) → has_chs_line unit ≡ false → same_text unit (codes "chs") ≡ false
not_chs unit h = ground arith

reassociate :
    (make : ℤ → ℤ → Generic) (next : Generic → R DeviceInfo) (logical physical : R ℤ)
    → (logical >>= (λ a. physical >>= (λ b. ok (make a b))) >>= next)
      ≡ (logical >>= (λ a. physical >>= (λ b. next (make a b))))
reassociate make next (ok a) (ok b) = refl
reassociate make next (ok a) (err e) = refl
reassociate make next (err e) physical = refl

read_generic-device_of :
    (size : Size) (unit : Text) (disk : Disk) (rows : List Row)
    → (read_generic (disk_fields disk) (size, unit) >>= λ generic.
        partitions_of unit rows >>= λ parts. ok (record { generic = generic; partitions = parts }))
      ≡ device_of (size, unit) disk rows
unfolding read_generic device_of item
read_generic-device_of size unit disk rows = reassociate _ _ (int disk.logical) (int disk.physical)

-- Of the output that is printed for a disk and its partitions, `parse_partition_info` gives that
-- disk and those partitions: the texts and the flags as they were, and what each number and size is
-- read as, or the error of the first that cannot be read. No field has a colon, a semicolon or a
-- newline; a flag is not empty, has no comma and no space at its ends; the size of the disk can be
-- read, and its unit is neither `cyl` nor `chs`.
pub parse_partition_info-printed :
    (header : Text) (disk : Disk) (rows : List Row) (default : Text) (size : Size) (unit : Text)
    → parse_unit disk.size default ≡ ok (size, unit)
    → has_chs_line unit ≡ false
    → AllPlain ((header ∷ []) ∷ disk_fields disk ∷ all_fields rows)
    → RowsFlags rows
    → parse_partition_info (printed header disk rows) default ≡ device_of (size, unit) disk rows
unfolding parse_partition_info item
parse_partition_info-printed header disk rows default size unit sized other (h, (d, plain)) flags =
    rw
      (
        lines_of-output_of (header ∷ []) (disk_fields disk ∷ all_fields rows) (h, (d, plain)),
        fields_of-line_of disk.dev
            (disk.size ∷ disk.transport ∷ disk.logical ∷ disk.physical ∷ disk.table ∷ disk.model
              ∷ [])
            d,
        sized,
        other,
        read_partitions_rows unit rows (not_chs unit other) plain flags,
      )
      (read_generic-device_of size unit disk rows)
