-- ===== src/Parted/Info.antt =====
-- `parse_partition_info`: what parted prints for machines.
pub mod Lines
pub mod Flags
pub mod RoundTrip
use freeipa_cloud_prov.Prelude.{
  Bool, true, false, not, ◌||◌, Option, none, some, List, [], ◌∷◌, map, if◌then◌else◌, eqb,
}
use freeipa_cloud_prov.Prelude.Lists.{is_empty, select, drop}
use freeipa_cloud_prov.Prelude.Texts.{
  Text, codes, lower, same_text, strip, rstrip, split, onto_first,
}
use freeipa_cloud_prov.Prelude.Numerals.{ℤ}
use freeipa_cloud_prov.Result.{ok, err, ◌>>=◌}
use freeipa_cloud_prov.Parted.Failures.{R, item, int}
use freeipa_cloud_prov.Parted.Units.{Size, parse_unit}

-- The additional line for the units `cyl` and `chs`.
pub record ChsInfo : Type 0 where
  pub cylinders : ℤ
  pub heads : ℤ
  pub sectors : ℤ
  pub cyl_size : Size
  pub cyl_size_unit : Text

pub record Generic : Type 0 where
  pub dev : Text
  pub size : Size
  pub unit : Text
  pub table : Text
  pub model : Text
  pub logical_block : ℤ
  pub physical_block : ℤ
  pub chs_info : Option ChsInfo

-- `size` is `none` for the empty text that stands there under the unit `chs`.
pub record Partition : Type 0 where
  pub num : ℤ
  pub begin : Size
  pub end : Size
  pub size : Option Size
  pub fstype : Text
  pub flags : List Text
  pub unit : Text

pub record DeviceInfo : Type 0 where
  pub generic : Generic
  pub partitions : List Partition

-- `[x for x in out.split('\n') if x.strip() != '']`
unfoldable pub lines_of : Text → List Text
lines_of out = select (λ line. not (is_empty (strip line))) (split 10 out)

-- `line.rstrip(';').split(':')`
unfoldable pub fields_of : Text → List Text
fields_of line = split b':' (rstrip (λ c. eqb c b';') line)

-- `text.split(', ')`
unfoldable pub split_flags : Text → List Text
split_flags [] = [] ∷ []
split_flags (c ∷ []) = (c ∷ []) ∷ []
split_flags (c ∷ d ∷ cs) =
    let cut = split_flags cs in
    let kept = split_flags (d ∷ cs) in
    elim (eqb c b',') [
      | true ↦ elim (eqb d b' ') [ true ↦ [] ∷ cut | false ↦ onto_first c kept ]
      | false ↦ onto_first c kept
    ]

unfoldable pub read_flags : Text → List Text
read_flags flags = map strip (select (λ f. not (is_empty f)) (split_flags flags))

abbrev pub has_chs_line : Text → Bool
has_chs_line unit = same_text unit (codes "cyl") || same_text unit (codes "chs")

unfoldable pub read_chs : List Text → R ChsInfo
read_chs params = do
  size_text ← item params 3
  parsed ← parse_unit size_text []
  cylinders_text ← item params 0
  cylinders ← int cylinders_text
  heads_text ← item params 1
  heads ← int heads_text
  sectors_text ← item params 2
  sectors ← int sectors_text
  ok (record {
    cylinders = cylinders;
    heads = heads;
    sectors = sectors;
    cyl_size = parsed.0;
    cyl_size_unit = lower parsed.1;
  })

-- The entry of the line at hand, once its size, file system and flags are read.
abbrev pub with_extent : Text → List Text → Option Size × Text × Text → R Partition
with_extent unit params (size, fstype, flags) = do
  num_text ← item params 0
  num ← int num_text
  begin_text ← item params 1
  begin ← parse_unit begin_text []
  end_text ← item params 2
  end ← parse_unit end_text []
  ok (record {
    num = num;
    begin = begin.0;
    end = end.0;
    size = size;
    fstype = fstype;
    flags = read_flags flags;
    unit = lower unit;
  })

-- The body of the loop over the lines of partitions; `chs` has no size.
unfoldable pub read_partition : Text → List Text → R Partition
read_partition unit params =
    if same_text unit (codes "chs")
    then (do
      fstype ← item params 3
      flags ← item params 5
      with_extent unit params (none, fstype, flags))
    else (do
      size_text ← item params 3
      size ← parse_unit size_text []
      fstype ← item params 4
      flags ← item params 6
      with_extent unit params (some size.0, fstype, flags))

unfoldable pub read_partitions : Text → List Text → R (List Partition)
read_partitions unit [] = ok []
read_partitions unit (line ∷ lines) = do
  part ← read_partition unit (fields_of line)
  parts ← read_partitions unit lines
  ok (part ∷ parts)

-- The dict `generic`, before the line for `cyl` and `chs` is read.
unfoldable pub read_generic : List Text → Size × Text → R Generic
read_generic params (size, unit) = do
  dev ← item params 0
  table ← item params 5
  model ← item params 6
  logical_text ← item params 3
  logical ← int logical_text
  physical_text ← item params 4
  physical ← int physical_text
  ok (record {
    dev = dev;
    size = size;
    unit = lower unit;
    table = table;
    model = model;
    logical_block = logical;
    physical_block = physical;
    chs_info = none;
  })

abbrev pub with_partitions : Text → Generic → List Text → R DeviceInfo
with_partitions unit generic lines = do
  parts ← read_partitions unit lines
  ok (record { generic = generic; partitions = parts })

unfoldable pub parse_partition_info : Text → Text → R DeviceInfo
parse_partition_info parted_output default = do
  line ← item (lines_of parted_output) 1
  size_text ← item (fields_of line) 1
  parsed ← parse_unit size_text default
  generic ← read_generic (fields_of line) parsed
  if has_chs_line parsed.1
      then (do
        chs_line ← item (lines_of parted_output) 2
        chs_info ← read_chs (fields_of chs_line)
        with_partitions parsed.1 (record generic { chs_info = some chs_info })
            (drop 3 (lines_of parted_output)))
      else with_partitions parsed.1 generic (drop 2 (lines_of parted_output))
