-- ===== src/Parted/Machine/Unlabeled.antt =====
-- A disk without a label of which the kernel has no size.
use freeipa_cloud_prov.Prelude.{ℕ, suc, ◌*◌, ◌≡◌, refl, ap, List, ◌++◌, arith}
use freeipa_cloud_prov.Prelude.Texts.{Text, codes}
use freeipa_cloud_prov.Prelude.Numerals.{ℤ, pos, negsuc}
use freeipa_cloud_prov.Result.{ok, err}
use freeipa_cloud_prov.Parted.Failures.{int, type_error}
use freeipa_cloud_prov.Parted.Units.{format_disk_size}
use freeipa_cloud_prov.Parted.Machine.{
  Command, System, read_record, basename, minus, ◌*ℤ◌, get_unlabeled_device_info,
}

zero-times : (n : ℤ) → pos 0 *ℤ n ≡ pos 0
unfolding ◌*ℤ◌ minus
zero-times (pos n) = ap (λ k. pos k) (omega arith)
zero-times (negsuc n) = rw (none_of n) refl
  where
    none_of : (k : ℕ) → 0 * suc k ≡ 0
    none_of k = omega arith

-- For a disk without a label whose size the kernel gives as zero or does not give, and whose block
-- sizes can be read, the information ends with a `TypeError`, in every unit.
pub get_unlabeled_device_info-TypeError :
    (sys : System) (device unit : Text) (commands : List Command) (logic phys : ℤ)
    → let base : Text = codes "/sys/block/" ++ basename device in
      int (read_record sys (base ++ codes "/queue/logical_block_size") (codes "0")) ≡ ok logic
      → int (read_record sys (base ++ codes "/queue/physical_block_size") (codes "0")) ≡ ok phys
      → int (read_record sys (base ++ codes "/size") (codes "0")) ≡ ok (pos 0)
      → get_unlabeled_device_info sys device unit commands ≡ (err type_error, commands)
unfolding get_unlabeled_device_info format_disk_size
get_unlabeled_device_info-TypeError sys device unit commands logic phys l q z =
    rw (l, q, z, zero-times logic) refl
