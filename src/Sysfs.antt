-- ===== src/Sysfs.antt =====
-- zram_sysfs.c: the attributes of a device. A show function returns the number that it prints; how a
-- number is printed and parsed is the kernel's. The function for `reset` is given what `strict_strtoul`
-- makes of the text: a number, or `none` for an error.
pub mod Attributes
mod Tests
use compcache.Common.{
  ℕ, ◌*◌, ◌/◌, ◌%◌, ◌^◌, Bool, Option, none, some, List, [], ◌∷◌, ◌==◌, if◌then◌else◌, add64,
}
use compcache.Common.Errno.{Code, success, einval, ebusy}
use compcache.Block.{page_size}
use compcache.Table.{Zram}
use compcache.Device.{bind, page_mask, sector_size, zram_reset_device}
use compcache.Xvmalloc.{xv_get_total_size_bytes}

-- `zram_stat64_read`
abbrev pub zram_stat64_read : ℕ → ℕ
zram_stat64_read v = v

-- `dev_to_zram`: the first device whose disk is `dev`, and the last one if none is. `is_dev` tests a
-- device; `none` is NULL.
unfoldable pub dev_to_zram {ℓ} : {A : Type ℓ} → (A → Bool) → List A → Option A
dev_to_zram is_dev [] = none
dev_to_zram is_dev (d ∷ []) = some d
dev_to_zram is_dev (d ∷ e ∷ ds) =
    let rest = dev_to_zram is_dev (e ∷ ds) in if is_dev d then some d else rest

unfoldable pub disksize_show : Zram → ℕ
disksize_show z = z.disksize

-- `strict_strtoull` is given the field itself: `n` is what it leaves there, also where it fails, and
-- `parsed` is whether it returns 0. Its error is -EINVAL.
unfoldable pub disksize_store : (parsed : Bool) (n : ℕ) → Zram → Code × Zram
disksize_store parsed n z =
    if z.init_done
    then (ebusy, z)
    else (if parsed
        then (let disksize = page_mask (n % 2 ^ 64) in
            (success, record z { disksize = disksize; capacity = disksize / sector_size }))
        else (einval, record z { disksize = n % 2 ^ 64 }))

unfoldable pub initstate_show : Zram → ℕ
initstate_show z = if z.init_done then 1 else 0

-- `holders` is `bdev->bd_holders`, where `bdget_disk` gives a device. The result `none` is a fault.
unfoldable pub reset_store : ℕ → Option ℕ → Zram → Option (Code × Zram)
reset_store holders none z = if holders == 0 then some (einval, z) else some (ebusy, z)
reset_store holders (some do_reset) z =
    if holders == 0
    then (if do_reset == 0
        then some (einval, z)
        else (if z.init_done
            then bind (zram_reset_device z) (λ z'. some (success, z'))
            else some (success, z)))
    else some (ebusy, z)

unfoldable pub num_reads_show : Zram → ℕ
num_reads_show z = zram_stat64_read z.stats.num_reads

unfoldable pub num_writes_show : Zram → ℕ
num_writes_show z = zram_stat64_read z.stats.num_writes

unfoldable pub invalid_io_show : Zram → ℕ
invalid_io_show z = zram_stat64_read z.stats.invalid_io

unfoldable pub notify_free_show : Zram → ℕ
notify_free_show z = zram_stat64_read z.stats.notify_free

unfoldable pub discard_show : Zram → ℕ
discard_show z = zram_stat64_read z.stats.discard

unfoldable pub zero_pages_show : Zram → ℕ
zero_pages_show z = z.stats.pages_zero

unfoldable pub orig_data_size_show : Zram → ℕ
orig_data_size_show z = z.stats.pages_stored * page_size % 2 ^ 64

unfoldable pub compr_data_size_show : Zram → ℕ
compr_data_size_show z = zram_stat64_read z.stats.compr_size

unfoldable pub mem_used_total_show : Zram → ℕ
mem_used_total_show z =
    if z.init_done
    then add64 (xv_get_total_size_bytes z.heap.pool) (z.stats.pages_expand * page_size % 2 ^ 64)
    else 0
