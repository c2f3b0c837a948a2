-- ===== src/Scale/Sysfs.antt =====
-- zram_scale/zram_sysfs.c: the attributes of a device. A show function returns the number that it prints,
-- and `none` where it reads the statistics of a NULL pointer. `reset_store` is given what
-- `strict_strtoul` makes of the text: a number, or `none` for an error.
use compcache.Common.{ℕ, ◌*◌, ◌/◌, ◌%◌, ◌^◌, Bool, Option, none, some, ◌==◌, if◌then◌else◌, add64}
use compcache.Common.Errno.{Code, success, einval, ebusy}
use compcache.Block.{page_size}
use compcache.Device.{bind, page_mask, sector_size}
use compcache.Xvmalloc.{xv_get_total_size_bytes}
use compcache.Scale.{
  stat_compr_size, stat_pages_zero, stat_pages_stored, stat_pages_expand, zram_get_stat,
}
use compcache.Scale.Disk.{Disk, zram_reset_device}
use compcache.Scale.Handlers.{
  stat_num_reads, stat_num_writes, stat_invalid_io, stat_notify_free, stat_discard,
}

unfoldable pub disksize_show : Disk → ℕ
disksize_show d = d.disksize

-- `strict_strtoull` is given the field itself: `n` is what it leaves there, also where it fails, and
-- `parsed` is whether it returns 0. Its error is -EINVAL.
unfoldable pub disksize_store : (parsed : Bool) (n : ℕ) → Disk → Code × Disk
disksize_store parsed n d =
    if d.init_done
    then (ebusy, d)
    else (if parsed
        then (let disksize = page_mask (n % 2 ^ 64) in
            (success, record d { disksize = disksize; capacity = disksize / sector_size }))
        else (einval, record d { disksize = n % 2 ^ 64 }))

unfoldable pub initstate_show : Disk → ℕ
initstate_show d = if d.init_done then 1 else 0

-- `holders` is `bdev->bd_holders`, where `bdget_disk` gives a device. The result `none` is a fault.
unfoldable pub reset_store : (ram_pages cpu holders : ℕ) → Option ℕ → Disk → Option (Code × Disk)
reset_store ram_pages cpu holders none d =
    if holders == 0 then some (einval, d) else some (ebusy, d)
reset_store ram_pages cpu holders (some do_reset) d =
    if holders == 0
    then (if do_reset == 0
        then some (einval, d)
        else (if d.init_done
            then bind (zram_reset_device ram_pages cpu d) (λ d'. some (success, d'))
            else some (success, d)))
    else some (ebusy, d)

-- `zram_get_stat` through the pointer of the device, over `cpus` possible CPUs.
abbrev pub get_stat : (cpus idx : ℕ) → Disk → Option ℕ
get_stat cpus idx d = if d.has_stats then some (zram_get_stat cpus idx d.zram) else none

unfoldable pub num_reads_show : ℕ → Disk → Option ℕ
num_reads_show cpus d = get_stat cpus stat_num_reads d

unfoldable pub num_writes_show : ℕ → Disk → Option ℕ
num_writes_show cpus d = get_stat cpus stat_num_writes d

unfoldable pub invalid_io_show : ℕ → Disk → Option ℕ
invalid_io_show cpus d = get_stat cpus stat_invalid_io d

unfoldable pub notify_free_show : ℕ → Disk → Option ℕ
notify_free_show cpus d = get_stat cpus stat_notify_free d

unfoldable pub discard_show : ℕ → Disk → Option ℕ
discard_show cpus d = get_stat cpus stat_discard d

unfoldable pub zero_pages_show : ℕ → Disk → Option ℕ
zero_pages_show cpus d = get_stat cpus stat_pages_zero d

unfoldable pub orig_data_size_show : ℕ → Disk → Option ℕ
orig_data_size_show cpus d =
    bind (get_stat cpus stat_pages_stored d) (λ pages. some (pages * page_size % 2 ^ 64))

unfoldable pub compr_data_size_show : ℕ → Disk → Option ℕ
compr_data_size_show cpus d = get_stat cpus stat_compr_size d

unfoldable pub mem_used_total_show : ℕ → Disk → Option ℕ
mem_used_total_show cpus d =
    if d.init_done
    then bind (get_stat cpus stat_pages_expand d) (λ pages.
      some (add64 (xv_get_total_size_bytes d.zram.heap.pool) (pages * page_size % 2 ^ 64)))
    else some 0
