-- ===== src/Scale/Disk.antt =====
-- zram_scale/zram_drv.c: a device with its size, its initialisation and its reset.
use compcache.Common.{
  ℕ, zero, suc, ◌+◌, ◌*◌, ◌/◌, ◌%◌, ◌^◌, Bool, true, false, not, ◌||◌, Option, none, some, [], ◌==◌,
  if◌then◌else◌, get_elem?, replicate,
}
use compcache.Common.Errno.{Code, success, enomem}
use compcache.Block.{page_size}
use compcache.Pool.{Heap}
use compcache.Device.{bind, default_disksize_perc_ram, page_mask, sector_size}
use compcache.Xvmalloc.{xv_create_pool}
use compcache.Scale.{Zram, zram_is_zero_page, zram_find_obj, zram_free_page, zram_inc_stat}

-- `struct zram`, with its pointers `table`, `mem_pool` and `stats` as the Boolean of their test, and the
-- capacity of its disk. `areas` is how many per-CPU areas for statistics the kernel holds that this
-- device asked for.
pub record Disk : Type 0 where
  pub zram : Zram
  pub has_table : Bool
  pub has_pool : Bool
  pub has_stats : Bool
  pub areas : ℕ
  pub init_done : Bool
  pub disksize : ℕ
  pub capacity : ℕ

-- `zram_inc_stat` through the pointer of the device: `none` is an access to the area of a NULL pointer.
abbrev pub inc_stat : (cpu idx : ℕ) → Disk → Option Disk
inc_stat cpu idx d =
    if d.has_stats then some (record d { zram = zram_inc_stat cpu idx d.zram }) else none

-- In 64 bits, where `ram_pages` is `totalram_pages`.
unfoldable pub zram_default_disksize : ℕ → ℕ
zram_default_disksize ram_pages =
    let disksize = default_disksize_perc_ram * (ram_pages / 100) % 2 ^ 64 in
    page_mask (disksize * page_size % 2 ^ 64)

-- Whether `zram_free_page` changes a statistic for an entry.
abbrev pub touches : ℕ → Bool
touches addr = zram_is_zero_page addr || not ((zram_find_obj addr).0 == 0)

abbrev pub free_uncounted : Option ℕ → Disk → Option Disk
free_uncounted none d = none
free_uncounted (some addr) d = if touches addr then none else some d

-- `zram_free_page` on a device: where `stats` is NULL it must not come to a statistic.
unfoldable pub free_page : (cpu index : ℕ) → Disk → Option Disk
free_page cpu index d =
    if d.has_stats
    then bind (zram_free_page cpu index d.zram) (λ z. some (record d { zram = z }))
    else free_uncounted (get_elem? d.zram.table index) d

-- The loop of `zram_reset_device`, with the number of pages left.
unfoldable pub reset_pages : (cpu n index : ℕ) → Disk → Option Disk
reset_pages cpu zero index d = some d
reset_pages cpu (suc n) index d = bind (free_page cpu index d) (reset_pages cpu n (index + 1))

-- What follows the loop. `memset(&zram->stats, ...)` clears the pointer, and the area stays.
unfoldable pub cleared : ℕ → Disk → Disk
cleared ram_pages d = record d {
  zram = record (d.zram) { table = [] };
  has_table = false;
  has_pool = false;
  has_stats = false;
  disksize = zram_default_disksize ram_pages;
}

unfoldable pub zram_reset_device : (ram_pages cpu : ℕ) → Disk → Option Disk
zram_reset_device ram_pages cpu d =
    bind (reset_pages cpu (d.disksize / page_size) 0 (record d { init_done = false }))
      (λ d'. some (cleared ram_pages d'))

-- What the kernel's allocators return to `zram_init_device`: whether each gives memory.
pub record Memory : Type 0 where
  pub ram_pages : ℕ
  pub table : Bool
  pub stats : Bool
  pub pool : Bool

-- The label `fail`.
abbrev pub init_failed : (ram_pages cpu : ℕ) → Disk → Option (Code × Disk)
init_failed ram_pages cpu d = bind (zram_reset_device ram_pages cpu d) (λ d'. some (enomem, d'))

-- From the allocation of the statistics on. `alloc_percpu` gives zeroed memory.
unfoldable pub init_stats : Memory → ℕ → Disk → Option (Code × Disk)
init_stats m cpu d =
    if m.stats
    then (let counted = record d {
      zram = record (d.zram) { stats = λ cpu idx. 0 };
      has_stats = true;
      areas = suc d.areas;
    } in
        if m.pool
        then (let heap : Heap = record { pool = xv_create_pool; mem = d.zram.heap.mem } in
            some (
              success,
              record counted {
                zram = record (counted.zram) { heap = heap };
                has_pool = true;
                init_done = true;
              },
            ))
        else init_failed m.ram_pages cpu (record counted { has_pool = false }))
    else init_failed m.ram_pages cpu (record d { has_stats = false })

-- From the allocation of the table on.
unfoldable pub init_table : Memory → ℕ → Disk → Option (Code × Disk)
init_table m cpu d =
    if m.table
    then init_stats m cpu (record d {
      zram = record (d.zram) { table = replicate (d.disksize / page_size) 0 };
      has_table = true;
      capacity = d.disksize / sector_size;
    })
    else init_failed m.ram_pages cpu
        (record d { zram = record (d.zram) { table = [] }; has_table = false; disksize = 0 })

unfoldable pub zram_init_device : Memory → ℕ → Disk → Option (Code × Disk)
zram_init_device m cpu d =
    if d.init_done
    then some (success, d)
    else init_table m cpu (record d {
      disksize = if d.disksize == 0 then zram_default_disksize m.ram_pages else d.disksize;
    })
