-- ===== src/Device.antt =====
-- zram_drv.c: the size of a disk, its initialisation and its reset.
pub mod Bind
pub mod Init
pub mod Reset
mod Tests
use compcache.Common.{
  ℕ, zero, suc, ◌+◌, ◌*◌, ◌/◌, ◌%◌, ◌^◌, Bool, true, false, Option, none, some, List, [], ◌==◌,
  if◌then◌else◌, get_elem?, replicate,
}
use compcache.Common.Errno.{Code, success, enomem}
use compcache.Block.{page_size}
use compcache.Pool.{Heap}
use compcache.Table.{Slot, Stats, Zram, zram_test_flag, zram_uncompressed}
use compcache.Xvmalloc.{xv_create_pool, xv_free}

-- `default_disksize_perc_ram`
abbrev pub default_disksize_perc_ram : ℕ
default_disksize_perc_ram = 25

-- `x & PAGE_MASK`
abbrev pub page_mask : ℕ → ℕ
page_mask x = x / page_size * page_size

-- `1 << SECTOR_SHIFT`
abbrev pub sector_size : ℕ
sector_size = 512

unfoldable pub zram_set_disksize : Zram → ℕ → Zram
zram_set_disksize z totalram_bytes =
    let disksize =
      if z.disksize == 0
      then default_disksize_perc_ram * (totalram_bytes / 100) % 2 ^ 64
      else z.disksize in
    record z { disksize = page_mask disksize }

abbrev pub no_stats : Stats
no_stats = record {
  compr_size = 0;
  num_reads = 0;
  num_writes = 0;
  failed_reads = 0;
  failed_writes = 0;
  invalid_io = 0;
  notify_free = 0;
  discard = 0;
  pages_zero = 0;
  pages_stored = 0;
  good_compress = 0;
  pages_expand = 0;
}

abbrev pub heap_of : Option (Bool × Heap) → Option Heap
heap_of none = none
heap_of (some (page_freed, h)) = some h

-- Lines 502-511, for one entry. `none` is a fault.
unfoldable pub reset_slot : Option Slot → Heap → Option Heap
reset_slot none h = none
reset_slot (some slot) h =
    if slot.page == 0
    then some h
    else (if zram_test_flag slot zram_uncompressed
        then some h
        else heap_of (xv_free slot.page (slot.offset % 2 ^ 16) h))

abbrev pub bind {ℓ κ} : {A : Type ℓ} {B : Type κ} → Option A → (A → Option B) → Option B
bind none f = none
bind (some a) f = f a

-- The loop over the table, with the number of entries left.
unfoldable pub reset_slots : ℕ → ℕ → List Slot → Heap → Option Heap
reset_slots zero index table h = some h
reset_slots (suc n) index table h =
    bind (reset_slot (get_elem? table index) h) (reset_slots n (index + 1) table)

-- Lines 490-523, with the heap that the loop left.
unfoldable pub cleared : Zram → Heap → Zram
cleared z h = record z {
  heap = h;
  has_pool = false;
  compress_workmem = false;
  compress_buffer = false;
  table = [];
  init_done = false;
  disksize = 0;
  stats = no_stats;
}

unfoldable pub zram_reset_device : Zram → Option Zram
zram_reset_device z =
    bind (reset_slots (z.disksize / page_size) 0 z.table z.heap) (λ h. some (cleared z h))

-- What the kernel's allocators return to `zram_init_device`: whether each gives memory. `ram_pages`
-- is `totalram_pages`, and `heap` the zeroed memory of the pool, with whatever the pages hold.
pub record Memory : Type 0 where
  pub ram_pages : ℕ
  pub workmem : Bool
  pub buffer : Bool
  pub table : Bool
  pub pool : Bool

abbrev pub empty_slot : Slot
empty_slot = record { page = 0; offset = 0; count = 0; uncompressed = false; zero_filled = false }

-- The label `fail`.
abbrev pub init_failed : Code → Zram → Option (Code × Zram)
init_failed c z = bind (zram_reset_device z) (λ z'. some (c, z'))

-- Lines 555-582: the table, the capacity of the disk, and the pool.
unfoldable pub init_table : Memory → Zram → Option (Code × Zram)
init_table m z =
    let num_pages = z.disksize / page_size in
    if m.table
    then (let z' = record z {
      table = replicate num_pages empty_slot;
      capacity = z.disksize / sector_size;
    } in
        if m.pool
        then some (
          success,
          record z' {
            has_pool = true;
            heap = record { pool = xv_create_pool; mem = z.heap.mem };
            init_done = true;
          },
        )
        else init_failed enomem z')
    else init_failed enomem (record z { disksize = 0; table = [] })

unfoldable pub zram_init_device : Memory → Zram → Option (Code × Zram)
zram_init_device m z =
    if z.init_done
    then some (success, z)
    else (let sized = zram_set_disksize z (m.ram_pages * page_size % 2 ^ 64) in
        let with_workmem = record sized { compress_workmem = m.workmem } in
        if m.workmem
        then (let with_buffer = record with_workmem { compress_buffer = m.buffer } in
            if m.buffer then init_table m with_buffer else init_failed enomem with_buffer)
        else init_failed enomem with_workmem)
