-- ===== src/Sysfs/Tests.antt =====
-- The theorems on the attributes at concrete devices.
use compcache.Common.{◌^◌, ◌<◌, ◌≡◌, refl, true, false, some, [], replicate, arith}
use compcache.Common.Errno.{success}
use compcache.Pool.{Heap}
use compcache.Table.{Zram}
use compcache.Table.Count.{count, is_stored}
use compcache.Xvmalloc.{xv_create_pool}
use compcache.Device.{
  Memory, no_stats, empty_slot, zram_reset_device, reset_slots, reset_slot, cleared,
}
use compcache.Sysfs.{reset_store}

abbrev heap : Heap
heap = record {
  pool = xv_create_pool;
  mem = λ page offset. record {
    size = 0;
    prev = 0;
    prev_page = 0;
    prev_offset = 0;
    next_page = 0;
    next_offset = 0;
  };
}

-- A device of the zeroed array.
abbrev new_device : Zram
new_device = record {
  has_pool = false;
  heap = heap;
  store = λ page offset. [];
  compress_workmem = false;
  compress_buffer = false;
  table = [];
  init_done = false;
  disksize = 0;
  capacity = 0;
  stats = no_stats;
}

-- An initialised disk of two pages.
abbrev two_pages : Zram
two_pages = record new_device {
  has_pool = true;
  compress_workmem = true;
  compress_buffer = true;
  table = replicate 2 empty_slot;
  init_done = true;
  disksize = 8192;
  capacity = 16;
}

abbrev enough : Memory
enough = record { ram_pages = 4000; workmem = true; buffer = true; table = true; pool = true }

small : count is_stored two_pages.table < 2 ^ 32
unfolding count
small = omega arith

reset_run : reset_store 0 (some 1) two_pages ≡ some (success, cleared two_pages heap)
unfolding reset_store zram_reset_device reset_slots reset_slot
reset_run = refl
