-- ===== src/Device/Tests.antt =====
-- The theorems on devices at concrete devices.
use compcache.Common.{◌≤◌, ◌≡◌, refl, inl, true, false, none, some, [], arith}
use compcache.Pool.{Heap}
use compcache.Table.{Zram}
use compcache.Xvmalloc.{xv_create_pool}
use compcache.Device.{
  Memory, no_stats, zram_set_disksize, zram_init_device, zram_reset_device, reset_slots, cleared,
}
use compcache.Device.Init.{sized, zram_init_device-faults}

abbrev heap : Heap
heap = record {
  pool = xv_create_pool;
  mem = λ page offset. record {
    size = 0;
    prev = 0;
    prev_page = 0;
    prev_offset = 0;
    next_page = 0;
    next_offset = 0;
  };
}

-- A device of the zeroed array.
abbrev new_device : Zram
new_device = record {
  has_pool = false;
  heap = heap;
  store = λ page offset. [];
  compress_workmem = false;
  compress_buffer = false;
  table = [];
  init_done = false;
  disksize = 0;
  capacity = 0;
  stats = no_stats;
}

abbrev enough : Memory
enough = record { ram_pages = 4000; workmem = true; buffer = true; table = true; pool = true }

abbrev no_workmem : Memory
no_workmem = record { ram_pages = 4000; workmem = false; buffer = true; table = true; pool = true }

large : 4096 ≤ sized no_workmem new_device
unfolding zram_set_disksize
large = omega arith

zram_init_device-faults_example : zram_init_device no_workmem new_device ≡ none
zram_init_device-faults_example =
    zram_init_device-faults no_workmem new_device refl refl large (inl refl)

reset_run : zram_reset_device new_device ≡ some (cleared new_device heap)
unfolding zram_reset_device reset_slots
reset_run = refl
