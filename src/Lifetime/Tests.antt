-- ===== src/Lifetime/Tests.antt =====
-- The invariant at a concrete life of a device.
use compcache.Common.{refl, true, false, []}
use compcache.Pool.{Heap}
use compcache.Table.{Zram}
use compcache.Xvmalloc.{xv_create_pool}
use compcache.Request.{Lzo, Bio, zram_discard}
use compcache.Device.{Memory}
use compcache.Handler.{valid_io_request, zram_make_request}
use compcache.Sysfs.{disksize_store}
use compcache.Driver.{zeroed}
use compcache.Lifetime.{Step, request, resize, here, onward}
use compcache.Lifetime.Setup.{IsConsistent}
use compcache.Lifetime.Invariant.{Reaches-IsConsistent}

abbrev heap : Heap
heap = record {
  pool = xv_create_pool;
  mem = λ page offset. record {
    size = 0;
    prev = 0;
    prev_page = 0;
    prev_offset = 0;
    next_page = 0;
    next_offset = 0;
  };
}

abbrev copying : Lzo
copying = record { compress = λ page. (true, page); decompress = λ page. (true, page) }

abbrev enough : Memory
enough = record { ram_pages = 4000; workmem = true; buffer = true; table = true; pool = true }

-- The device after `disksize` was set to 8192.
abbrev sized : Zram
sized = record ((zeroed heap).zram) { disksize = 8192; capacity = 16 }

first-Step : Step copying (zeroed heap).zram sized
unfolding disksize_store
first-Step = resize true 8192 refl

abbrev discard : Bio
discard = record { sector = 8; size = 4096; is_discard = true; is_write = false; segments = [] }

-- The device after a discard, which is only counted.
abbrev discarded : Zram
discarded = record sized { stats = record (sized.stats) { discard = 1 } }

second-Step : Step copying sized discarded
unfolding zram_make_request valid_io_request zram_discard
second-Step = request enough discard refl

Reaches-IsConsistent_example : IsConsistent discarded
Reaches-IsConsistent_example =
    Reaches-IsConsistent copying heap (onward (onward here first-Step) second-Step)
