-- ===== src/Xvmalloc/Layout/Tests.antt =====
-- The theorems on pages at a fresh page, from which an object of 100 bytes is taken and given back.
use compcache.Common.{refl, true, false, none, [], ◌∷◌, arith}
use compcache.Pool.{Heap, Found}
use compcache.Xvmalloc.{grow_pool, take_block, xv_create_pool, xv_free}
use compcache.Xvmalloc.Layout.{Span, IsPage}
use compcache.Xvmalloc.Layout.Take.{take_block-IsPage}
use compcache.Xvmalloc.Layout.Mark.{release}
use compcache.Xvmalloc.Layout.Free.{IsReleased, xv_free-IsReleased}
use compcache.Xvmalloc.Layout.RoundTrip.{take_block-xv_free, grow_pool-IsPage}

-- A heap with an empty pool, and pages of zeros.
abbrev blank : Heap
blank = record {
  pool = xv_create_pool;
  mem = λ page offset. record {
    size = 0;
    prev = 0;
    prev_page = 0;
    prev_offset = 0;
    next_page = 0;
    next_offset = 0;
  };
}

abbrev whole : Span
whole = record { size = 4092; free = true }

abbrev object : Span
object = record { size = 100; free = false }

abbrev rest : Span
rest = record { size = 3988; free = true }

abbrev grown : Heap
grown = (grow_pool 7 blank).1

abbrev found : Found
found = record { index = 507; page = 7; offset = 0 }

fresh : IsPage (grown.mem 7) (whole ∷ [])
fresh = grow_pool-IsPage 7 blank (ground arith)

take_block-IsPage_example :
    IsPage ((take_block 100 100 found grown).heap.mem 7) (object ∷ (rest ∷ []))
take_block-IsPage_example =
    take_block-IsPage 100 found grown [] [] 4092 fresh.last (omega arith) (omega arith) (refl, refl)
      fresh.lays.0 fresh.lays.1

take_block-xv_free_example :
    let r = take_block 100 100 found grown in IsReleased 7 (whole ∷ []) (xv_free 7 r.offset r.heap)
take_block-xv_free_example =
    take_block-xv_free 100 found grown [] [] 4092 fresh.last (omega arith) (omega arith)
      (refl, refl) fresh.lays.0 fresh.lays.1

abbrev taken : Heap
taken = (take_block 100 100 found grown).heap

object_there : IsPage (taken.mem 7) (object ∷ (rest ∷ []))
object_there =
    take_block-IsPage 100 found grown [] [] 4092 fresh.last (omega arith) (omega arith) (refl, refl)
      fresh.lays.0 fresh.lays.1

xv_free-IsReleased_example : IsReleased 7 (whole ∷ []) (xv_free 7 4 taken)
unfolding release
xv_free-IsReleased_example =
    xv_free-IsReleased 7 0 taken [] object (rest ∷ []) none object_there.last (refl, refl)
      object_there.lays.0 refl object_there.lays.1
