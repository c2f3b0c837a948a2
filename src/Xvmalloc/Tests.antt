-- ===== src/Xvmalloc/Tests.antt =====
-- Runs of the allocator, and the theorems at concrete pools.
use compcache.Common.{◌≡◌, ◌≢◌, ◌<◌, ◌^◌, inl, false, sub32, arith}
use compcache.Common.Errno.{success, enomem}
use compcache.Block.{Header, block_free, test_flag}
use compcache.Pool.{Heap}
use compcache.Pool.Bitmap.{IsIndexed}
use compcache.Xvmalloc.{grow_pool, xv_create_pool, xv_malloc, xv_get_object_size}
use compcache.Xvmalloc.Grow.{xv_create_pool-IsIndexed}
use compcache.Xvmalloc.Full.{xv_malloc-large, xv_malloc-success}
use compcache.Xvmalloc.Keep.{xv_malloc-IsIndexed}
use compcache.Xvmalloc.Malloc.{HasOffsets, xv_malloc-IsObject}

abbrev zero_header : Header
zero_header = record {
  size = 0;
  prev = 0;
  prev_page = 0;
  prev_offset = 0;
  next_page = 0;
  next_offset = 0;
}

-- A new pool, with pages of zeros.
abbrev new_heap : Heap
new_heap = record { pool = xv_create_pool; mem = λ page offset. zero_header }

new_heap-HasOffsets : HasOffsets new_heap.pool
unfolding xv_create_pool
new_heap-HasOffsets i = omega arith

xv_malloc-large_example :
    xv_malloc 7 4090 new_heap
    ≡ record { code = enomem; page = 0; offset = 0; heap = (grow_pool 7 new_heap).1 }
xv_malloc-large_example =
    xv_malloc-large 7 4090 new_heap xv_create_pool-IsIndexed (omega arith) (omega arith)

xv_malloc-success_example :
    ((xv_malloc 7 100 new_heap).code ≡ success) × ((xv_malloc 7 100 new_heap).page ≢ 0)
xv_malloc-success_example =
    xv_malloc-success 7 100 new_heap xv_create_pool-IsIndexed (omega arith) (omega arith)
      (inl (ground arith))

served : (xv_malloc 7 100 new_heap).code ≡ success
served =
    (xv_malloc-success 7 100 new_heap xv_create_pool-IsIndexed (omega arith) (omega arith)
      (inl (ground arith))).0

xv_malloc-IsIndexed_example : IsIndexed (xv_malloc 7 100 new_heap).heap.pool
xv_malloc-IsIndexed_example = xv_malloc-IsIndexed 7 100 new_heap xv_create_pool-IsIndexed

xv_malloc-IsObject_example :
    (xv_get_object_size
        (xv_malloc 7 100 new_heap).page
        (xv_malloc 7 100 new_heap).offset
        (xv_malloc 7 100 new_heap).heap
      ≡ 100)
    × (test_flag
          ((xv_malloc 7 100 new_heap).heap.mem
            (xv_malloc 7 100 new_heap).page
            (sub32 (xv_malloc 7 100 new_heap).offset 4))
          block_free
        ≡ false)
    × ((xv_malloc 7 100 new_heap).offset < 2 ^ 16)
xv_malloc-IsObject_example = xv_malloc-IsObject 7 100 new_heap new_heap-HasOffsets served
