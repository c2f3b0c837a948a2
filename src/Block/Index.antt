-- ===== src/Block/Index.antt =====
-- The free-list indices of xvmalloc.c: range, and that a block of a list that is searched fits.
use compcache.Common.{ℕ, ◌+◌, ◌*◌, ◌≤◌, ◌<◌, ◌≡◌, arith}
use compcache.Block.{
  get_index, get_index_for_insert, num_free_lists, max_alloc_size, min_alloc_size,
}

-- The two index functions without their masks, for sizes in the range of their callers.
pub get_index_for_insert_bounds :
    (size : ℕ)
    → min_alloc_size ≤ size
    → size ≤ max_alloc_size
    → (get_index_for_insert size * 8 + 32 ≤ size)
      × (size < get_index_for_insert size * 8 + 40)
      × (get_index_for_insert size < num_free_lists)
unfolding get_index_for_insert
get_index_for_insert_bounds size lo hi = ground arith

-- `get_index` rounds up.
pub get_index_bounds :
    (size : ℕ)
    → size ≤ max_alloc_size
    → (size ≤ get_index size * 8 + 32) × (get_index size ≤ num_free_lists)
unfolding get_index
get_index_bounds size hi = ground arith

-- A block of `have` bytes, `XV_MIN_ALLOC_SIZE` to `XV_MAX_ALLOC_SIZE`, that is filed at the index
-- where a request of `want` bytes, at most `XV_MAX_ALLOC_SIZE`, starts to search, or at a later
-- one, has at least `want` bytes.
pub fits :
    (want have : ℕ)
    → want ≤ max_alloc_size
    → min_alloc_size ≤ have
    → have ≤ max_alloc_size
    → get_index want ≤ get_index_for_insert have
    → want ≤ have
fits want have w lo hi h =
    omega (arith, get_index_bounds want w, get_index_for_insert_bounds have lo hi)

-- A request above 4088 bytes starts to search at an index behind the last free list.
pub get_index_large :
    (size : ℕ) → 4088 < size → size ≤ max_alloc_size → get_index size ≡ num_free_lists
unfolding get_index
get_index_large size lo hi = ground arith

-- A request of at most 4088 bytes starts to search at the index of a free list.
pub get_index_in_range : (size : ℕ) → size ≤ 4088 → get_index size < num_free_lists
unfolding get_index
get_index_in_range size hi = ground arith

-- The index for an insertion is that of a free list, however large the size is.
pub get_index_for_insert-lt :
    (size : ℕ) → min_alloc_size ≤ size → get_index_for_insert size < num_free_lists
unfolding get_index_for_insert
get_index_for_insert-lt size lo = ground arith
