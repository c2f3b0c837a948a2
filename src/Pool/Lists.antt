-- ===== src/Pool/Lists.antt =====
-- What the functions on free lists change of the lists and leave alone.
use compcache.Common.{ℕ, ◌≤◌, ◌≡◌, ◌≢◌, refl, true, ◌==◌, if◌then◌else◌, u16, arith}
use compcache.Block.{Header, get_index_for_insert, min_alloc_size}
use compcache.Block.Index.{get_index_for_insert-lt}
use compcache.Pool.{
  Entry, Heap, modify, modify_entry, mark_nonempty, mark_empty, insert_block, remove_block_head,
}
use compcache.Pool.Bitmap.{nonempty}

pub pool-modify_entry :
    (e : Entry) (f : Header → Header) (h : Heap) → (modify_entry e f h).pool ≡ h.pool
pool-modify_entry e f h = ground arith

-- `insert_block` puts the place in front of the list for the block's size, and no other list changes.
pub freelist-insert_block :
    (page offset at i : ℕ) (h : Heap)
    → (insert_block page offset at h).pool.freelist i ≡ (
        if i == get_index_for_insert (h.mem page at).size
        then record { page = page; offset = u16 offset }
        else h.pool.freelist i)
unfolding insert_block mark_nonempty
freelist-insert_block page offset at i h = rw (pool-modify_entry) refl

pub nonempty-insert_block :
    (page offset at i : ℕ) (h : Heap)
    → page ≢ 0
    → min_alloc_size ≤ (h.mem page at).size
    → get_index_for_insert (h.mem page at).size ≡ i
    → nonempty (insert_block page offset at h).pool i ≡ true
nonempty-insert_block page offset at i h ne lo e =
    rw (freelist-insert_block) (ground (arith, get_index_for_insert-lt (h.mem page at).size lo))

pub total_pages-insert_block :
    (page offset at : ℕ) (h : Heap)
    → (insert_block page offset at h).pool.total_pages ≡ h.pool.total_pages
unfolding insert_block mark_nonempty
total_pages-insert_block page offset at h = rw (pool-modify_entry) refl

-- `remove_block_head` leaves the size and the flags of every header as they are.
pub header-remove_block_head :
    (page at slindex q o : ℕ) (h : Heap)
    → let b = (remove_block_head page at slindex h).mem q o in
      (b.size ≡ (h.mem q o).size) × (b.prev ≡ (h.mem q o).prev)
unfolding remove_block_head mark_empty
header-remove_block_head page at slindex q o h = ground arith

-- `insert_block` leaves the size and the flags of every header as they are.
pub header-insert_block :
    (page offset at q o : ℕ) (h : Heap)
    → let b = (insert_block page offset at h).mem q o in
      (b.size ≡ (h.mem q o).size) × (b.prev ≡ (h.mem q o).prev)
unfolding insert_block mark_nonempty
header-insert_block page offset at q o h = ground arith

-- A header that was changed in place reads as the change of what stood there.
pub mem-modify_self :
    (page o o' : ℕ) (f : Header → Header) (h : Heap)
    → o' ≡ o
    → (modify page o f h).mem page o' ≡ f (h.mem page o)
mem-modify_self page o o' f h e =
    let p : (page == page) ≡ true = ground arith in
    let q : (o' == o) ≡ true = ground arith in rw (p, q)
