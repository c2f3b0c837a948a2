-- ===== src/Xvmalloc/Keep.antt =====
-- `xv_malloc` of xvmalloc.c keeps the bitmaps of the pool in step with its free lists.
use compcache.Common.{
  ℕ, ◌≤◌, ◌<◌, ◌≡◌, ◌≢◌, refl, inl, inr, true, false, ltb, leb, leb→le, ◌==◌, ◌||◌, ap, ◌∙◌, arith,
  Bool-cases, u16, sub32, ◌+◌,
}
use compcache.Common.Errno.{Code, success, enomem, einval, ebusy}
use compcache.Block.{
  Header, align, get_index, set_flag, clear_flag, set_blockprev, block_free, prev_free,
  max_alloc_size, page_size,
}
use compcache.Pool.{Pool, Heap, Found, modify, insert_block, find_block}
use compcache.Pool.Bitmap.{nonempty, IsIndexed}
use compcache.Pool.Find.{Searched, hit, miss, find_block-Searched}
use compcache.Pool.Keep.{insert_block-IsIndexed, remove_block_head-IsIndexed}
use compcache.Pool.Lists.{mem-modify_self}
use compcache.Xvmalloc.{grow_pool, split_block, take_block, retry, xv_malloc}
use compcache.Xvmalloc.Grow.{grow_pool-null, grow_pool_lem}

-- The size of the header that `xv_malloc` writes behind an allocation.
size-rest :
    (b : Header) (rest offset : ℕ)
    → (set_blockprev
        (clear_flag (set_flag (record b { size = rest }) block_free) prev_free)
        offset).size
      ≡ rest
unfolding set_flag clear_flag set_blockprev
size-rest b rest offset = refl

split_block-IsIndexed :
    (page offset size have : ℕ) (h : Heap)
    → IsIndexed h.pool
    → page ≢ 0
    → IsIndexed (split_block page offset size have h).pool
unfolding split_block
split_block-IsIndexed page offset size have h v ne = elim (Bool-cases (sub32 have size == 0)) [
  | inl exact ↦
      rw exact
        (elim (Bool-cases (offset + size + 4 == page_size)) [ inl e ↦ rw e v | inr n ↦ rw n v ])
  | inr more ↦ rw more (elim (Bool-cases (leb 32 rest)) [
    | inl large ↦ rw large (elim (Bool-cases (behind + 4 + rest == page_size)) [
      | inl e ↦ rw e (inserted large)
      | inr n ↦ rw n (inserted large)
    ])
    | inr small ↦
        rw small
          (elim (Bool-cases (behind + 4 + rest == page_size)) [ inl e ↦ rw e v | inr n ↦ rw n v ])
  ])
]
  where
    behind : ℕ
    behind = offset + size + 4

    rest : ℕ
    rest = u16 (sub32 (sub32 have size) 4)

    header : Header → Header
    header b =
        set_blockprev (clear_flag (set_flag (record b { size = rest }) block_free) prev_free) offset

    inserted :
        leb 32 rest ≡ true
        → IsIndexed (insert_block page behind behind (modify page behind header h)).pool
    inserted large =
        let written : ((modify page behind header h).mem page behind).size ≡ rest =
          ap (λ (b : Header). b.size) (mem-modify_self page behind behind header h refl)
          ∙ size-rest (h.mem page behind) rest offset in
        insert_block-IsIndexed page behind behind (modify page behind header h) v ne
          (rw written (leb→le 32 rest large))

-- What the search returned is the first block of a free list.
IsHead : Pool → Found → Type 0
IsHead p f = (f.page ≢ 0) × (f.index < 508) × (nonempty p f.index ≡ true)

find_block-IsHead :
    {p : Pool} (size page offset : ℕ)
    → IsIndexed p
    → size ≤ max_alloc_size
    → page ≡ 0
    → ((find_block p size page offset).page == 0) ≡ false
    → IsHead p (find_block p size page offset)
unfolding IsHead
find_block-IsHead {p} size page offset v hi z n = go (find_block-Searched size page offset v hi) n
  where
    go :
        {r : Found} → Searched p (get_index size) page offset r → (r.page == 0) ≡ false → IsHead p r
    go (hit i k full least e) n = rw e (ground arith, ground arith, full)
    go (miss clear e) n = ground arith

take_block-IsIndexed :
    (origsize size : ℕ) (f : Found) (h : Heap)
    → IsIndexed h.pool
    → IsHead h.pool f
    → IsIndexed (take_block origsize size f h).heap.pool
unfolding take_block IsHead
take_block-IsIndexed origsize size f h v (ne, range, full) =
    split_block-IsIndexed f.page f.offset size _ _
      (remove_block_head-IsIndexed f.page f.offset f.index h v range full) ne

retry-IsIndexed :
    (origsize size : ℕ) (f : Found) (r : Code × Heap)
    → IsIndexed r.1.pool
    → size ≤ max_alloc_size
    → f.page ≡ 0
    → IsIndexed (retry origsize size f r).heap.pool
unfolding retry
retry-IsIndexed origsize size f (success, h) v hi z =
    let found = find_block h.pool size f.page f.offset in
    elim (Bool-cases (found.page == 0)) [
      | inl none_found ↦ rw none_found v
      | inr n ↦ rw n (
          take_block-IsIndexed origsize size found h v
            (find_block-IsHead size f.page f.offset v hi z n))
    ]
retry-IsIndexed origsize size f (enomem, h) v hi z = v
retry-IsIndexed origsize size f (einval, h) v hi z = v
retry-IsIndexed origsize size f (ebusy, h) v hi z = v

grow_pool-IsIndexed :
    (fresh : ℕ) (h : Heap) → IsIndexed h.pool → IsIndexed (grow_pool fresh h).1.pool
grow_pool-IsIndexed fresh h v = elim (Bool-cases (fresh == 0)) [
  | inl z ↦ rw (grow_pool-null fresh h z) v
  | inr n ↦ (grow_pool_lem fresh h v (ground arith)).1
]

-- `xv_malloc` keeps the two-level bitmap in step with the free lists, for every request and whether
-- it succeeds or fails.
pub xv_malloc-IsIndexed :
    (fresh size : ℕ) (h : Heap) → IsIndexed h.pool → IsIndexed (xv_malloc fresh size h).heap.pool
unfolding xv_malloc
xv_malloc-IsIndexed fresh size h v = elim (Bool-cases ((size == 0) || ltb max_alloc_size size)) [
  | inl bad ↦ rw bad v
  | inr good ↦ elim (Bool-cases (found.page == 0)) [
    | inl z ↦
        rw (good, z)
          (retry-IsIndexed size (align size 4) found (grow_pool fresh h)
            (grow_pool-IsIndexed fresh h v) (ground arith) (ground arith))
    | inr n ↦
        rw (good, n)
          (take_block-IsIndexed size (align size 4) found h v
            (find_block-IsHead (align size 4) 0 0 v (ground arith) refl n))
  ]
]
  where
    found : Found
    found = find_block h.pool (align size 4) 0 0
