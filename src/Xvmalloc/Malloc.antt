-- ===== src/Xvmalloc/Malloc.antt =====
-- `xv_malloc` of xvmalloc.c: the header of the object that it returns.
use compcache.Common.{
  ℕ, ◌^◌, ◌<◌, ◌≡◌, ◌≢◌, ◌⊎◌, refl, inl, inr, false, ltb, ◌==◌, ◌||◌, ap, ◌∙◌, arith, Bool-cases,
  u16, add32, sub32,
}
use compcache.Common.Errno.{Code, success, enomem, einval, ebusy}
use compcache.Block.{Header, align, test_flag, clear_flag, block_free, max_alloc_size}
use compcache.Block.Flags.{clear_flag_lem}
use compcache.Pool.{
  Pool, Heap, Found, modify, with_pool, remove_block_head, find_block, find_in_next_chunk,
}
use compcache.Pool.Lists.{freelist-insert_block, mem-modify_self}
use compcache.Xvmalloc.{
  Malloced, count_page, whole_page, grow_pool, split_block, take_block, retry, xv_malloc,
  xv_get_object_size,
}

-- The offsets of a pool's list heads lie in a page.
abbrev pub HasOffsets : Pool → Type 0
HasOffsets p = (i : ℕ) → (p.freelist i).offset < 4096

offset-find_block :
    (p : Pool) (size page offset : ℕ)
    → HasOffsets p
    → offset < 4096
    → (find_block p size page offset).offset < 4096
unfolding find_block find_in_next_chunk
offset-find_block p size page offset v o = grind (arith, v)

grow_pool-HasOffsets :
    (fresh : ℕ) (h : Heap) → HasOffsets h.pool → HasOffsets (grow_pool fresh h).1.pool
unfolding grow_pool
grow_pool-HasOffsets fresh h v i = ground (
  arith,
  v i,
  freelist-insert_block fresh 0 0 i (modify fresh 0 whole_page (with_pool count_page h)),
)

-- What a client may read at the place that `xv_malloc` returns.
abbrev IsObject : ℕ → Malloced → Type 0
IsObject size r =
    (xv_get_object_size r.page r.offset r.heap ≡ u16 size)
    × (test_flag (r.heap.mem r.page (sub32 r.offset 4)) block_free ≡ false)
    × (r.offset < 2 ^ 16)

take_block-IsObject :
    (size aligned : ℕ) (f : Found) (h : Heap)
    → f.offset < 4096
    → IsObject size (take_block size aligned f h)
unfolding take_block xv_get_object_size
take_block-IsObject size aligned f h small =
    let back : sub32 (add32 f.offset 4) 4 ≡ f.offset = omega arith in
    let h' = remove_block_head f.page f.offset f.index h in
    let h'' = split_block f.page f.offset aligned ((h'.mem f.page f.offset).size) h' in
    let used = λ (b : Header). clear_flag (record b { size = u16 size }) block_free in
    let read = mem-modify_self f.page f.offset (sub32 (add32 f.offset 4) 4) used h'' back in
    let b = h''.mem f.page f.offset in
    let (clear, _, _, same) = clear_flag_lem (record b { size = u16 size }) block_free in
    (
      ap (λ (c : Header). c.size) (read ∙ same),
      ap (λ (c : Header). test_flag c block_free) read ∙ clear,
      omega arith,
    )

retry-IsObject :
    (size aligned : ℕ) (f : Found) (r : Code × Heap)
    → f.offset < 4096
    → HasOffsets r.1.pool
    → (retry size aligned f r).code ≡ success
    → IsObject size (retry size aligned f r)
unfolding retry
retry-IsObject size aligned f (success, h) small v done =
    let found : Found = find_block h.pool aligned f.page f.offset in
    elim (Bool-cases (found.page == 0)) [
      | inl z ↦ absurd (cc (rw z at done))
      | inr n ↦
          rw n (
            take_block-IsObject size aligned found h (offset-find_block h.pool aligned _ _ v small))
    ]
retry-IsObject size aligned f (enomem, h) small v done = cc
retry-IsObject size aligned f (einval, h) small v done = cc
retry-IsObject size aligned f (ebusy, h) small v done = cc

-- Where the offsets of the pool's list heads lie in a page and `xv_malloc` succeeds, the object
-- that it returns has the requested size, as `xv_get_object_size` reads it, its block is not marked
-- free, and its offset is a `u16` value.
pub xv_malloc-IsObject :
    (fresh size : ℕ) (h : Heap)
    → HasOffsets h.pool
    → (xv_malloc fresh size h).code ≡ success
    → let r = xv_malloc fresh size h in
      (xv_get_object_size r.page r.offset r.heap ≡ size)
      × (test_flag (r.heap.mem r.page (sub32 r.offset 4)) block_free ≡ false)
      × (r.offset < 2 ^ 16)
unfolding xv_malloc
xv_malloc-IsObject fresh size h v done =
    elim (Bool-cases ((size == 0) || ltb max_alloc_size size)) [
      | inl bad ↦ absurd (cc (rw bad at done))
      | inr good ↦ elim (Bool-cases (found.page == 0)) [
        | inl z ↦
            let (a, b, c) =
              retry-IsObject size (align size 4) found (grow_pool fresh h) offset_small
                (grow_pool-HasOffsets fresh h v) (rw (good, z) at done) in
            rw (good, z) (a ∙ fits16 good, b, c)
        | inr n ↦
            let (a, b, c) = take_block-IsObject size (align size 4) found h offset_small in
            rw (good, n) (a ∙ fits16 good, b, c)
      ]
    ]
  where
    found : Found
    found = find_block h.pool (align size 4) 0 0

    offset_small : found.offset < 4096
    offset_small = offset-find_block h.pool (align size 4) 0 0 v (omega arith)

    fits16 : ((size == 0) || ltb max_alloc_size size) ≡ false → u16 size ≡ size
    fits16 good = ground arith

-- A page is returned exactly where the call succeeds.
abbrev pub IsReturned : Malloced → Type 0
IsReturned m = ((m.code ≡ success) × (m.page ≢ 0)) ⊎ ((m.code ≢ success) × (m.page ≡ 0))

retry-IsReturned :
    (size aligned : ℕ) (f : Found) (r : Code × Heap)
    → f.page ≡ 0
    → IsReturned (retry size aligned f r)
unfolding retry take_block
retry-IsReturned size aligned f (success, h) z =
    elim (Bool-cases ((find_block h.pool aligned f.page f.offset).page == 0)) [
      | inl e ↦ rw e (inr ((λ q. cc), ground arith))
      | inr n ↦ rw n (inl (refl, ground arith))
    ]
retry-IsReturned size aligned f (enomem, h) z = inr ((λ q. cc), z)
retry-IsReturned size aligned f (einval, h) z = inr ((λ q. cc), z)
retry-IsReturned size aligned f (ebusy, h) z = inr ((λ q. cc), z)

-- `xv_malloc` returns a page that is not NULL exactly where it succeeds; where it fails the page is
-- NULL.
pub xv_malloc-IsReturned : (fresh size : ℕ) (h : Heap) → IsReturned (xv_malloc fresh size h)
unfolding xv_malloc take_block
xv_malloc-IsReturned fresh size h = elim (Bool-cases ((size == 0) || ltb max_alloc_size size)) [
  | inl bad ↦ rw bad (inr ((λ q. cc), refl))
  | inr good ↦ elim (Bool-cases ((find_block h.pool (align size 4) 0 0).page == 0)) [
    | inl z ↦ rw (good, z) (retry-IsReturned size (align size 4) _ _ (ground arith))
    | inr n ↦ rw (good, n) (inl (refl, ground arith))
  ]
]
