-- ===== src/Scale/Placed.antt =====
-- zram_scale with xvmalloc.c: the place at which the pool puts an object, as an address can hold it.
use compcache.Common.{
  ℕ, ◌%◌, ◌^◌, ◌<◌, ◌≡◌, ◌≢◌, refl, inl, inr, ltb, ◌==◌, ◌||◌, arith, Bool-cases,
}
use compcache.Common.Errno.{Code, success, enomem, einval, ebusy}
use compcache.Block.{align, max_alloc_size}
use compcache.Pool.{Pool, Heap, Found, modify, with_pool, find_block, find_in_next_chunk}
use compcache.Pool.Lists.{freelist-insert_block}
use compcache.Xvmalloc.{Malloced, count_page, whole_page, grow_pool, take_block, retry, xv_malloc}

-- A block begins at a multiple of 4, not in the last four bytes, of a page in the range of an address.
abbrev pub IsHead : (page offset : ℕ) → Type 0
IsHead page offset = (page < 2 ^ 52) × (offset < 4092) × (offset % 4 ≡ 0)

-- So do the first blocks of a pool's lists.
abbrev pub HasHeads : Pool → Type 0
HasHeads p = (i : ℕ) → IsHead (p.freelist i).page (p.freelist i).offset

-- Where the pool puts an object: at an even offset of a page that is not 0, both in the range of an
-- address.
abbrev pub IsPlaced : Malloced → Type 0
IsPlaced m =
    m.code ≡ success
    → (m.page ≢ 0) × (m.page < 2 ^ 52) × (m.offset ≢ 0) × (m.offset < 2 ^ 12) × (m.offset % 2 ≡ 0)

abbrev FoundHead : Found → Type 0
FoundHead f = IsHead f.page f.offset

find_block-FoundHead :
    (p : Pool) (size page offset : ℕ)
    → HasHeads p
    → IsHead page offset
    → FoundHead (find_block p size page offset)
unfolding find_block find_in_next_chunk
find_block-FoundHead p size page offset v (a, b, c) =
    (grind (arith, v), grind (arith, v), grind (arith, v))

grow_pool-HasHeads :
    (fresh : ℕ) (h : Heap) → fresh < 2 ^ 52 → HasHeads h.pool → HasHeads (grow_pool fresh h).1.pool
unfolding grow_pool
grow_pool-HasHeads fresh h lo v i =
    let e =
      freelist-insert_block fresh 0 0 i (modify fresh 0 whole_page (with_pool count_page h)) in
    let (a, b, c) = v i in (ground (arith, a, e), ground (arith, b, e), ground (arith, c, e))

take_block-IsPlaced :
    (size aligned : ℕ) (f : Found) (h : Heap)
    → FoundHead f
    → f.page ≢ 0
    → IsPlaced (take_block size aligned f h)
unfolding take_block
take_block-IsPlaced size aligned f h (a, b, c) ne done =
    (ne, a, omega arith, omega arith, omega arith)

retry-IsPlaced :
    (size aligned : ℕ) (f : Found) (r : Code × Heap)
    → FoundHead f
    → HasHeads r.1.pool
    → IsPlaced (retry size aligned f r)
unfolding retry
retry-IsPlaced size aligned f (success, h) small v =
    let found : Found = find_block h.pool aligned f.page f.offset in
    elim (Bool-cases (found.page == 0)) [
      | inl z ↦ rw z (λ done. absurd cc)
      | inr n ↦ rw n (
          take_block-IsPlaced size aligned found h (find_block-FoundHead h.pool aligned _ _ v small)
            (ground arith))
    ]
retry-IsPlaced size aligned f (enomem, h) small v = λ done. absurd cc
retry-IsPlaced size aligned f (einval, h) small v = λ done. absurd cc
retry-IsPlaced size aligned f (ebusy, h) small v = λ done. absurd cc

-- `xv_malloc` puts an object at the place that a table entry can hold.
pub xv_malloc-IsPlaced :
    (fresh size : ℕ) (h : Heap)
    → fresh < 2 ^ 52
    → HasHeads h.pool
    → IsPlaced (xv_malloc fresh size h)
unfolding xv_malloc
xv_malloc-IsPlaced fresh size h lo v =
    let found : Found = find_block h.pool (align size 4) 0 0 in
    let head : FoundHead found =
      find_block-FoundHead h.pool (align size 4) 0 0 v (omega arith, omega arith, refl) in
    elim (Bool-cases ((size == 0) || ltb max_alloc_size size)) [
      | inl bad ↦ rw bad (λ done. absurd cc)
      | inr good ↦ elim (Bool-cases (found.page == 0)) [
        | inl z ↦
            rw (good, z)
              (retry-IsPlaced size (align size 4) found (grow_pool fresh h) head
                (grow_pool-HasHeads fresh h lo v))
        | inr n ↦ rw (good, n) (take_block-IsPlaced size (align size 4) found h head (ground arith))
      ]
    ]
