-- ===== src/Xvmalloc/Full.antt =====
-- `xv_malloc` of xvmalloc.c: which requests it refuses and which it serves.
use compcache.Common.{
  ℕ, ◌≤◌, ◌<◌, ◌≡◌, ◌≢◌, ◌⊎◌, refl, inl, inr, true, false, ltb, ◌==◌, if◌then◌else◌, arith,
  Bool-cases,
}
use compcache.Common.Errno.{Code, success, enomem, einval, ebusy}
use compcache.Block.{align, get_index, max_alloc_size}
use compcache.Block.Index.{get_index_large, get_index_in_range}
use compcache.Pool.{Pool, Heap, Found, find_block}
use compcache.Pool.Bitmap.{nonempty, IsIndexed, none_beyond}
use compcache.Pool.Find.{Searched, hit, miss, find_block-Searched}
use compcache.Xvmalloc.{Malloced, grow_pool, take_block, nothing, retry, xv_malloc}
use compcache.Xvmalloc.Grow.{grow_pool-null, grow_pool_lem}

-- A search that starts behind the last free list finds nothing.
not_found :
    {p : Pool} {size page offset : ℕ} (v : IsIndexed p)
    → 4088 < size
    → size ≤ max_alloc_size
    → find_block p size page offset ≡ record { index = 0; page = page; offset = offset }
not_found {p} {size} {page} {offset} v lo hi = go (find_block-Searched size page offset v hi)
  where
    go :
        {r : Found}
        → Searched p (get_index size) page offset r
        → r ≡ record { index = 0; page = page; offset = offset }
    go (hit i k full least e) =
        let q : nonempty p i ≡ false =
          none_beyond v i (omega (arith, get_index_large size lo hi)) in
        cc
    go (miss clear e) = e

-- A search from a free list on finds a block if the last free list has one.
found_some :
    {p : Pool} (size page offset : ℕ)
    → IsIndexed p
    → size ≤ 4088
    → nonempty p 507 ≡ true
    → (find_block p size page offset).page ≢ 0
found_some {p} size page offset v hi last =
    go (find_block-Searched size page offset v (omega arith))
  where
    go : {r : Found} → Searched p (get_index size) page offset r → r.page ≢ 0
    go (hit i k full least e) = ground arith
    go (miss clear e) =
        let q : nonempty p 507 ≡ false = clear 507 (omega (arith, get_index_in_range size hi)) in cc

retry-failed :
    (size aligned : ℕ) (h : Heap)
    → retry size aligned nothing (enomem, h)
      ≡ record { code = enomem; page = 0; offset = 0; heap = h }
unfolding retry
retry-failed size aligned h = refl

retry-large :
    (size : ℕ) {aligned : ℕ} (r : Code × Heap)
    → r.0 ≡ success
    → IsIndexed r.1.pool
    → 4088 < aligned
    → aligned ≤ max_alloc_size
    → retry size aligned nothing r ≡ record { code = enomem; page = 0; offset = 0; heap = r.1 }
unfolding retry
retry-large size (success, h) c v lo hi = rw (not_found v lo hi)
retry-large size (enomem, h) c v lo hi = cc
retry-large size (einval, h) c v lo hi = cc
retry-large size (ebusy, h) c v lo hi = cc

-- What a served request returns.
abbrev IsServed : Malloced → Type 0
IsServed r = (r.code ≡ success) × (r.page ≢ 0)

take_block-IsServed :
    (size aligned : ℕ) (f : Found) (h : Heap)
    → (f.page == 0) ≡ false
    → IsServed (take_block size aligned f h)
unfolding take_block
take_block-IsServed size aligned f h n = (refl, ground arith)

retry-IsServed :
    (size aligned : ℕ) (f : Found) (r : Code × Heap)
    → r.0 ≡ success
    → IsIndexed r.1.pool
    → aligned ≤ 4088
    → nonempty r.1.pool 507 ≡ true
    → IsServed (retry size aligned f r)
unfolding retry
retry-IsServed size aligned f (success, h) c v hi last =
    let n : ((find_block h.pool aligned f.page f.offset).page == 0) ≡ false =
      ground (arith, found_some aligned f.page f.offset v hi last) in
    rw n (take_block-IsServed size aligned _ h n)
retry-IsServed size aligned f (enomem, h) c v hi last = cc
retry-IsServed size aligned f (einval, h) c v hi last = cc
retry-IsServed size aligned f (ebusy, h) c v hi last = cc

-- Where the bitmaps of the pool agree with its free lists, `xv_malloc` refuses every request of
-- 4089 to 4092 bytes, although `XV_MAX_ALLOC_SIZE` is 4092: it returns -ENOMEM and <NULL, 0>, and
-- leaves the pool as `grow_pool` leaves it, with a page more if there was one.
pub xv_malloc-large :
    (fresh size : ℕ) (h : Heap)
    → IsIndexed h.pool
    → 4088 < size
    → size ≤ max_alloc_size
    → xv_malloc fresh size h
      ≡ record { code = enomem; page = 0; offset = 0; heap = (grow_pool fresh h).1 }
unfolding xv_malloc
xv_malloc-large fresh size h v lo hi =
    rw (positive, small, not_found v aligned aligned_hi) (again (Bool-cases (fresh == 0)))
  where
    positive : (size == 0) ≡ false
    positive = ground arith

    small : ltb max_alloc_size size ≡ false
    small = ground arith

    aligned : 4088 < align size 4
    aligned = omega arith

    aligned_hi : align size 4 ≤ max_alloc_size
    aligned_hi = omega arith

    again :
        ((fresh == 0) ≡ true) ⊎ ((fresh == 0) ≡ false)
        → retry size (align size 4) nothing (grow_pool fresh h)
          ≡ record { code = enomem; page = 0; offset = 0; heap = (grow_pool fresh h).1 }
    again (inl z) = rw (grow_pool-null fresh h z) (retry-failed size (align size 4) h)
    again (inr n) =
        let (c, v', _, _) = grow_pool_lem fresh h v (ground arith) in
        retry-large size (grow_pool fresh h) c v' aligned aligned_hi

-- Where the bitmaps of the pool agree with its free lists, and the system has a page to give or the
-- last free list has a block already, `xv_malloc` serves every request of 1 to 4088 bytes.
pub xv_malloc-success :
    (fresh size : ℕ) (h : Heap)
    → IsIndexed h.pool
    → 0 < size
    → size ≤ 4088
    → (fresh ≢ 0) ⊎ (nonempty h.pool 507 ≡ true)
    → ((xv_malloc fresh size h).code ≡ success) × ((xv_malloc fresh size h).page ≢ 0)
unfolding xv_malloc
xv_malloc-success fresh size h v lo hi room =
    rw (positive, small) (first (Bool-cases ((find_block h.pool (align size 4) 0 0).page == 0)))
  where
    positive : (size == 0) ≡ false
    positive = ground arith

    small : ltb max_alloc_size size ≡ false
    small = ground arith

    found : Found
    found = find_block h.pool (align size 4) 0 0

    first :
        ((found.page == 0) ≡ true) ⊎ ((found.page == 0) ≡ false)
        → IsServed (
            if found.page == 0
            then retry size (align size 4) found (grow_pool fresh h)
            else take_block size (align size 4) found h)
    first (inr n) = rw n (take_block-IsServed size (align size 4) found h n)
    first (inl z) = rw z (elim room [
      | inl ne ↦
          let (c, v', last, _) = grow_pool_lem fresh h v ne in
          retry-IsServed size (align size 4) found (grow_pool fresh h) c v' (omega arith) last
      | inr last ↦ absurd (ground (arith, found_some (align size 4) 0 0 v (omega arith) last))
    ])
