-- ===== src/Xvmalloc/Layout/RoundTrip.antt =====
-- xvmalloc.c: `xv_free` gives back to the page what `xv_malloc` took, and what `grow_pool` adds.
use compcache.Common.{
  ℕ, ◌+◌, ◌-◌, ◌%◌, ◌≤◌, ◌≡◌, ◌≢◌, refl, sym, true, false, Option, none, some, List, [], ◌∷◌, ◌++◌,
  arith, ◌==◌, subst, inl, inr, Bool-cases,
}
use compcache.Block.{Header, align, set_flag, clear_flag, set_blockprev, get_blockprev, test_flag}
use compcache.Pool.{Heap, Found, modify, with_pool, insert_block}
use compcache.Pool.Lists.{header-insert_block}
use compcache.Xvmalloc.{Malloced, take_block, xv_free, grow_pool, whole_page, count_page}
use compcache.Xvmalloc.Layout.{
  Span, IsBlock, Lays, IsPage, Same, after, extent, Lays-le, IsBlock-same,
}
use compcache.Xvmalloc.Layout.Headers.{mem-modify}
use compcache.Xvmalloc.Layout.Gap.{join_size, join_rest, IsUsedFirst, used_first}
use compcache.Xvmalloc.Layout.Mark.{release-apart}
use compcache.Xvmalloc.Layout.Take.{carve, take_block-IsPage}
use compcache.Xvmalloc.Layout.Free.{IsReleased, xv_free-IsReleased}

-- Where a list of blocks is cut: the place depends on the blocks alone.
Lays-cut :
    (m m' : ℕ → Header) (o : ℕ) (before : Option ℕ) (xs ys : List Span) (a : ℕ) (mid : Option ℕ)
    (e : ℕ) (last last' : Option ℕ)
    → Lays m' o before xs a mid
    → Lays m o before (xs ++ ys) e last
    → Lays m o before xs a mid × Lays m a mid ys e last
Lays-cut m m' o before [] ys a mid e last last' (p, q) w =
    ((p, q), subst (λ i. Lays m i mid ys e last) p (subst (λ b. Lays m o b ys e last) q w))
Lays-cut m m' o before (s ∷ xs) ys a mid e last last' (p, v) (b, w) =
    let (l, r) = Lays-cut m m' (o + extent s + 4) (after o s) xs ys a mid e last last' v w in
    ((b, l), r)

-- Taken together again, the pieces of a block are the block.
module _ (orig have : ℕ) (sane : orig ≤ 4092) (enough : align orig 4 ≤ have) where
  abbrev taken : Span
  taken = record { size = orig; free = false }

  join-exact :
      (post : List Span)
      → IsUsedFirst post
      → align orig 4 ≡ have
      → (join_size (extent taken) post ≡ have) × (join_rest post ≡ post)
  join-exact [] used e = (omega (arith, e), refl)
  join-exact (t ∷ post) used e = rw used (omega (arith, e), refl)

  join-split :
      have % 4 ≡ 0 → align orig 4 ≢ have → extent taken + (have - align orig 4 - 4) + 4 ≡ have
  join-split whole ne = omega arith

module _ (orig : ℕ) (f : Found) (h : Heap) (pre post : List Span) (have : ℕ) (last : Option ℕ)
    (sane : orig ≤ 4092) (enough : align orig 4 ≤ have)
    (front : Lays (h.mem f.page) 0 none pre f.offset none)
    (block : IsBlock (h.mem f.page f.offset) none (record { size = have; free = true }))
    (rear : Lays (h.mem f.page) (f.offset + have + 4) (some f.offset) post 4096 last) where
  abbrev r : Malloced
  r = take_block orig (align orig 4) f h

  abbrev restored : List Span
  restored = pre ++ (record { size = have; free = true } ∷ post)

  within : f.offset + have + 4 ≤ 4096
  within = Lays-le (h.mem f.page) (f.offset + have + 4) (some f.offset) post 4096 last rear

  used : IsUsedFirst post
  used = used_first (h.mem f.page) (f.offset + have + 4) f.offset 4096 post last rear

  r-offset : r.offset ≡ f.offset + 4
  unfolding take_block
  r-offset = omega (arith, within)

  abbrev g : ℕ → Header
  g = r.heap.mem f.page

  -- The object is freed, and what is behind it is joined with it.
  restore :
      (tail : List Span) (last' : Option ℕ)
      → Lays g 0 none pre f.offset none
      → Lays g f.offset none (record { size = orig; free = false } ∷ tail) 4096 last'
      → join_size (extent (record { size = orig; free = false })) tail ≡ have
      → join_rest tail ≡ post
      → IsReleased f.page restored (xv_free f.page r.offset r.heap)
  restore tail last' l (v, w) js jr =
      let e = release-apart g 0 none pre f.offset have post l in
      let q =
        xv_free-IsReleased f.page f.offset r.heap pre (record { size = orig; free = false }) tail
          none last' l v refl w in
      rw (r-offset, sym e) (rw (js, jr) at q)

  -- Where `xv_malloc` takes a free block of a page that is a list of blocks, for a request of at most
  -- `XV_MAX_ALLOC_SIZE` bytes that the block is large enough for, freeing the object at once is no
  -- double free and makes the page the list of blocks that it was, or gives it back to the system if
  -- that list is one free block that fills it.
  pub take_block-xv_free : IsReleased f.page restored (xv_free f.page r.offset r.heap)
  take_block-xv_free =
      let p = take_block-IsPage orig f h pre post have last sane enough front block rear in
      let (l, w) =
        Lays-cut (r.heap.mem f.page) (h.mem f.page) 0 none pre (carve orig have post) f.offset none
          4096 p.last last front p.lays in
      elim (Bool-cases (have == align orig 4)) [
        | inl e ↦
            let (js, jr) = join-exact orig have sane enough post used (ground arith) in
            restore post p.last l (rw e at w) js jr
        | inr n ↦
            restore (record { size = have - align orig 4 - 4; free = true } ∷ post) p.last l
              (rw n at w) (join-split orig have sane enough (block.whole refl).0 (ground arith))
              refl
      ]

whole_page-IsBlock :
    (b : Header) → IsBlock (whole_page b) none (record { size = 4092; free = true })
unfolding whole_page test_flag set_flag clear_flag set_blockprev get_blockprev
whole_page-IsBlock b = record {
  size = refl;
  free = ground arith;
  back = ground arith;
  whole = λ e. (refl, refl);
}

-- Where `alloc_page` returns a page, `grow_pool` makes it one free block that fills it.
pub grow_pool-IsPage :
    (fresh : ℕ) (h : Heap)
    → fresh ≢ 0
    → IsPage ((grow_pool fresh h).1.mem fresh) (record { size = 4092; free = true } ∷ [])
unfolding grow_pool
grow_pool-IsPage fresh h ne =
    let z : (fresh == 0) ≡ false = ground arith in
    let written = modify fresh 0 whole_page (with_pool count_page h) in
    let self : written.mem fresh 0 ≡ whole_page (h.mem fresh 0) =
      mem-modify fresh 0 0 whole_page (with_pool count_page h) in
    let same : Same ((insert_block fresh 0 0 written).mem fresh 0) (whole_page (h.mem fresh 0)) =
      subst (Same ((insert_block fresh 0 0 written).mem fresh 0)) self
        (header-insert_block fresh 0 0 fresh 0 written) in
    rw z (record {
      last = some 0;
      lays = (IsBlock-same same (whole_page-IsBlock (h.mem fresh 0)), (refl, refl));
    })
