-- ===== src/Xvmalloc/Layout/Take.antt =====
-- `xv_malloc` of xvmalloc.c takes a free block: the blocks of the page after it.
use compcache.Common.{
  ℕ, ◌+◌, ◌-◌, ◌%◌, ◌<◌, ◌≤◌, ◌≡◌, ◌≢◌, refl, sym, ◌∙◌, true, false, Option, none, some, List, ◌∷◌,
  ◌++◌, arith, ◌==◌, u16, subst, if◌then◌else◌, inl, inr, Bool-cases,
}
use compcache.Block.{Header, block_free, prev_free, clear_flag, align}
use compcache.Pool.{Heap, Found, remove_block_head}
use compcache.Pool.Lists.{header-remove_block_head}
use compcache.Xvmalloc.{split_block, take_block}
use compcache.Xvmalloc.Layout.{
  Span, IsBlock, Same, Lays, Lays-le, IsPage, relay, page_of, Lays-aligned, Lays-same, IsBlock-same,
}
use compcache.Xvmalloc.Layout.Headers.{
  cleared-IsBlock, relinked-IsBlock, rest-IsBlock, used-IsBlock, mem-modify, same_trans,
}
use compcache.Xvmalloc.Layout.Split.{split_block-exact, split_block-IsSplit}

-- The blocks that an allocation of `orig` bytes makes of a free block of `have` bytes.
abbrev pub carve : (orig have : ℕ) → List Span → List Span
carve orig have post =
    let size = align orig 4 in
    record { size = orig; free = false }
    ∷ (if have == size then post else (record { size = have - size - 4; free = true } ∷ post))

module _ (orig : ℕ) (f : Found) (h : Heap) (pre post : List Span) (have : ℕ) (last : Option ℕ)
    (sane : orig ≤ 4092) (enough : align orig 4 ≤ have)
    (front : Lays (h.mem f.page) 0 none pre f.offset none)
    (block : IsBlock (h.mem f.page f.offset) none (record { size = have; free = true }))
    (rear : Lays (h.mem f.page) (f.offset + have + 4) (some f.offset) post 4096 last) where
  abbrev size : ℕ
  size = align orig 4

  abbrev o : ℕ
  o = f.offset

  abbrev h1 : Heap
  h1 = remove_block_head f.page o f.index h

  abbrev m : ℕ → Header
  m = h.mem f.page

  same1 : (i : ℕ) → Same (h1.mem f.page i) (m i)
  same1 i = header-remove_block_head f.page o f.index f.page i h

  within : o + have + 4 ≤ 4096
  within = Lays-le m (o + have + 4) (some o) post 4096 last rear

  whole : have % 4 ≡ 0
  whole = (block.whole refl).0

  aligned : o % 4 ≡ 0
  aligned = Lays-aligned m 0 none pre o none front refl

  size1 : (h1.mem f.page o).size ≡ have
  size1 = (same1 o).0 ∙ block.size

  abbrev m2 : ℕ → Header
  m2 = (split_block f.page o size have h1).mem f.page

  abbrev used : Header → Header
  used b = clear_flag (record b { size = u16 orig }) block_free

  abbrev m3 : ℕ → Header
  m3 = (take_block orig size f h).heap.mem f.page

  m3_self : m3 o ≡ used (m2 o)
  unfolding take_block
  m3_self =
      let q : (o == o) ≡ true = ground arith in
      rw (size1) (mem-modify f.page o o used (split_block f.page o size have h1) ∙ rw q)

  m3_other : (i : ℕ) → i ≢ o → m3 i ≡ m2 i
  unfolding take_block
  m3_other i n =
      let q : (i == o) ≡ false = ground arith in
      rw (size1) (mem-modify f.page o i used (split_block f.page o size have h1) ∙ rw q)

  small : u16 orig ≡ orig
  small = omega (arith, within)

  -- The headers that no step writes.
  same-front : ((i : ℕ) → i < o → Same (m2 i) (m i)) → Lays m3 0 none pre o none
  same-front same =
      Lays-same m m3 0 none pre o none front (λ i _ lt.
        subst (λ (b : Header). Same b (m i)) (sym (m3_other i (omega arith))) (same i lt))

  block3 : Same (m2 o) (m o) → IsBlock (m3 o) none (record { size = orig; free = false })
  block3 same =
      subst (λ b. IsBlock b none (record { size = orig; free = false })) (sym m3_self)
        (subst (λ n. IsBlock (used (m2 o)) none (record { size = n; free = false })) small
          (used-IsBlock (u16 orig) (IsBlock-same same block) refl))

  take-exact : size ≡ have → IsPage m3 (pre ++ (record { size = orig; free = false } ∷ post))
  take-exact e =
      let m2-at =
        split_block-exact f.page o size have h1 enough (omega (arith, within))
          (omega (arith, within)) e in
      let other = λ (i : ℕ) (n : i ≢ o + size + 4).
        let r : m2 i ≡ h1.mem f.page i = ground (arith, m2-at i) in r in
      let same = λ (i : ℕ) (n : i ≢ o + size + 4).
        subst (λ (b : Header). Same b (m i)) (sym (other i n)) (same1 i) in
      let (last', behind3) =
        relay m m3 (o + size + 4) (some o) none post last
          (subst (λ n. Lays m (o + n + 4) (some o) post 4096 last) (sym e) rear)
          (λ n s v.
            let r : m3 (o + size + 4) ≡ clear_flag (h1.mem f.page (o + size + 4)) prev_free =
              m3_other (o + size + 4) (omega arith) ∙ ground (arith, m2-at (o + size + 4)) in
            subst (λ b. IsBlock b none s) (sym r)
              (cleared-IsBlock (IsBlock-same (same1 (o + size + 4)) v)))
          (λ i l _.
            subst (λ (b : Header). Same b (m i)) (sym (m3_other i (omega arith)))
              (same i (omega arith))) in
      page_of m3 o none pre (record { size = orig; free = false }) post last'
        (same-front (λ i lt. same i (omega arith))) (block3 (same o (omega arith)))
        (subst (λ n. Lays m3 (o + n + 4) none post 4096 last') (omega arith) behind3)

  take-split :
      size ≢ have
      → IsPage m3 (
          pre
          ++ (record { size = orig; free = false }
              ∷ (record { size = have - size - 4; free = true } ∷ post)))
  take-split ne =
      let s =
        split_block-IsSplit f.page o size have h1 enough (omega (arith, within))
          (omega (arith, within)) (omega (arith, whole)) in
      let next = o + size + 4 in
      let end = next + (have - size - 4) + 4 in
      let same = λ (i : ℕ) (n : i ≢ next) (n' : i ≢ end).
        same_trans (m2 i) (h1.mem f.page i) (m i) (s.others i n n') (same1 i) in
      let r3 : m3 next ≡ m2 next = m3_other next (omega arith) in
      let rest : IsBlock (m3 next) none (record { size = have - size - 4; free = true }) =
        subst (λ b. IsBlock b none (record { size = have - size - 4; free = true })) (sym r3)
          (IsBlock-same s.rest (
            rest-IsBlock (h1.mem f.page next) (have - size - 4) o (omega (arith, whole)) aligned
              (omega (arith, within)))) in
      let (last', behind3) =
        relay m m3 end (some o) (some next) post last
          (subst (λ n. Lays m n (some o) post 4096 last) (omega (arith, whole)) rear)
          (λ n t v.
            subst (λ b. IsBlock b (some next) t) (sym (m3_other end (omega arith)))
              (IsBlock-same (s.next n) (
                relinked-IsBlock next (omega (arith, aligned)) (omega (arith, within))
                  (IsBlock-same (same1 end) v))))
          (λ i l _.
            subst (λ (b : Header). Same b (m i)) (sym (m3_other i (omega arith)))
              (same i (omega arith) (omega arith))) in
      page_of m3 o none pre (record { size = orig; free = false })
        (record { size = have - size - 4; free = true } ∷ post) last'
        (same-front (λ i lt. same i (omega arith) (omega arith)))
        (block3 (same o (omega arith) (omega arith)))
        (subst
          (λ n. Lays m3 n none (record { size = have - size - 4; free = true } ∷ post) 4096 last')
          (omega arith)
          (rest, subst (λ n. Lays m3 n (some next) post 4096 last') (omega (arith, whole)) behind3))

  -- Where a page is a list of blocks, and the block that was found is free and large enough for the
  -- request, at most `XV_MAX_ALLOC_SIZE` bytes, `xv_malloc` leaves the page as the list in which that
  -- block is an allocated one of the requested size, with what is left over as a free block behind it,
  -- and all other blocks are as they were.
  pub take_block-IsPage : IsPage m3 (pre ++ carve orig have post)
  take_block-IsPage = elim (Bool-cases (have == size)) [
    | inl e ↦ rw e (take-exact (ground arith))
    | inr n ↦ rw n (take-split (ground arith))
  ]
