-- ===== src/Xvmalloc/Layout/Free.antt =====
-- `xv_free` of xvmalloc.c: the blocks of the page after it.
use compcache.Common.{
  ℕ, ◌+◌, ◌≡◌, ◌≢◌, ◌⊎◌, sym, ap, ◌∙◌, Bool, true, false, Option, none, some, List, [], ◌∷◌, ◌++◌,
  arith, ◌==◌, u16, sub32, subst, inl, inr, Bool-cases,
}
use compcache.Block.{Header, prev_free, test_flag, get_blockprev, align}
use compcache.Pool.{Heap, modify}
use compcache.Xvmalloc.{Merged, merge_next, merge_prev, finish_free, xv_free}
use compcache.Xvmalloc.Layout.{
  Span, IsBlock, IsBack, Same, Lays, IsPage, extent, Lays-le, Lays-same, last_free,
}
use compcache.Xvmalloc.Layout.Headers.{mem-modify, same_refl}
use compcache.Xvmalloc.Layout.Gap.{
  Gap, IsUsedFirst, join_size, join_rest, merge_next-Gap, merge_prev-Gap,
}
use compcache.Xvmalloc.Layout.Mark.{
  release, release-joined, release-apart, finish_free-part, finish_free-whole,
}

abbrev whole_page : List Span
whole_page = record { size = 4092; free = true } ∷ []

-- What `xv_free` returns where the blocks are now `spans`: the page went back to the system exactly
-- if they are one free block that fills it, and otherwise it is laid out as they say.
abbrev pub IsReleased : ℕ → List Span → Option (Bool × Heap) → Type 0
IsReleased page spans none = ⊥
IsReleased page spans (some r) =
    ((r.0 ≡ true) × (spans ≡ whole_page))
    ⊎ ((r.0 ≡ false) × (spans ≢ whole_page) × IsPage (r.1.mem page) spans)

is_empty : List Span → Bool
is_empty [] = true
is_empty (s ∷ spans) = false

rest_of : List Span → List Span
rest_of [] = []
rest_of (s ∷ spans) = spans

first_size : List Span → ℕ
first_size [] = 0
first_size (s ∷ spans) = s.size

part-whole_page :
    (pre : List Span) (n : ℕ) (post : List Span)
    → n ≢ 4092
    → pre ++ (record { size = n; free = true } ∷ post) ≢ whole_page
unfolding first_size is_empty rest_of
part-whole_page [] n post ne e = ne (ap first_size e)
part-whole_page (x ∷ []) n post ne e = let q = ap (λ l. is_empty (rest_of l)) e in cc
part-whole_page (x ∷ (y ∷ pre)) n post ne e = let q = ap (λ l. is_empty (rest_of l)) e in cc

finish_free-IsReleased :
    (page c n : ℕ) (pre post : List Span) (h : Heap)
    → Gap (h.mem page) c n none pre post
    → IsUsedFirst post
    → IsReleased page
        (pre ++ (record { size = n; free = true } ∷ post))
        (some (finish_free page (record { offset = c; at = c; heap = h })))
finish_free-IsReleased page c n pre post h g used = elim (Bool-cases (n == 4092)) [
  | inl e ↦ inl (finish_free-whole page c n pre post h g used (ground arith))
  | inr d ↦
      let (a, b) = finish_free-part page c n pre post h g used (ground arith) in
      inr (a, part-whole_page pre n post (ground arith), b)
]

merge_prev-none :
    (page o : ℕ) (h : Heap)
    → test_flag (h.mem page o) prev_free ≡ false
    → merge_prev page o h ≡ record { offset = o; at = o; heap = h }
unfolding merge_prev
merge_prev-none page o h f = rw f

IsBack-same : (k h : Header) (b : Option ℕ) → IsBack h b → k.prev ≡ h.prev → IsBack k b
unfolding test_flag get_blockprev
IsBack-same k h none v e = ground arith
IsBack-same k h (some x) v e = ground arith

-- The block before is merged, or there is none to merge.
merge_prev-IsReleased :
    (page o n : ℕ) (before : Option ℕ) (pre post : List Span) (h : Heap)
    → Gap (h.mem page) o n before pre post
    → IsUsedFirst post
    → IsReleased page (release pre n post) (some (finish_free page (merge_prev page o h)))
merge_prev-IsReleased page o n none pre post h g used =
    rw (release-apart (h.mem page) 0 none pre o n post g.front, merge_prev-none page o h g.back)
      (finish_free-IsReleased page o n pre post h g used)
merge_prev-IsReleased page o n (some c) [] post h g used = absurd (let q = g.front.1 in cc)
merge_prev-IsReleased page o n (some c) (x ∷ pre) post h g used =
    let r = last_free (h.mem page) 0 none x pre o c g.front in
    let (a, b, k) = merge_prev-Gap page o n c (x ∷ pre) post h g r in
    let q : merge_prev page o h ≡ record { offset = c; at = c; heap = (merge_prev page o h).heap } =
      cc in
    let l : release (x ∷ pre) n post
        ≡ r.front ++ (record { size = r.block.size + n + 4; free = true } ∷ post) =
      ap (λ l. release l n post) r.joined ∙ release-joined r.front r.block n post r.is_free in
    subst (λ l. IsReleased page l (some (finish_free page (merge_prev page o h)))) (sym l)
      (subst
        (λ (t : Merged).
          IsReleased page (r.front ++ (record { size = r.block.size + n + 4; free = true } ∷ post))
            (some (finish_free page t)))
        (sym q)
        (finish_free-IsReleased page c (r.block.size + n + 4) r.front post
          (merge_prev page o h).heap k used))

module _ (page o : ℕ) (h : Heap) (pre : List Span) (s : Span) (post : List Span)
    (before last : Option ℕ) (front : Lays (h.mem page) 0 none pre o before)
    (block : IsBlock (h.mem page o) before s) (used : s.free ≡ false)
    (rear : Lays (h.mem page) (o + extent s + 4) none post 4096 last) where
  abbrev sized : Heap
  sized = modify page o (λ b. record b { size = u16 (align b.size 4) }) h

  sized-Gap : Gap (sized.mem page) o (extent s) before pre post
  sized-Gap =
      let q : (o == o) ≡ true = ground arith in
      let self : sized.mem page o
          ≡ record (h.mem page o) { size = u16 (align (h.mem page o).size 4) } =
        mem-modify page o o (λ b. record b { size = u16 (align b.size 4) }) h ∙ rw q in
      let bound = Lays-le (h.mem page) (o + extent s + 4) none post 4096 last rear in
      let other = λ (i : ℕ) (d : i ≢ o).
        let q' : (i == o) ≡ false = ground arith in
        let e : sized.mem page i ≡ h.mem page i =
          mem-modify page o i (λ b. record b { size = u16 (align b.size 4) }) h ∙ rw q' in
        let r : Same (sized.mem page i) (h.mem page i) =
          subst (λ (b : Header). Same b (h.mem page i)) (sym e) (same_refl (h.mem page i)) in
        r in
      record {
        front =
            Lays-same (h.mem page) (sized.mem page) 0 none pre o before front
              (λ i _ lt. other i (omega arith));
        size = ap (λ (b : Header). b.size) self ∙ omega (arith, block.size);
        back =
            IsBack-same (sized.mem page o) (h.mem page o) before block.back
              (ap (λ (b : Header). b.prev) self);
        whole = omega arith;
        old = none;
        last = last;
        rear =
            Lays-same (h.mem page) (sized.mem page) (o + extent s + 4) none post 4096 last rear
              (λ i le _. other i (omega arith));
      }

  -- Where a page is the blocks `pre`, an allocated block and `post`, freeing that block is no double
  -- free, and the page is then the list in which the block is free and joined with the free blocks
  -- next to it. It goes back to the system exactly if that is one free block that fills it.
  pub xv_free-IsReleased :
      IsReleased page
        (release pre (join_size (extent s) post) (join_rest post))
        (xv_free page (o + 4) h)
  unfolding xv_free
  xv_free-IsReleased =
      let bound = Lays-le (h.mem page) (o + extent s + 4) none post 4096 last rear in
      let place : sub32 (o + 4) 4 ≡ o = omega arith in
      let (g, first) = merge_next-Gap page o (extent s) before pre sized post sized-Gap in
      rw (place, block.free, used)
        (merge_prev-IsReleased page o (join_size (extent s) post) before pre (join_rest post)
          (merge_next page o sized) g first)
