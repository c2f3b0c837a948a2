-- ===== src/Xvmalloc/Layout/Mark.antt =====
-- The end of `xv_free` of xvmalloc.c marks a block as free: the blocks of the page after it.
use compcache.Common.{
  ℕ, ◌+◌, ◌≡◌, ◌≢◌, refl, sym, ap, ◌∙◌, Bool, true, false, Option, none, some, List, [], ◌∷◌, ◌++◌,
  arith, ◌==◌, subst, if◌then◌else◌, leb, inl, inr, Bool-cases,
}
use compcache.Block.{Header, block_free, prev_free, test_flag, set_flag, set_blockprev, block_next}
use compcache.Pool.{Heap, modify, insert_block, with_pool}
use compcache.Pool.Lists.{header-insert_block}
use compcache.Xvmalloc.{finish_free, uncount_page}
use compcache.Xvmalloc.Layout.{
  Span, Same, Lays, IsPage, after, extent, Lays-aligned, Lays-same, Lays-end, IsBlock-same, relay,
  page_of,
}
use compcache.Xvmalloc.Layout.Headers.{linked-IsBlock, freed-IsBlock, mem-modify, same_refl}
use compcache.Xvmalloc.Layout.Gap.{Gap, Gap-bound, IsUsedFirst}

-- `release` of the blocks before a block of `n` bytes, and those behind it: the list in which the block is
-- free, joined with the block before it if that is free.
unfoldable pub release : List Span → ℕ → List Span → List Span
release [] n post = record { size = n; free = true } ∷ post
release (p ∷ []) n post =
    if p.free
    then record { size = p.size + n + 4; free = true } ∷ post
    else (p ∷ (record { size = n; free = true } ∷ post))
release (p ∷ (q ∷ pre)) n post = p ∷ release (q ∷ pre) n post

pub release-joined :
    (front : List Span) (b : Span) (n : ℕ) (post : List Span)
    → b.free ≡ true
    → release (front ++ (b ∷ [])) n post
      ≡ front ++ (record { size = b.size + n + 4; free = true } ∷ post)
unfolding release
release-joined [] b n post f = simp f
release-joined (x ∷ []) b n post f = simp f
release-joined (x ∷ (y ∷ front)) b n post f =
    ap (λ l. x ∷ l) (release-joined (y ∷ front) b n post f)

pub release-apart :
    (m : ℕ → Header) (o : ℕ) (before : Option ℕ) (pre : List Span) (e n : ℕ) (post : List Span)
    → Lays m o before pre e none
    → release pre n post ≡ pre ++ (record { size = n; free = true } ∷ post)
unfolding release
release-apart m o before [] e n post v = refl
release-apart m o before (x ∷ []) e n post (v, (_, last)) = elim (Bool-cases x.free) [
  | inl f ↦ absurd (cc (rw f at last))
  | inr u ↦ simp u
]
release-apart m o before (x ∷ (y ∷ pre)) e n post (v, w) =
    ap (λ l. x ∷ l) (release-apart m (o + extent x + 4) (after o x) (y ∷ pre) e n post w)

used_flag :
    (m : ℕ → Header) (e : ℕ) (old : Option ℕ) (post : List Span) (last : Option ℕ)
    → Lays m e old post 4096 last
    → IsUsedFirst post
    → e ≢ 4096
    → test_flag (m e) block_free ≡ false
used_flag m e old [] last v u ne = absurd (omega arith)
used_flag m e old (s ∷ post) last (v, w) u ne = v.free ∙ u

module _ (page c n : ℕ) (pre post : List Span) (h : Heap) (g : Gap (h.mem page) c n none pre post)
    (used : IsUsedFirst post) where
  abbrev at_end : ℕ
  at_end = c + n + 4

  -- What the marking of a block as free writes.
  record IsMarked (m' : ℕ → Header) : Type 0 where
    own : Same (m' c) (set_flag (h.mem page c) block_free)
    next :
        at_end ≢ 4096 → Same (m' at_end) (set_blockprev (set_flag (h.mem page at_end) prev_free) c)
    others : (i : ℕ) → i ≢ c → i ≢ at_end → Same (m' i) (h.mem page i)

  marked-IsPage :
      (m' : ℕ → Header) → IsMarked m' → IsPage m' (pre ++ (record { size = n; free = true } ∷ post))
  marked-IsPage m' k =
      let bound = Gap-bound g in
      let aligned = Lays-aligned (h.mem page) 0 none pre c none g.front refl in
      let (last', behind) =
        relay (h.mem page) m' at_end g.old (some c) post g.last g.rear
          (λ ne s v. IsBlock-same (k.next ne) (
            linked-IsBlock c aligned (omega arith)
              (sym v.free ∙ used_flag (h.mem page) at_end g.old post g.last g.rear used ne) v))
          (λ i l _. k.others i (omega arith) (omega arith)) in
      page_of m' c none pre (record { size = n; free = true }) post last'
        (Lays-same (h.mem page) m' 0 none pre c none g.front
          (λ i _ lt. k.others i (omega arith) (omega arith)))
        (IsBlock-same k.own (freed-IsBlock (h.mem page c) n g.size g.back g.whole))
        (subst (λ i. Lays m' i (some c) post 4096 last') (omega (arith, g.whole)) behind)

  abbrev marked : Heap
  marked = modify page c (λ b. set_flag b block_free) h

  module _ (h' : Heap) (same : (i : ℕ) → Same (h'.mem page i) (marked.mem page i)) where
    marked-own : Same (h'.mem page c) (set_flag (h.mem page c) block_free)
    marked-own =
        let q : (c == c) ≡ true = ground arith in
        let e : marked.mem page c ≡ set_flag (h.mem page c) block_free =
          mem-modify page c c (λ b. set_flag b block_free) h ∙ rw q in
        subst (Same (h'.mem page c)) e (same c)

    marked-other : (i : ℕ) → i ≢ c → Same (h'.mem page i) (h.mem page i)
    marked-other i d =
        let q : (i == c) ≡ false = ground arith in
        let e : marked.mem page i ≡ h.mem page i =
          mem-modify page c i (λ b. set_flag b block_free) h ∙ rw q in
        subst (Same (h'.mem page i)) e (same i)

  same_linked :
      (a b : Header)
      → Same a b
      → Same (set_blockprev (set_flag a prev_free) c) (set_blockprev (set_flag b prev_free) c)
  unfolding set_blockprev set_flag
  same_linked a b (p, q) = (p, ground arith)

  size-set_flag : (b : Header) → (set_flag b block_free).size ≡ b.size
  unfolding set_flag
  size-set_flag b = refl

  module _ (h' : Heap) (same : (i : ℕ) → Same (h'.mem page i) (marked.mem page i)) where
    abbrev link : Header → Header
    link b = set_blockprev (set_flag b prev_free) c

    size' : (h'.mem page c).size ≡ n
    size' = (marked-own h' same).0 ∙ size-set_flag (h.mem page c) ∙ g.size

    -- The last write of `xv_free`, which is left out at the end of the page.
    linked-IsMarked : IsMarked (
        (if at_end == 4096 then h' else modify page (block_next (h'.mem page c) c) link h').mem
          page)
    unfolding block_next
    linked-IsMarked = elim (Bool-cases (at_end == 4096)) [
      | inl e ↦ rw e (record {
        own = marked-own h' same;
        next = λ ne. absurd (ne (ground arith));
        others = λ i d _. marked-other h' same i d;
      })
      | inr e ↦
          rw (e, size')
            (record {
              own =
                  let q : (c == at_end) ≡ false = ground arith in
                  rw (mem-modify page at_end c link h', q) (marked-own h' same);
              next = λ ne.
                  let q : (at_end == at_end) ≡ true = ground arith in
                  rw (mem-modify page at_end at_end link h', q)
                    (same_linked _ _ (marked-other h' same at_end (omega arith)));
              others = λ i d d'.
                  let q : (i == at_end) ≡ false = ground arith in
                  rw (mem-modify page at_end i link h', q) (marked-other h' same i d);
            })
    ]

  -- The last steps of `finish_free`, with the size of the block.
  abbrev way_out : ℕ → Heap → Bool × Heap
  way_out k h' = if c + k + 4 == 4096 then (false, h') else (
    false,
    modify page (block_next (h'.mem page c) c) (λ b. set_blockprev (set_flag b prev_free) c) h',
  )

  abbrev by_size : ℕ → Bool × Heap
  by_size k =
      if k == 4092
      then (true, with_pool uncount_page h)
      else way_out k (if leb 32 k then insert_block page c c marked else marked)

  finish_free-size : finish_free page (record { offset = c; at = c; heap = h }) ≡ by_size n
  unfolding finish_free
  finish_free-size = ap by_size g.size

  way_out-IsPage :
      (h' : Heap)
      → ((i : ℕ) → Same (h'.mem page i) (marked.mem page i))
      → ((way_out n h').0 ≡ false)
        × IsPage ((way_out n h').1.mem page) (pre ++ (record { size = n; free = true } ∷ post))
  way_out-IsPage h' same =
      let k = linked-IsMarked h' same in
      elim (Bool-cases (at_end == 4096)) [
        | inl e ↦ rw e (refl, marked-IsPage (h'.mem page) (rw e at k))
        | inr e ↦ rw e (refl, marked-IsPage _ (rw e at k))
      ]

  -- A block that does not fill its page is marked, and entered in its free list.
  pub finish_free-part :
      n ≢ 4092
      → let r = finish_free page (record { offset = c; at = c; heap = h }) in
        (r.0 ≡ false) × IsPage (r.1.mem page) (pre ++ (record { size = n; free = true } ∷ post))
  finish_free-part ne =
      let q : (n == 4092) ≡ false = ground arith in
      rw (finish_free-size, q)
        (elim (Bool-cases (leb 32 n)) [
          | inl big ↦ rw big (
              way_out-IsPage (insert_block page c c marked)
                (λ i. header-insert_block page c c page i marked))
          | inr tiny ↦ rw tiny (way_out-IsPage marked (λ i. same_refl (marked.mem page i)))
        ])

  -- A block that fills its page is alone in it.
  pub finish_free-whole :
      n ≡ 4092
      → ((finish_free page (record { offset = c; at = c; heap = h })).0 ≡ true)
        × (pre ++ (record { size = n; free = true } ∷ post)
            ≡ record { size = 4092; free = true } ∷ [])
  finish_free-whole e =
      let q : (n == 4092) ≡ true = ground arith in
      let start : c ≡ 0 = omega (arith, Gap-bound g) in
      let before : pre ≡ [] =
        front_empty (h.mem page) pre
          (subst (λ i. Lays (h.mem page) 0 none pre i none) start g.front) in
      let behind : post ≡ [] =
        Lays-end (h.mem page) g.old post 4096 g.last
          (subst (λ i. Lays (h.mem page) i g.old post 4096 g.last) (omega arith) g.rear) in
      (rw (finish_free-size, q) refl, rw (before, behind, e) refl)
    where
      front_empty : (m : ℕ → Header) (spans : List Span) → Lays m 0 none spans 0 none → spans ≡ []
      front_empty m spans v = Lays-end m none spans 0 none v
