-- ===== src/Xvmalloc/Layout/Gap.antt =====
-- `xv_free` of xvmalloc.c joins a block with its free neighbours: the blocks of the page after it.
use compcache.Common.{
  ℕ, ◌+◌, ◌%◌, ◌≤◌, ◌≡◌, ◌≢◌, refl, sym, ap, ◌∙◌, true, false, not, ◌&&◌, Option, none, some, List,
  [], ◌∷◌, arith, ◌==◌, u16, sub32, subst, if◌then◌else◌, leb, inl, inr, Bool-cases,
}
use compcache.Block.{Header, block_free, test_flag, get_blockprev, block_next, get_index_for_insert}
use compcache.Pool.{Heap, modify, remove_block}
use compcache.Xvmalloc.{merge_next, merge_prev}
use compcache.Xvmalloc.Layout.{Span, IsBack, Same, Lays, IsLastFree, extent, Lays-le, Lays-same}
use compcache.Xvmalloc.Layout.Headers.{mem-modify, same_refl, same-remove_block}

-- The first of these blocks is not free.
abbrev pub IsUsedFirst : List Span → Type 0
IsUsedFirst [] = Unit
IsUsedFirst (s ∷ spans) = s.free ≡ false

-- A page in the middle of `xv_free`: the blocks before offset `o`, a block of `n` bytes there whose
-- flag is still to be set, and the blocks behind it, which may still refer to what was before them.
pub record Gap (m : ℕ → Header) (o n : ℕ) (before : Option ℕ) (pre post : List Span) : Type 0 where
  pub front : Lays m 0 none pre o before
  pub size : (m o).size ≡ n
  pub back : IsBack (m o) before
  pub whole : n % 4 ≡ 0
  pub old : Option ℕ
  pub last : Option ℕ
  pub rear : Lays m (o + n + 4) old post 4096 last

module _ {m : ℕ → Header} {o n : ℕ} {before : Option ℕ} {pre post : List Span}
    (g : Gap m o n before pre post) where
  pub Gap-bound : o + n + 4 ≤ 4096
  Gap-bound = Lays-le m (o + n + 4) g.old post 4096 g.last g.rear

  -- A gap in a page that has changed only at `o` or between the old gap's ends.
  Gap-moved :
      (m' : ℕ → Header) (n' : ℕ) (old' : Option ℕ) (post' : List Span)
      → ((i : ℕ) → i ≢ o → Same (m' i) (m i))
      → (m' o).size ≡ n'
      → (m' o).prev ≡ (m o).prev
      → n' % 4 ≡ 0
      → Lays m (o + n' + 4) old' post' 4096 g.last
      → Gap m' o n' before pre post'
  unfolding test_flag get_blockprev
  Gap-moved m' n' old' post' same s p z rear = record {
    front = Lays-same m m' 0 none pre o before g.front (λ i _ lt. same i (omega arith));
    size = s;
    back = back_of before g.back;
    whole = z;
    old = old';
    last = g.last;
    rear = Lays-same m m' (o + n' + 4) old' post' 4096 g.last rear (λ i le _. same i (omega arith));
  }
    where
      back_of : (b : Option ℕ) → IsBack (m o) b → IsBack (m' o) b
      back_of none q = ground arith
      back_of (some x) q = ground arith

-- What is joined from behind: the size, and the blocks left.
abbrev pub join_size : ℕ → List Span → ℕ
join_size n [] = n
join_size n (t ∷ post) = if t.free then n + t.size + 4 else n

abbrev pub join_rest : List Span → List Span
join_rest [] = []
join_rest (t ∷ post) = if t.free then post else t ∷ post

pub used_first :
    (m : ℕ → Header) (o b e : ℕ) (spans : List Span) (last : Option ℕ)
    → Lays m o (some b) spans e last
    → IsUsedFirst spans
used_first m o b e [] last v = tt
used_first m o b e (s ∷ spans) last (v, w) = elim (Bool-cases s.free) [
  | inr n ↦ n
  | inl f ↦ absurd (let q = (v.whole f).1 in cc)
]

module _ (page o n : ℕ) (before : Option ℕ) (pre : List Span) (h : Heap) where
  -- The header whose size grows.
  abbrev grown : ℕ → Header → Header
  grown k c = record c { size = u16 (c.size + k) }

  module _ (g : Heap) (same : (i : ℕ) → Same (g.mem page i) (h.mem page i)) (k : ℕ) where
    grown_self : (modify page o (grown k) g).mem page o ≡ grown k (g.mem page o)
    grown_self = let q : (o == o) ≡ true = ground arith in mem-modify page o o (grown k) g ∙ rw q

    grown_other : (i : ℕ) → i ≢ o → Same ((modify page o (grown k) g).mem page i) (h.mem page i)
    grown_other i d =
        let q : (i == o) ≡ false = ground arith in
        let e : (modify page o (grown k) g).mem page i ≡ g.mem page i =
          mem-modify page o i (grown k) g ∙ rw q in
        subst (λ (b : Header). Same b (h.mem page i)) (sym e) (same i)

  -- The list of the block behind, and the heap without it there.
  abbrev list : ℕ
  list = get_index_for_insert ((h.mem page (o + n + 4)).size)

  abbrev dropped : Heap
  dropped = remove_block page (o + n + 4) (o + n + 4) list h

  joined-Gap :
      (t : Span) (post : List Span) (g : Gap (h.mem page) o n before pre (t ∷ post)) (h' : Heap)
      → ((i : ℕ) → Same (h'.mem page i) (h.mem page i))
      → t.free ≡ true
      → Gap
          ((modify page o (grown ((h.mem page (o + n + 4)).size + 4)) h').mem page)
          o
          (n + t.size + 4)
          before
          pre
          post
        × IsUsedFirst post
  joined-Gap t post g h' same f =
      let (v, w) = g.rear in
      let k = (h.mem page (o + n + 4)).size + 4 in
      let w' : Lays (h.mem page) (o + n + 4 + extent t + 4) (some (o + n + 4)) post 4096 g.last =
        rw f at w in
      let le = Lays-le (h.mem page) _ _ post 4096 g.last w' in
      let mult = (v.whole f).0 in
      let self = grown_self h' same k in
      (
        Gap-moved g ((modify page o (grown k) h').mem page) (n + t.size + 4) (some (o + n + 4)) post
            (λ i d. grown_other h' same k i d)
            (ap (λ (b : Header). b.size) self ∙ omega (arith, (same o).0, g.size, v.size))
            (ap (λ (b : Header). b.prev) self ∙ (same o).1) (omega (arith, g.whole))
            (subst (λ i. Lays (h.mem page) i (some (o + n + 4)) post 4096 g.last) (omega arith) w'),
        used_first (h.mem page) _ (o + n + 4) 4096 post g.last w',
      )

  pub merge_next-Gap :
      (post : List Span)
      → Gap (h.mem page) o n before pre post
      → Gap ((merge_next page o h).mem page) o (join_size n post) before pre (join_rest post)
        × IsUsedFirst (join_rest post)
  unfolding merge_next block_next
  merge_next-Gap [] g =
      let e : (o + (h.mem page o).size + 4 == 4096) ≡ true = ground (arith, g.size, g.rear) in
      (rw e g, tt)
  merge_next-Gap (t ∷ post) g = elim (Bool-cases t.free) [
    | inr u ↦
        let flag : test_flag (h.mem page (o + n + 4)) block_free ≡ false = g.rear.0.free ∙ u in
        let stop : (not (o + n + 4 == 4096) && test_flag (h.mem page (o + n + 4)) block_free)
            ≡ false =
          ground arith in
        simp u (rw (g.size, stop) (g, refl))
    | inl f ↦
        let flag : test_flag (h.mem page (o + n + 4)) block_free ≡ true = g.rear.0.free ∙ f in
        let le = Lays-le (h.mem page) _ _ post 4096 g.last g.rear.1 in
        let inside : (o + n + 4 == 4096) ≡ false = ground arith in
        rw (f, g.size, inside, flag)
          (elim (Bool-cases (leb 32 ((h.mem page (o + n + 4)).size))) [
            | inl big ↦ rw big (
                joined-Gap t post g dropped
                  (λ i. same-remove_block page (o + n + 4) (o + n + 4) list page i h) f)
            | inr tiny ↦ rw tiny (joined-Gap t post g h (λ i. same_refl (h.mem page i)) f)
          ])
  ]

module _ (page o n c : ℕ) (pre post : List Span) (h : Heap)
    (g : Gap (h.mem page) o n (some c) pre post) (r : IsLastFree (h.mem page) 0 none pre o c) where
  abbrev grown_by : Header → Header
  grown_by b = record b { size = u16 (b.size + ((h.mem page o).size + 4)) }

  joined_prev-Gap :
      (h' : Heap)
      → ((i : ℕ) → Same (h'.mem page i) (h.mem page i))
      → Gap ((modify page c grown_by h').mem page) c (r.block.size + n + 4) none r.front post
  unfolding test_flag
  joined_prev-Gap h' same =
      let q : (c == c) ≡ true = ground arith in
      let self : (modify page c grown_by h').mem page c ≡ grown_by (h'.mem page c) =
        mem-modify page c c grown_by h' ∙ rw q in
      let mult = (r.here.whole r.is_free).0 in
      let bound = Gap-bound g in
      let m' = (modify page c grown_by h').mem page in
      let other = λ (i : ℕ) (d : i ≢ c).
        let q' : (i == c) ≡ false = ground arith in
        let e : m' i ≡ h'.mem page i = mem-modify page c i grown_by h' ∙ rw q' in
        let s : Same (m' i) (h.mem page i) =
          subst (λ (b : Header). Same b (h.mem page i)) (sym e) (same i) in
        s in
      let flags : (m' c).prev ≡ (h.mem page c).prev =
        ap (λ (b : Header). b.prev) self ∙ (same c).1 in
      record {
        front =
            Lays-same (h.mem page) m' 0 none r.front c none r.lays
              (λ i _ lt. other i (omega arith));
        size =
            ap (λ (b : Header). b.size) self
            ∙ omega (arith, (same c).0, g.size, r.here.size, r.adjacent, bound);
        back = ground (arith, r.here.back, flags);
        whole = omega (arith, g.whole);
        old = g.old;
        last = g.last;
        rear =
            Lays-same (h.mem page) m' (c + (r.block.size + n + 4) + 4) g.old post 4096 g.last
              (subst (λ i. Lays (h.mem page) i g.old post 4096 g.last) (omega (arith, r.adjacent))
                g.rear)
              (λ i le _. other i (omega arith));
      }

  -- The block before an offset is free, and takes in the `n` bytes there with their header.
  pub merge_prev-Gap :
      ((merge_prev page o h).offset ≡ c)
      × ((merge_prev page o h).at ≡ c)
      × Gap ((merge_prev page o h).heap.mem page) c (r.block.size + n + 4) none r.front post
  unfolding merge_prev
  merge_prev-Gap =
      let place : sub32 (sub32 o ((h.mem page c).size)) 4 ≡ c =
        omega (arith, r.adjacent, r.here.size, (r.here.whole r.is_free).0, Gap-bound g) in
      rw (g.back.0, g.back.1, place)
        (elim (Bool-cases (leb 32 ((h.mem page c).size))) [
          | inl big ↦ rw big (
            refl,
            refl,
            joined_prev-Gap (remove_block page c c (get_index_for_insert ((h.mem page c).size)) h)
                (λ i.
                  same-remove_block page c c (get_index_for_insert ((h.mem page c).size)) page i h),
          )
          | inr tiny ↦ rw tiny (refl, refl, joined_prev-Gap h (λ i. same_refl (h.mem page i)))
        ])
