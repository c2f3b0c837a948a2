-- ===== src/Xvmalloc/Layout/Split.antt =====
-- `xv_malloc` of xvmalloc.c splits a free block: the headers that it writes.
use compcache.Common.{
  ℕ, ◌+◌, ◌-◌, ◌<◌, ◌≤◌, ◌≡◌, ◌≢◌, refl, sym, ap, ◌∙◌, true, false, arith, ◌==◌, u16, sub32, subst,
  if◌then◌else◌, leb, inl, inr, Bool-cases,
}
use compcache.Block.{Header, block_free, prev_free, set_flag, clear_flag, set_blockprev, block_next}
use compcache.Pool.{Heap, modify, insert_block}
use compcache.Pool.Lists.{header-insert_block}
use compcache.Xvmalloc.{split_block}
use compcache.Xvmalloc.Layout.{Same}
use compcache.Xvmalloc.Layout.Headers.{mem-modify, same_refl}

module _ (page offset size have : ℕ) (h : Heap) (fits : size ≤ have) (small : have < 4096)
    (inside : offset < 4096) where
  abbrev behind : ℕ
  behind = offset + size + 4

  pub split_block-exact :
      size ≡ have
      → (i : ℕ)
      → (split_block page offset size have h).mem page i ≡ (
          if behind == 4096
          then h.mem page i
          else (if i == behind then clear_flag (h.mem page behind) prev_free else h.mem page i))
  unfolding split_block
  split_block-exact e i =
      let z : (sub32 have size == 0) ≡ true = ground arith in
      elim (Bool-cases (behind == 4096)) [
        | inl q ↦ rw (z, q) refl
        | inr q ↦ rw (z, q) (mem-modify page behind i (λ b. clear_flag b prev_free) h)
      ]

  abbrev left : ℕ
  left = have - size - 4

  -- The header that is written behind the allocation.
  abbrev rest_header : Header → Header
  rest_header b =
      set_blockprev (clear_flag (set_flag (record b { size = left }) block_free) prev_free) offset

  -- What a split with a rest leaves: the header of the rest, and the back reference behind it.
  pub record IsSplit (m' : ℕ → Header) : Type 0 where
    pub rest : Same (m' behind) (rest_header (h.mem page behind))
    pub next :
        behind + left + 4 ≢ 4096
        → Same (m' (behind + left + 4)) (set_blockprev (h.mem page (behind + left + 4)) behind)
    pub others : (i : ℕ) → i ≢ behind → i ≢ behind + left + 4 → Same (m' i) (h.mem page i)

  same_set_blockprev :
      (a b : Header) (c : ℕ) → Same a b → Same (set_blockprev a c) (set_blockprev b c)
  unfolding set_blockprev
  same_set_blockprev a b c (p, q) = (p, ground arith)

  abbrev written : Heap
  written = modify page behind rest_header h

  size-rest_header : (b : Header) → (rest_header b).size ≡ left
  unfolding set_flag clear_flag set_blockprev
  size-rest_header b = refl

  written_self : written.mem page behind ≡ rest_header (h.mem page behind)
  written_self =
      let q : (behind == behind) ≡ true = ground arith in
      mem-modify page behind behind rest_header h ∙ rw q

  written_other : (i : ℕ) → i ≢ behind → written.mem page i ≡ h.mem page i
  written_other i n =
      let q : (i == behind) ≡ false = ground arith in mem-modify page behind i rest_header h ∙ rw q

  module _ (g : Heap) (same : (i : ℕ) → Same (g.mem page i) (written.mem page i)) where
    same-rest : Same (g.mem page behind) (rest_header (h.mem page behind))
    same-rest = subst (Same (g.mem page behind)) written_self (same behind)

    same-other : (i : ℕ) → i ≢ behind → Same (g.mem page i) (h.mem page i)
    same-other i n = subst (Same (g.mem page i)) (written_other i n) (same i)

    at_next : ℕ
    at_next = behind + (g.mem page behind).size + 4

    at_next_lem : at_next ≡ behind + left + 4
    unfolding at_next
    at_next_lem =
        ap (λ (n : ℕ). behind + n + 4) (same-rest.0 ∙ size-rest_header (h.mem page behind))

    relinked-IsSplit : IsSplit (
        (if behind + 4 + left == 4096
            then g
            else modify page
                (behind + (g.mem page behind).size + 4)
                (λ b. set_blockprev b behind)
                g).mem
          page)
    unfolding at_next
    relinked-IsSplit = elim (Bool-cases (behind + 4 + left == 4096)) [
      | inl e ↦ rw e (record {
        rest = same-rest;
        next = λ n. absurd (n (ground arith));
        others = λ i n _. same-other i n;
      })
      | inr e ↦ rw e (record {
        rest =
            let q : (behind == at_next) ≡ false = ground (arith, at_next_lem) in
            rw (mem-modify page at_next behind (λ b. set_blockprev b behind) g, q) same-rest;
        next = λ n.
            let q : (behind + left + 4 == at_next) ≡ true = ground (arith, at_next_lem) in
            rw (mem-modify page at_next (behind + left + 4) (λ b. set_blockprev b behind) g, q)
              (same_set_blockprev _ _ behind (
                subst (λ i. Same (g.mem page i) (h.mem page (behind + left + 4))) (sym at_next_lem)
                  (same-other (behind + left + 4) (omega arith))));
        others = λ i n n'.
            let q : (i == at_next) ≡ false = ground (arith, at_next_lem) in
            rw (mem-modify page at_next i (λ b. set_blockprev b behind) g, q) (same-other i n);
      })
    ]

  pub split_block-IsSplit :
      size + 4 ≤ have → IsSplit ((split_block page offset size have h).mem page)
  unfolding split_block block_next
  split_block-IsSplit more =
      let z : (sub32 have size == 0) ≡ false = ground arith in
      let l : u16 (sub32 (sub32 have size) 4) ≡ left = omega arith in
      rw (z, l)
        (elim (Bool-cases (leb 32 left)) [
          | inl big ↦ rw big (
              relinked-IsSplit (insert_block page behind behind written)
                (λ i. header-insert_block page behind behind page i written))
          | inr tiny ↦ rw tiny (relinked-IsSplit written (λ i. same_refl (written.mem page i)))
        ])
