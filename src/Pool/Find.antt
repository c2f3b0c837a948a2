-- ===== src/Pool/Find.antt =====
-- `find_block` against a plain search through the free lists.
use compcache.Common.{
  ℕ, ◌+◌, ◌*◌, ◌/◌, ◌%◌, ◌≤◌, ◌<◌, ◌≡◌, refl, ◌⊎◌, inl, inr, true, false, ◌==◌, ltb, arith,
  Bool-cases,
}
use compcache.Common.Word.{
  Word, shr, ffs, any_set, first_set_hit, first_set_least, any_set_none, shr_none, shr_hit,
  shr_least,
}
use compcache.Block.{get_index, max_alloc_size}
use compcache.Block.Index.{get_index_bounds}
use compcache.Pool.{Pool, Found, list_head, find_in_next_chunk, find_block}
use compcache.Pool.Bitmap.{nonempty, IsIndexed, bit-nonempty, empty_chunk, none_beyond}

-- The result of a search from list `k` on: the first list that has a block, or nothing, and then
-- the index 0 and the out-parameters as they were.
pub data Searched (p : Pool) (k page offset : ℕ) (r : Found) : Type 0 where
  hit :
      (i : ℕ)
      → k ≤ i
      → nonempty p i ≡ true
      → ((j : ℕ) → k ≤ j → j < i → nonempty p j ≡ false)
      → r ≡ list_head p i
      → Searched p k page offset r
  miss :
      ((j : ℕ) → k ≤ j → nonempty p j ≡ false)
      → r ≡ record { index = 0; page = page; offset = offset }
      → Searched p k page offset r

module _ {p : Pool} (v : IsIndexed p) (k page offset : ℕ) (range : k < 512) where
  -- The bits above the searched one are clear in its word.
  abbrev ChunkDone : Type 0
  ChunkDone = (j : ℕ) → k ≤ j → j / 64 ≡ k / 64 → nonempty p j ≡ false

  -- A set bit `c` of the first level, with none between the searched chunk and it.
  chunk_hit :
      (c : ℕ)
      → k / 64 < c
      → p.flbitmap c ≡ true
      → ((w : ℕ) → k / 64 < w → w < c → p.flbitmap w ≡ false)
      → ChunkDone
      → Searched p k page offset (list_head p (c * 64 + ffs (p.slbitmap c)))
  chunk_hit c above bit clear done =
      hit (c * 64 + u) (omega arith) (rw (← v.listed c u c_in u_in) found.0) least refl
    where
      c_in : c < 8
      c_in = ground (arith, v.summary_end c)

      u : ℕ
      u = ffs (p.slbitmap c)

      found : (p.slbitmap c u ≡ true) × (0 ≤ u) × (u < 64)
      found = first_set_hit 64 0 (p.slbitmap c) (rw (← v.summary c c_in) bit)

      u_in : u < 64
      u_in = found.2

      least : (j : ℕ) → k ≤ j → j < c * 64 + u → nonempty p j ≡ false
      least j l h = elim (Bool-cases (j / 64 == k / 64)) [
        | inl e ↦ done j l (ground arith)
        | inr e ↦ elim (Bool-cases (j / 64 == c)) [
          | inl e' ↦
              let q : j / 64 ≡ c = ground arith in
              rw (← bit-nonempty v j (omega (arith, c_in)), q)
                (first_set_least 64 0 (j % 64) (p.slbitmap c) (omega arith) (omega arith))
          | inr e' ↦ empty_chunk v j (clear (j / 64) (ground arith) (ground (arith, u_in)))
        ]
      ]

  next_chunk-Searched : ChunkDone → Searched p k page offset (find_in_next_chunk p k page offset)
  unfolding find_in_next_chunk
  next_chunk-Searched done = elim (Bool-cases (any_set 64 0 (shr p.flbitmap (k / 64 + 1)))) [
    | inl e ↦
        let c = k / 64 + (ffs (shr p.flbitmap (k / 64 + 1)) + 1) in
        let (bit, above, _) = shr_hit (k / 64 + 1) c p.flbitmap e (omega arith) in
        rw e (
          chunk_hit c (omega arith) bit
            (λ w l h. shr_least (k / 64 + 1) c w p.flbitmap (omega arith) (omega arith) h) done)
    | inr e ↦ rw e (miss (λ j l. none_from j l e) refl)
  ]
    where
      none_from :
          (j : ℕ)
          → k ≤ j
          → any_set 64 0 (shr p.flbitmap (k / 64 + 1)) ≡ false
          → nonempty p j ≡ false
      none_from j l e = elim (Bool-cases (j / 64 == k / 64)) [
        | inl e' ↦ done j l (ground arith)
        | inr e' ↦ elim (Bool-cases (ltb j 512)) [
          | inl e'' ↦
              empty_chunk v j
                (shr_none (k / 64 + 1) (j / 64) p.flbitmap e (ground arith) (ground arith))
          | inr e'' ↦ none_beyond v j (ground arith)
        ]
      ]

  -- The rest of the searched word has a set bit.
  same_chunk_hit :
      let rest = shr (p.slbitmap (k / 64)) (k % 64 + 1) in
      p.slbitmap (k / 64) (k % 64) ≡ false
      → any_set 64 0 rest ≡ true
      → Searched p k page offset (list_head p (k + (ffs rest + 1)))
  same_chunk_hit clear e = hit i (omega arith) found least refl
    where
      word : Word
      word = p.slbitmap (k / 64)

      i : ℕ
      i = k + (ffs (shr word (k % 64 + 1)) + 1)

      b : ℕ
      b = k % 64 + 1 + ffs (shr word (k % 64 + 1))

      bit : (word b ≡ true) × (k % 64 + 1 ≤ b) × (b < k % 64 + 1 + 64)
      bit = shr_hit (k % 64 + 1) b word e refl

      b_in : b < 64
      b_in = ground (arith, bit.0, v.word_end (k / 64) b (omega arith))

      found : nonempty p i ≡ true
      found =
          let q : i ≡ k / 64 * 64 + b = omega arith in
          rw (q, ← v.listed (k / 64) b (omega arith) b_in) bit.0

      least : (j : ℕ) → k ≤ j → j < i → nonempty p j ≡ false
      least j l h =
          let q : j / 64 ≡ k / 64 = omega (arith, b_in) in
          rw (← bit-nonempty v j (omega (arith, b_in)), q)
            (elim (Bool-cases (j == k)) [
              | inl e' ↦ let r : j % 64 ≡ k % 64 = ground arith in rw r clear
              | inr e' ↦ shr_least (k % 64 + 1) b (j % 64) word refl (ground arith) (omega arith)
            ])

  chunk_done :
      p.slbitmap (k / 64) (k % 64) ≡ false
      → (k % 64 + 1 == 64) ≡ true ⊎ any_set 64 0 (shr (p.slbitmap (k / 64)) (k % 64 + 1)) ≡ false
      → ChunkDone
  chunk_done clear above j l q =
      rw (← bit-nonempty v j (omega arith), q)
        (elim (Bool-cases (j == k)) [
          | inl e ↦ let r : j % 64 ≡ k % 64 = ground arith in rw r clear
          | inr e ↦ elim above [
            | inl full ↦ absurd (ground arith)
            | inr none_above ↦
                shr_none (k % 64 + 1) (j % 64) (p.slbitmap (k / 64)) none_above (ground arith)
                  (omega arith)
          ]
        ])

  -- A pool without a bit in the first level has no block.
  no_block : any_set 64 0 p.flbitmap ≡ false → (j : ℕ) → nonempty p j ≡ false
  no_block e j = elim (Bool-cases (ltb j 512)) [
    | inl h ↦ empty_chunk v j (any_set_none 64 0 (j / 64) p.flbitmap e (omega arith) (ground arith))
    | inr h ↦ none_beyond v j (ground arith)
  ]

-- Where the bitmaps agree with the free lists, `find_block` finds, for a size up to the largest
-- allocation, the first free list with a block from the index of the size on, and returns that index
-- with the place of the list's first block. Where no such list has a block it returns 0 and leaves
-- the out-parameters alone.
pub find_block-Searched :
    {p : Pool} (size page offset : ℕ)
    → IsIndexed p
    → size ≤ max_alloc_size
    → Searched p (get_index size) page offset (find_block p size page offset)
unfolding find_block
find_block-Searched {p} size page offset v small = elim (Bool-cases (any_set 64 0 p.flbitmap)) [
  | inr e ↦ rw e (miss (λ j l. no_block v k page offset range e j) refl)
  | inl e ↦ rw e (elim (Bool-cases (p.slbitmap (k / 64) (k % 64))) [
    | inl bit ↦ rw bit (
        hit k (omega arith) (rw (← bit-nonempty v k range) bit) (λ j l h. absurd (omega arith))
          refl)
    | inr clear ↦ rw clear (elim (Bool-cases (k % 64 + 1 == 64)) [
      | inl last ↦ rw last (
          next_chunk-Searched v k page offset range
            (chunk_done v k page offset range clear (inl last)))
      | inr more ↦
          rw more (elim (Bool-cases (any_set 64 0 (shr (p.slbitmap (k / 64)) (k % 64 + 1)))) [
            | inl some_above ↦ rw some_above (same_chunk_hit v k page offset range clear some_above)
            | inr none_above ↦ rw none_above (
                next_chunk-Searched v k page offset range
                  (chunk_done v k page offset range clear (inr none_above)))
          ])
    ])
  ])
]
  where
    k : ℕ
    k = get_index size

    range : k < 512
    range = omega (arith, get_index_bounds size small)
