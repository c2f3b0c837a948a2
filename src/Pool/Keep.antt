-- ===== src/Pool/Keep.antt =====
-- The functions on free lists keep the two-level bitmap in step with the lists.
use compcache.Common.{
  ℕ, ◌/◌, ◌%◌, ◌≤◌, ◌<◌, ◌≡◌, ◌≢◌, sym, inl, inr, Bool, true, ◌&&◌, ◌==◌, update, arith, Bool-cases,
}
use compcache.Common.Word.{
  Word, set_bit, clear_bit, any_set, any_set_some, first_set, first_set_hit,
}
use compcache.Block.{get_index_for_insert, min_alloc_size}
use compcache.Block.Index.{get_index_for_insert-lt}
use compcache.Pool.{
  Entry, Pool, Heap, mark_nonempty, mark_empty, insert_block, remove_block_head, remove_block,
}
use compcache.Pool.Lists.{pool-modify_entry}
use compcache.Pool.Bitmap.{nonempty, IsIndexed}

module _ {p : Pool} (v : IsIndexed p) (i : ℕ) (range : i < 508) (e : Entry) where
  -- The pool with the head of list `i` replaced.
  abbrev headed : Pool
  headed = record p { freelist = update p.freelist i e }

  mark_nonempty-IsIndexed : e.page ≢ 0 → IsIndexed (mark_nonempty i headed)
  unfolding mark_nonempty
  mark_nonempty-IsIndexed ne = record {
    listed = λ w b hw hb. ground (arith, v.listed w b hw hb);
    word_end = λ w b hw hb. ground (arith, v.word_end w b hw hb);
    summary = λ w hw. elim (Bool-cases (w == i / 64)) [
      | inl s ↦ rw s (
          sym (
            any_set_some 64 0 (i % 64) (set_bit (i % 64) (p.slbitmap (i / 64))) (omega arith)
              (omega arith) (ground arith)))
      | inr o ↦ rw (o, v.summary w hw)
    ];
    summary_end = λ w hw. ground (arith, v.summary_end w hw);
  }

  -- The word of list `i` with the list's bit cleared.
  abbrev word : Word
  word = clear_bit (i % 64) (p.slbitmap (i / 64))

  still_set : (w : ℕ) → w < 8 → w ≡ i / 64 → any_set 64 0 word ≡ true → p.flbitmap w ≡ true
  still_set w hw s left =
      let (bit, _, below) = first_set_hit 64 0 word left in
      rw (v.summary w hw, s)
        (any_set_some 64 0 (first_set 64 0 word) (p.slbitmap (i / 64)) (omega arith) (omega arith)
          (ground arith))

  mark_empty-IsIndexed : e.page ≡ 0 → IsIndexed (mark_empty i headed)
  unfolding mark_empty
  mark_empty-IsIndexed z = record {
    listed = λ w b hw hb. ground (arith, v.listed w b hw hb);
    word_end = λ w b hw hb. ground (arith, v.word_end w b hw hb);
    summary = λ w hw. elim (Bool-cases (w == i / 64)) [
      | inl s ↦ elim (Bool-cases (any_set 64 0 word)) [
        | inl left ↦ rw (s, left) (still_set w hw (ground arith) left)
        | inr gone ↦ rw (s, gone) (ground arith)
      ]
      | inr o ↦ elim (Bool-cases (any_set 64 0 word)) [
        | inl left ↦ rw (o, left) (v.summary w hw)
        | inr gone ↦ rw (o, gone, o) (v.summary w hw)
      ]
    ];
    summary_end = λ w hw. ground (arith, v.summary_end w hw);
  }

  headed-IsIndexed : nonempty p i ≡ true → e.page ≢ 0 → IsIndexed headed
  headed-IsIndexed full ne = record {
    listed = λ w b hw hb. ground (arith, v.listed w b hw hb);
    word_end = v.word_end;
    summary = v.summary;
    summary_end = v.summary_end;
  }

-- `insert_block` of a block of at least `XV_MIN_ALLOC_SIZE` bytes, in a page that is not NULL,
-- keeps the bitmaps in step with the lists.
pub insert_block-IsIndexed :
    (page offset at : ℕ) (h : Heap)
    → IsIndexed h.pool
    → page ≢ 0
    → min_alloc_size ≤ (h.mem page at).size
    → IsIndexed (insert_block page offset at h).pool
unfolding insert_block
insert_block-IsIndexed page offset at h v ne lo = rw (pool-modify_entry) (
    mark_nonempty-IsIndexed v (get_index_for_insert (h.mem page at).size)
      (get_index_for_insert-lt _ lo) _ ne)

-- `remove_block_head` of the first block of a list that has one keeps the bitmaps in step with the
-- lists.
pub remove_block_head-IsIndexed :
    (page at slindex : ℕ) (h : Heap)
    → IsIndexed h.pool
    → slindex < 508
    → nonempty h.pool slindex ≡ true
    → IsIndexed (remove_block_head page at slindex h).pool
unfolding remove_block_head
remove_block_head-IsIndexed page at slindex h v range full =
    elim (Bool-cases ((h.mem page at).next_page == 0)) [
      | inl z ↦ rw z (mark_empty-IsIndexed v slindex range _ (ground arith))
      | inr n ↦ rw n (headed-IsIndexed v slindex range _ full (ground arith))
    ]

-- `remove_block` of a block of a list that has one keeps the bitmaps in step with the lists, whether
-- the block is the first of the list or not.
pub remove_block-IsIndexed :
    (page offset at slindex : ℕ) (h : Heap)
    → IsIndexed h.pool
    → slindex < 508
    → nonempty h.pool slindex ≡ true
    → IsIndexed (remove_block page offset at slindex h).pool
unfolding remove_block
remove_block-IsIndexed page offset at slindex h v range full = elim (Bool-cases at_head) [
  | inl yes_head ↦ rw yes_head (remove_block_head-IsIndexed page at slindex h v range full)
  | inr inner ↦ rw (inner, pool-modify_entry) (rw pool-modify_entry v)
]
  where
    at_head : Bool
    at_head =
        ((h.pool.freelist slindex).page == page) && ((h.pool.freelist slindex).offset == offset)
