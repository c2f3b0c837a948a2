-- ===== src/Pool/Bitmap.antt =====
-- The invariant of the two-level bitmap of `struct xv_pool`.
use compcache.Common.{
  ℕ, ◌+◌, ◌*◌, ◌/◌, ◌%◌, ◌≤◌, ◌<◌, ◌≡◌, ap, Bool, false, not, ◌&&◌, ltb, ◌==◌, arith,
}
use compcache.Common.Word.{any_set, any_set_none}
use compcache.Block.{num_free_lists}
use compcache.Pool.{Pool}

-- `i` is the index of a free list, and that list has a block.
abbrev pub nonempty : Pool → ℕ → Bool
nonempty p i = ltb i num_free_lists && not ((p.freelist i).page == 0)

-- A bit of the second level is set exactly for a list that has a block, and a bit of the first
-- level exactly for a word of the second level that has a bit set. `MAX_FLI` is 8.
pub record IsIndexed (p : Pool) : Type 0 where
  pub listed : (w b : ℕ) → w < 8 → b < 64 → p.slbitmap w b ≡ nonempty p (w * 64 + b)
  pub word_end : (w b : ℕ) → w < 8 → 64 ≤ b → p.slbitmap w b ≡ false
  pub summary : (w : ℕ) → w < 8 → p.flbitmap w ≡ any_set 64 0 (p.slbitmap w)
  pub summary_end : (w : ℕ) → 8 ≤ w → p.flbitmap w ≡ false

module _ {p : Pool} (v : IsIndexed p) where
  pub bit-nonempty : (j : ℕ) → j < 512 → p.slbitmap (j / 64) (j % 64) ≡ nonempty p j
  bit-nonempty j h =
      rw (v.listed (j / 64) (j % 64) (omega arith) (omega arith)) (ap (nonempty p) (omega arith))

  pub empty_chunk : (j : ℕ) → p.flbitmap (j / 64) ≡ false → nonempty p j ≡ false
  empty_chunk j e = ground (arith, inside)
    where
      inside : j < 512 → nonempty p j ≡ false
      inside h = rw (← bit-nonempty j h) (
          any_set_none 64 0 (j % 64) (p.slbitmap (j / 64))
            (rw (← v.summary (j / 64) (omega arith)) e) (omega arith) (omega arith))

  pub none_beyond : (j : ℕ) → 508 ≤ j → nonempty p j ≡ false
  none_beyond j h = ground arith
