-- ===== src/Write/Tests.antt =====
-- The theorems on writes at a concrete disk, page and compressor.
use compcache.Common.{
  ℕ, zero, suc, ◌≡◌, refl, sym, ap, ap₂, if◌then◌else◌, ◌==◌, Bool, true, false, some, List, [],
  ◌∷◌, length, get_elem?, replicate, arith,
}
use compcache.Table.{Zram, page_zero_filled, zero_longs, le_value}
use compcache.Xvmalloc.{
  xv_create_pool, xv_malloc, retry, grow_pool, take_block, split_block, whole_page,
}
use compcache.Pool.{
  find_block, find_in_next_chunk, remove_block_head, insert_block, mark_nonempty, mark_empty,
}
use compcache.Common.Word.{any_set, first_set}
use compcache.Block.{
  get_index, get_index_for_insert, set_flag, clear_flag, set_blockprev, block_next,
}
use compcache.Device.{no_stats, empty_slot}
use compcache.Device.Init.{empty_table-IsCounted}
use compcache.Request.{Lzo, Segment, read_found}
use compcache.Write.{
  write_slot, write_page, write_segments, release_old, write_compressed, write_malloced,
  store_object,
}
use compcache.Write.Counters.{Counted}
use compcache.Write.Outcome.{write_segments-Counted}
use compcache.Write.RoundTrip.{IsLossless, write_page-read}
use compcache.Xvmalloc.Malloc.{HasOffsets}

-- An initialised disk of two pages.
abbrev two_pages : Zram
two_pages = record {
  has_pool = true;
  heap = record {
    pool = xv_create_pool;
    mem = λ page offset. record {
      size = 0;
      prev = 0;
      prev_page = 0;
      prev_offset = 0;
      next_page = 0;
      next_offset = 0;
    };
  };
  store = λ page offset. [];
  compress_workmem = true;
  compress_buffer = true;
  table = replicate 2 empty_slot;
  init_done = true;
  disksize = 8192;
  capacity = 16;
  stats = no_stats;
}

-- All bytes are 0.
abbrev all_zero : List ℕ → Bool
all_zero [] = true
all_zero (b ∷ bytes) = let rest = all_zero bytes in if b == 0 then rest else false

-- A compressor that drops the zeros behind the first byte, and fails on other pages.
abbrev first_byte : Lzo
first_byte = record { compress = squeeze; decompress = λ bytes. (true, expand bytes) }
  where
    squeeze : List ℕ → Bool × List ℕ
    squeeze [] = (false, [])
    squeeze (b ∷ bytes) = (all_zero bytes, b ∷ [])

    expand : List ℕ → List ℕ
    expand [] = []
    expand (b ∷ bytes) = b ∷ replicate 4095 0

all_zero-replicate :
    (n : ℕ) (bytes : List ℕ) → length bytes ≡ n → all_zero bytes ≡ true → bytes ≡ replicate n 0
all_zero-replicate zero [] l e = refl
all_zero-replicate zero (b ∷ bytes) l e = absurd (omega arith)
all_zero-replicate (suc n) [] l e = absurd (omega arith)
all_zero-replicate (suc n) (b ∷ bytes) l e =
    ap₂ ◌∷◌ (ground arith) (all_zero-replicate n bytes (omega arith) (ground arith))

first_byte-IsLossless : IsLossless first_byte
first_byte-IsLossless = record { back = back }
  where
    back :
        (page : List ℕ)
        → length page ≡ 4096
        → (first_byte.compress page).0 ≡ true
        → first_byte.decompress (first_byte.compress page).1 ≡ (true, page)
    back [] l e = absurd (omega arith)
    back (b ∷ bytes) l e =
        ap (λ (r : List ℕ). (true, b ∷ r)) (sym (all_zero-replicate 4095 bytes (omega arith) e))

-- A page of a 7 and zeros, with page 9 for the pool to grow.
abbrev seven : Segment
seven = record { bytes = 7 ∷ replicate 4095 0; fresh = 9 }

two_pages-HasOffsets : HasOffsets two_pages.heap.pool
unfolding xv_create_pool
two_pages-HasOffsets i = omega arith

abbrev written : Zram
written = (write_slot first_byte 0 empty_slot seven two_pages).1

write_run : write_page first_byte two_pages 0 seven ≡ some (true, written)
unfolding write_page release_old write_slot page_zero_filled zero_longs le_value write_compressed
    write_malloced store_object xv_malloc find_block find_in_next_chunk retry grow_pool take_block
    split_block remove_block_head insert_block mark_nonempty mark_empty xv_create_pool any_set
    first_set get_index get_index_for_insert set_flag clear_flag set_blockprev block_next whole_page
write_run = refl

write_page-read_example :
    read_found first_byte written (get_elem? written.table 0) (replicate 4096 5)
    ≡ some (true, 7 ∷ replicate 4095 0)
write_page-read_example =
    write_page-read first_byte two_pages 0 empty_slot (refl, refl, refl) refl seven refl
      (replicate 4096 5) refl first_byte-IsLossless two_pages-HasOffsets write_run

write_segments_run : write_segments first_byte two_pages 0 (seven ∷ []) ≡ some (true, written)
unfolding write_segments
write_segments_run = rw write_run

write_segments-Counted_example : Counted written
write_segments-Counted_example =
    write_segments-Counted first_byte (seven ∷ []) two_pages 0 (empty_table-IsCounted 2)
      write_segments_run
