-- ===== src/Pool/Tests.antt =====
-- Runs of the functions on free lists, and the theorems at concrete pools.
use compcache.Common.{ℕ, ◌≡◌, false, refl, true, arith}
use compcache.Block.{Header, get_index, get_index_for_insert}
use compcache.Common.Word.{any_set, first_set}
use compcache.Pool.{Pool, Heap, null_entry, mark_nonempty, insert_block, find_block}
use compcache.Pool.Bitmap.{nonempty, IsIndexed}
use compcache.Pool.Find.{Searched, find_block-Searched}
use compcache.Pool.Keep.{insert_block-IsIndexed}

abbrev no_blocks : Pool
no_blocks = record {
  flbitmap = λ i. false;
  slbitmap = λ w i. false;
  freelist = λ i. null_entry;
  total_pages = 0;
}

abbrev header : ℕ → Header
header size = record {
  size = size;
  prev = 1;
  prev_page = 0;
  prev_offset = 0;
  next_page = 0;
  next_offset = 0;
}

-- A pool without a block, where every header has 100 bytes.
abbrev fresh_heap : Heap
fresh_heap = record { pool = no_blocks; mem = λ page offset. header 100 }

no_blocks-IsIndexed : IsIndexed no_blocks
unfolding any_set
no_blocks-IsIndexed = record {
  listed = λ w b hw hb. ground arith;
  word_end = λ w b hw hb. refl;
  summary = λ w hw. refl;
  summary_end = λ w hw. refl;
}

-- A pool with the one block <7, 40> of 100 bytes, in list 8.
abbrev one_block : Heap
one_block = insert_block 7 40 40 fresh_heap

one_block-IsIndexed : IsIndexed one_block.pool
one_block-IsIndexed =
    insert_block-IsIndexed 7 40 40 fresh_heap no_blocks-IsIndexed (ground arith) (omega arith)

find_block-Searched_example :
    Searched one_block.pool (get_index 50) 0 0 (find_block one_block.pool 50 0 0)
find_block-Searched_example = find_block-Searched 50 0 0 one_block-IsIndexed (omega arith)

-- The search for 50 bytes finds the block in list 8, two lists behind the one it starts at.
found_run : find_block one_block.pool 50 0 0 ≡ record { index = 8; page = 7; offset = 40 }
unfolding find_block insert_block mark_nonempty any_set get_index_for_insert get_index first_set
found_run = refl

full : nonempty one_block.pool 8 ≡ true
unfolding insert_block mark_nonempty get_index_for_insert
full = refl
