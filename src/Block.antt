-- ===== src/Block.antt =====
-- sub-projects/allocators/xvmalloc-kmod: the block header of xvmalloc_int.h, and the helpers of
-- xvmalloc.c on its flags, on its back reference and on the index of its free list.
-- The two flag bits of `prev` are read and written by their place values.
pub mod Flags
pub mod Index
mod Tests
use compcache.Common.{
  ℕ, ◌+◌, ◌-◌, ◌*◌, ◌/◌, ◌%◌, ◌^◌, Bool, ltb, ◌==◌, if◌then◌else◌, max, u16, add32, sub32,
}

abbrev pub page_size : ℕ
page_size = 4096

-- `XV_ALIGN`
abbrev pub xv_align : ℕ
xv_align = 4

-- `XV_MIN_ALLOC_SIZE`
abbrev pub min_alloc_size : ℕ
min_alloc_size = 32

-- `XV_MAX_ALLOC_SIZE`
abbrev pub max_alloc_size : ℕ
max_alloc_size = 4092

-- `FL_DELTA`
abbrev pub fl_delta : ℕ
fl_delta = 8

-- `NUM_FREE_LISTS`
abbrev pub num_free_lists : ℕ
num_free_lists = 508

-- `struct block_header` with its `struct link_free`. A page is a number, and 0 is NULL.
pub record Header : Type 0 where
  pub size : ℕ
  pub prev : ℕ
  pub prev_page : ℕ
  pub prev_offset : ℕ
  pub next_page : ℕ
  pub next_offset : ℕ

-- `enum blockflags`
pub data BlockFlag : Type 0 where
  block_free : BlockFlag
  prev_free : BlockFlag

unfoldable pub test_flag : Header → BlockFlag → Bool
test_flag b block_free = b.prev % 2 == 1
test_flag b prev_free = b.prev / 2 % 2 == 1

unfoldable pub set_flag : Header → BlockFlag → Header
set_flag b block_free = record b { prev = b.prev / 2 * 2 + 1 }
set_flag b prev_free = record b { prev = b.prev / 4 * 4 + 2 + b.prev % 2 }

unfoldable pub clear_flag : Header → BlockFlag → Header
clear_flag b block_free = record b { prev = b.prev / 2 * 2 }
clear_flag b prev_free = record b { prev = b.prev / 4 * 4 + b.prev % 2 }

-- `prev & PREV_MASK`
unfoldable pub get_blockprev : Header → ℕ
get_blockprev b = b.prev / 4 * 4

-- `new_offset | (prev & FLAGS_MASK)`: the two low bits are joined, the others are those of
-- `new_offset`, which the call narrows to `u16`.
unfoldable pub set_blockprev : Header → ℕ → Header
set_blockprev b new =
    let n = u16 new in
    record b { prev = n / 4 * 4 + 2 * max (n / 2 % 2) (b.prev / 2 % 2) + max (n % 2) (b.prev % 2) }

-- The kernel's `ALIGN(x, a)` on `u32`, for the alignments 4 and 8 that the code uses.
abbrev pub align : ℕ → ℕ → ℕ
align x a = add32 x (a - 1) / a * a

-- The offset that `BLOCK_NEXT` reaches from the block at `offset`.
unfoldable pub block_next : Header → ℕ → ℕ
block_next b offset = offset + b.size + xv_align

unfoldable pub get_index_for_insert : ℕ → ℕ
get_index_for_insert size =
    let clamped = if ltb max_alloc_size size then max_alloc_size else size in
    sub32 (clamped / fl_delta * fl_delta) min_alloc_size / fl_delta

unfoldable pub get_index : ℕ → ℕ
get_index size =
    let clamped = if ltb size min_alloc_size then min_alloc_size else size in
    sub32 (align clamped fl_delta) min_alloc_size / fl_delta
