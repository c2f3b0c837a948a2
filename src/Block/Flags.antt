-- ===== src/Block/Flags.antt =====
-- The flag and back-reference helpers of xvmalloc.c: what each one reads and leaves alone.
use compcache.Common.{ℕ, ◌%◌, ◌<◌, ◌≡◌, refl, true, false, arith}
use compcache.Block.{
  Header, BlockFlag, block_free, prev_free, test_flag, set_flag, clear_flag, get_blockprev,
  set_blockprev,
}

-- The other flag.
abbrev pub other : BlockFlag → BlockFlag
other block_free = prev_free
other prev_free = block_free

-- Setting a flag makes it read as set, leaves the other flag and the back reference as they are,
-- and changes neither the size nor the links.
pub set_flag_lem :
    (b : Header) (f : BlockFlag)
    → (test_flag (set_flag b f) f ≡ true)
      × (test_flag (set_flag b f) (other f) ≡ test_flag b (other f))
      × (get_blockprev (set_flag b f) ≡ get_blockprev b)
      × (set_flag b f ≡ record b { prev = (set_flag b f).prev })
unfolding test_flag set_flag get_blockprev
set_flag_lem b block_free = (ground arith, ground arith, omega arith, refl)
set_flag_lem b prev_free = (ground arith, ground arith, omega arith, refl)

-- Clearing a flag makes it read as clear, leaves the other flag and the back reference as they are,
-- and changes neither the size nor the links.
pub clear_flag_lem :
    (b : Header) (f : BlockFlag)
    → (test_flag (clear_flag b f) f ≡ false)
      × (test_flag (clear_flag b f) (other f) ≡ test_flag b (other f))
      × (get_blockprev (clear_flag b f) ≡ get_blockprev b)
      × (clear_flag b f ≡ record b { prev = (clear_flag b f).prev })
unfolding test_flag clear_flag get_blockprev
clear_flag_lem b block_free = (ground arith, ground arith, omega arith, refl)
clear_flag_lem b prev_free = (ground arith, ground arith, omega arith, refl)

-- A back reference that is a multiple of `XV_ALIGN` below 2 ^ 16 reads back as it was written, and
-- the write leaves both flags as they are.
pub get_blockprev-set_blockprev :
    (b : Header) (n : ℕ) (f : BlockFlag)
    → n % 4 ≡ 0
    → n < 65536
    → (get_blockprev (set_blockprev b n) ≡ n) × (test_flag (set_blockprev b n) f ≡ test_flag b f)
unfolding test_flag set_blockprev get_blockprev
get_blockprev-set_blockprev b n block_free a l = (omega arith, ground arith)
get_blockprev-set_blockprev b n prev_free a l = (omega arith, ground arith)
