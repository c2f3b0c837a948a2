-- ===== src/Xvmalloc/Layout/Headers.antt =====
-- The writes to block headers in xvmalloc.c, as changes of the block that a header stands for.
use compcache.Common.{
  ℕ, ◌%◌, ◌<◌, ◌≡◌, refl, ◌∙◌, true, false, Option, none, some, arith, ◌==◌, subst, if◌then◌else◌,
}
use compcache.Block.{
  Header, block_free, prev_free, test_flag, set_flag, clear_flag, get_blockprev, set_blockprev,
}
use compcache.Pool.{Heap, modify, remove_block}
use compcache.Pool.Lists.{header-remove_block_head}
use compcache.Xvmalloc.Layout.{Span, IsBlock, IsBack, Same}

pub same_refl : (h : Header) → Same h h
same_refl h = (refl, refl)

pub same_trans : (a b c : Header) → Same a b → Same b c → Same a c
same_trans a b c (p, q) (p', q') = (p ∙ p', q ∙ q')

-- The block behind one that is no longer free.
pub cleared-IsBlock :
    {h : Header} {b : ℕ} {s : Span} → IsBlock h (some b) s → IsBlock (clear_flag h prev_free) none s
unfolding test_flag clear_flag get_blockprev
cleared-IsBlock {h} {b} {s} v = record {
  size = v.size;
  free = ground (arith, v.free);
  back = ground arith;
  whole = λ e. absurd (let q = (v.whole e).1 in cc);
}

-- The block behind one whose offset has changed.
pub relinked-IsBlock :
    {h : Header} {b : ℕ} {s : Span} (c : ℕ)
    → c % 4 ≡ 0
    → c < 65536
    → IsBlock h (some b) s
    → IsBlock (set_blockprev h c) (some c) s
unfolding test_flag set_blockprev get_blockprev
relinked-IsBlock {h} {b} {s} c a l v = record {
  size = v.size;
  free = ground (arith, v.free);
  back = (ground (arith, v.back.0), omega arith);
  whole = λ e. absurd (let q = (v.whole e).1 in cc);
}

-- The block behind one that is now free.
pub linked-IsBlock :
    {h : Header} {before : Option ℕ} {s : Span} (c : ℕ)
    → c % 4 ≡ 0
    → c < 65536
    → s.free ≡ false
    → IsBlock h before s
    → IsBlock (set_blockprev (set_flag h prev_free) c) (some c) s
unfolding test_flag set_flag set_blockprev get_blockprev
linked-IsBlock {h} {before} {s} c a l used v = record {
  size = v.size;
  free = ground (arith, v.free);
  back = (ground arith, omega arith);
  whole = λ e. absurd (cc);
}

-- The header of what is left behind an allocation.
pub rest-IsBlock :
    (h : Header) (r c : ℕ)
    → r % 4 ≡ 0
    → c % 4 ≡ 0
    → c < 65536
    → IsBlock
        (set_blockprev (clear_flag (set_flag (record h { size = r }) block_free) prev_free) c)
        none
        (record { size = r; free = true })
unfolding test_flag set_flag clear_flag set_blockprev get_blockprev
rest-IsBlock h r c a b l = record {
  size = refl;
  free = ground arith;
  back = ground arith;
  whole = λ e. (a, refl);
}

-- A header with a new size that is marked as not free.
pub used-IsBlock :
    {h : Header} {before : Option ℕ} {s : Span} (n : ℕ)
    → IsBlock h before s
    → before ≡ none
    → IsBlock
        (clear_flag (record h { size = n }) block_free)
        none
        (record { size = n; free = false })
unfolding test_flag clear_flag get_blockprev
used-IsBlock {h} {before} {s} n v e = record {
  size = refl;
  free = ground arith;
  back = let q : IsBack h none = subst (IsBack h) e v.back in ground arith;
  whole = λ f. absurd (cc);
}

-- A header that is marked as free.
pub freed-IsBlock :
    (h : Header) (n : ℕ)
    → h.size ≡ n
    → IsBack h none
    → n % 4 ≡ 0
    → IsBlock (set_flag h block_free) none (record { size = n; free = true })
unfolding test_flag set_flag get_blockprev
freed-IsBlock h n e b z = record {
  size = e;
  free = ground arith;
  back = ground arith;
  whole = λ f. (z, refl);
}

-- The functions on free lists change only links.
pub same-remove_block :
    (page offset at slindex q o : ℕ) (h : Heap)
    → Same ((remove_block page offset at slindex h).mem q o) (h.mem q o)
unfolding remove_block
same-remove_block page offset at slindex q o h =
    ground (arith, header-remove_block_head page at slindex q o h)

pub mem-modify :
    (page o i : ℕ) (f : Header → Header) (h : Heap)
    → (modify page o f h).mem page i ≡ (if i == o then f (h.mem page o) else h.mem page i)
mem-modify page o i f h = let p : (page == page) ≡ true = ground arith in rw p
