-- ===== src/Common/Word.antt =====
-- An `unsigned long` bitmap as its bits: `w i` is bit `i`, of which the code uses those below 64.
-- The operations are the kernel's bit operations of <linux/bitops.h>.
use Prim.Native.Nat.{ℕ, zero, suc, ◌+◌, ◌-◌, ◌≤◌, ◌<◌}
use mathlib.Core.Path.{◌≡◌, ap}
use mathlib.Core.Bool.{Bool, true, false, not}
use native.Mathlib.Omega.{arith}
use compcache.Common.Tests.{if◌then◌else◌, update, Bool-cases}
use mathlib.Core.Logic.{inl, inr}

abbrev pub Word : Type 0
Word = ℕ → Bool

-- `BITS_PER_LONG`
abbrev pub bits_per_long : ℕ
bits_per_long = 64

-- A word `w >> k`.
abbrev pub shr : Word → ℕ → Word
shr w k i = w (i + k)

abbrev pub set_bit : ℕ → Word → Word
set_bit i w = update w i true

abbrev pub clear_bit : ℕ → Word → Word
clear_bit i w = update w i false

-- The first of `n` positions from `i` on whose bit is set, and `i + n` if there is none.
unfoldable pub first_set : ℕ → ℕ → Word → ℕ
first_set zero i w = i
first_set (suc n) i w = let rest = first_set n (suc i) w in if w i then i else rest

-- `__ffs`, which is not defined on 0: here it is 64 there.
abbrev pub ffs : Word → ℕ
ffs w = first_set bits_per_long 0 w

unfoldable pub any_set : ℕ → ℕ → Word → Bool
any_set zero i w = false
any_set (suc n) i w = let rest = any_set n (suc i) w in if w i then true else rest

abbrev pub is_zero : Word → Bool
is_zero w = not (any_set bits_per_long 0 w)

-- The bit at an index that is `i`.
bit_at_eq : (i j : ℕ) (w : Word) → i ≡ j → w i ≡ w j
bit_at_eq i j w e = ap w e

-- `first_set` stops at a set bit, below which no bit from `i` on is set.
pub first_set_hit :
    (n i : ℕ) (w : Word)
    → any_set n i w ≡ true
    → (w (first_set n i w) ≡ true) × (i ≤ first_set n i w) × (first_set n i w < i + n)
unfolding first_set any_set
first_set_hit zero i w h = cc
first_set_hit (suc n) i w h = elim (Bool-cases (w i)) [
  | inl e ↦ rw e (e, omega arith, omega arith)
  | inr e ↦
      let (a, b, c) = first_set_hit n (suc i) w (rw e at h) in rw e (a, omega arith, omega arith)
]

-- Below the first set bit, no bit from `i` on is set.
pub first_set_least : (n i j : ℕ) (w : Word) → i ≤ j → j < first_set n i w → w j ≡ false
unfolding first_set
first_set_least zero i j w l h = absurd (omega arith)
first_set_least (suc n) i j w l h = ground (arith, first_set_least n (suc i) j w, bit_at_eq i j w)

pub any_set_none : (n i j : ℕ) (w : Word) → any_set n i w ≡ false → i ≤ j → j < i + n → w j ≡ false
unfolding any_set
any_set_none zero i j w e l h = absurd (omega arith)
any_set_none (suc n) i j w e l h = ground (arith, any_set_none n (suc i) j w, bit_at_eq i j w)

pub any_set_some : (n i j : ℕ) (w : Word) → i ≤ j → j < i + n → w j ≡ true → any_set n i w ≡ true
any_set_some n i j w l h e = elim (Bool-cases (any_set n i w)) [
  | inl p ↦ p
  | inr p ↦ let q = any_set_none n i j w p l h in cc
]

-- A shifted word without set bits: none of the 64 bits from `k` on is set.
pub shr_none :
    (k j : ℕ) (w : Word) → any_set 64 0 (shr w k) ≡ false → k ≤ j → j < k + 64 → w j ≡ false
shr_none k j w e l h =
    let q = any_set_none 64 0 (j - k) (shr w k) e (omega arith) (omega arith) in
    let r : j - k + k ≡ j = omega arith in rw r at q

-- The first set bit of a shifted word, as a bit of the word.
pub shr_hit :
    (k i : ℕ) (w : Word)
    → any_set 64 0 (shr w k) ≡ true
    → i ≡ k + ffs (shr w k)
    → (w i ≡ true) × (k ≤ i) × (i < k + 64)
shr_hit k i w e d =
    let (a, b, c) = first_set_hit 64 0 (shr w k) e in
    let r : ffs (shr w k) + k ≡ i = omega arith in (rw r at a, omega arith, omega arith)

-- The bits between `k` and that bit are clear.
pub shr_least : (k i j : ℕ) (w : Word) → i ≡ k + ffs (shr w k) → k ≤ j → j < i → w j ≡ false
shr_least k i j w d l h =
    let q = first_set_least 64 0 (j - k) (shr w k) (omega arith) (omega arith) in
    let r : j - k + k ≡ j = omega arith in rw r at q
