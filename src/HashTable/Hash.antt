-- ===== src/HashTable/Hash.antt =====
-- `hash_64` and `hash_128` of hashtable.c.
use compcache.Common.{inl, inr, false, if◌then◌else◌, Bool-cases}
use native.Mathlib.Nat.{div-lt_iff_lt-mul}
use compcache.Common.{
  ℕ, zero, suc, ◌+◌, ◌-◌, ◌*◌, ◌/◌, ◌%◌, ◌^◌, ◌≤◌, ◌<◌, ◌≡◌, ◌∙◌, refl, ap, Bool, true, ◌&&◌, ◌==◌,
  leb, arith,
}
use compcache.HashTable.{hash_sum, hash_64, hash_128}

-- For a 64-bit value and 1 to 64 bits, the shifts and sums of `hash_64` are a multiplication by the
-- golden-ratio prime 0x9e37fffffffc0001 modulo 2 ^ 64, of which the highest bits are taken.
pub hash_64_lem :
    (val bits : ℕ)
    → val < 2 ^ 64
    → 0 < bits
    → bits ≤ 64
    → hash_64 val bits ≡ val * 0x9e37fffffffc0001 % 2 ^ 64 / 2 ^ (64 - bits)
unfolding hash_64 hash_sum
hash_64_lem val bits h lo hi = ap (λ (s : ℕ). s / 2 ^ (64 - bits)) (omega arith)

-- A test passes on each of the orders from `top` down.
passes : (ℕ → Bool) → ℕ → Bool
passes test zero = test zero
passes test (suc top) = let lower = passes test top in if test (suc top) then lower else false

test_at_eq : (test : ℕ → Bool) {i j : ℕ} → i ≡ j → test i ≡ test j
test_at_eq test e = ap test e

test_of_passes :
    (test : ℕ → Bool) (top order : ℕ) → order ≤ top → passes test top ≡ true → test order ≡ true
unfolding passes
test_of_passes test zero order le h = test_at_eq test (omega arith) ∙ h
test_of_passes test (suc top) order le h = elim (Bool-cases (order == suc top)) [
  | inl e ↦ ground (arith, test_at_eq test {i = order} {j = suc top})
  | inr n ↦ test_of_passes test top order (ground arith) (ground arith)
]

-- The powers of two of a table of `order` at most 32.
powers_table :
    passes
      (λ order.
        let k = order / 2 in
        (2 ^ (64 - k) * 2 ^ k == 2 ^ 64)
        && (leb (2 ^ k * 2 ^ k) (2 ^ order) && leb (2 ^ order) (2 ^ 32)))
      32
    ≡ true
unfolding passes
powers_table = refl

div-lt_of_mul : (x p q : ℕ) → x < p * q → x / p < q
div-lt_of_mul x zero q h = absurd (omega arith)
div-lt_of_mul x (suc p) q h =
    (div-lt_iff_lt-mul {k = suc p} {x = x} {y = q} (omega arith)).1 (omega arith)

index_in_range : (a b k : ℕ) → a < k → b < k → a * k + b < k * k
index_in_range a b k p q = grind arith

joined : (a b k s : ℕ) → a < k → b < k → k * k ≤ s → s ≤ 2 ^ 32 → (a * k % 2 ^ 64 + b) % 2 ^ 64 < s
joined a b k s p q l m = omega (arith, index_in_range a b k p q)

hash_sum-lt : (val : ℕ) → hash_sum val < 2 ^ 64
unfolding hash_sum
hash_sum-lt val = omega arith

-- For a table of order 2 to 30 the hash of a key is the index of a list head.
pub hash_128-lt : (lo hi order : ℕ) → 2 ≤ order → order ≤ 30 → hash_128 lo hi order < 2 ^ order
unfolding hash_128 hash_64
hash_128-lt lo hi order large small =
    let row = test_of_passes _ 32 order (omega arith) powers_table in
    let k = order / 2 in
    let word : 2 ^ (64 - k) * 2 ^ k ≡ 2 ^ 64 = ground (arith, row) in
    let square : 2 ^ k * 2 ^ k ≤ 2 ^ order = ground (arith, row) in
    let top : 2 ^ order ≤ 2 ^ 32 = ground (arith, row) in
    let half =
      λ (x : ℕ). div-lt_of_mul (hash_sum x) (2 ^ (64 - k)) (2 ^ k) (rw word (hash_sum-lt x)) in
    joined (hash_sum lo / 2 ^ (64 - k)) (hash_sum hi / 2 ^ (64 - k)) (2 ^ k) (2 ^ order) (half lo)
      (half hi) square top
