-- ===== src/Zsmalloc/Order.antt =====
-- `get_zspage_order` of zsmalloc.c: the number of pages of a zspage.
use compcache.Common.{
  ℕ, zero, suc, ◌+◌, ◌*◌, ◌%◌, ◌≤◌, ◌<◌, ◌≡◌, ◌⊎◌, inl, inr, refl, ltb, ◌==◌, subst, arith,
  Bool-cases,
}
use compcache.Zsmalloc.{page_size, max_zspage_order}
use compcache.Zsmalloc.Classes.{usedpc, order_from, get_zspage_order}

-- What rounds `i` to `i + n - 1` leave of an order that was the best one before them.
IsBestOf : (n i max_usedpc order class_size r : ℕ) → Type 0
IsBestOf n i u o c r =
    ((r ≡ o) × ((j : ℕ) → i ≤ j → j < i + n → usedpc j c ≤ u))
    ⊎ ((i ≤ r)
        × (r < i + n)
        × (u < usedpc r c)
        × ((j : ℕ) → i ≤ j → j < i + n → usedpc j c ≤ usedpc r c)
        × ((j : ℕ) → i ≤ j → j < r → usedpc j c < usedpc r c))

-- A property of `i` and of what is above it.
all_from : (P : ℕ → Type 0) (i : ℕ) → P i → ((j : ℕ) → suc i ≤ j → P j) → (j : ℕ) → i ≤ j → P j
all_from P i p all j l = elim (Bool-cases (j == i)) [
  | inl e ↦ let q : i ≡ j = ground arith in subst P q p
  | inr n ↦ all j (ground arith)
]

order_from-IsBestOf : (n i u o c : ℕ) → IsBestOf n i u o c (order_from n i u o c)
unfolding order_from IsBestOf
order_from-IsBestOf zero i u o c = inl (refl, λ j a b. omega arith)
order_from-IsBestOf (suc n) i u o c = elim (Bool-cases (ltb u (usedpc i c))) [
  | inl up ↦ rw up (elim (order_from-IsBestOf n (suc i) (usedpc i c) i c) [
    | inl (e, all) ↦ inr (
        rw e (
          omega arith,
          omega arith,
          ground arith,
          all_from (λ j. j < i + suc n → usedpc j c ≤ usedpc i c) i (λ _. omega arith)
              (λ j a b. all j a (omega arith)),
          λ j a b. absurd (omega arith),
        ))
    | inr (lo, hi, more, all, least) ↦ inr (
      omega arith,
      omega arith,
      ground arith,
      all_from (λ j. j < i + suc n → usedpc j c ≤ usedpc (order_from n (suc i) (usedpc i c) i c) c)
          i (λ _. omega arith) (λ j a b. all j a (omega arith)),
      all_from
          (λ j.
            j < order_from n (suc i) (usedpc i c) i c
            → usedpc j c < usedpc (order_from n (suc i) (usedpc i c) i c) c)
          i (λ _. more) least,
    )
  ])
  | inr down ↦ rw down (elim (order_from-IsBestOf n (suc i) u o c) [
    | inl (e, all) ↦ inl (
      e,
      all_from (λ j. j < i + suc n → usedpc j c ≤ u) i (λ _. ground arith)
          (λ j a b. all j a (omega arith)),
    )
    | inr (lo, hi, more, all, least) ↦ inr (
      omega arith,
      omega arith,
      more,
      all_from (λ j. j < i + suc n → usedpc j c ≤ usedpc (order_from n (suc i) u o c) c) i
          (λ _. ground arith) (λ j a b. all j a (omega arith)),
      all_from
          (λ j. j < order_from n (suc i) u o c → usedpc j c < usedpc (order_from n (suc i) u o c) c)
          i (λ _. ground arith) least,
    )
  ])
]

-- For every class size, the order is between 1 and `max_zspage_order`, no order in that range lets
-- objects use a larger share of the zspage, in whole percent, and every smaller order a smaller share.
pub get_zspage_order_lem :
    (c : ℕ)
    → let r = get_zspage_order c in
      (1 ≤ r)
      × (r ≤ max_zspage_order)
      × ((j : ℕ) → 1 ≤ j → j ≤ max_zspage_order → usedpc j c ≤ usedpc r c)
      × ((j : ℕ) → 1 ≤ j → j < r → usedpc j c < usedpc r c)
unfolding get_zspage_order IsBestOf
get_zspage_order_lem c = elim (order_from-IsBestOf 4 1 0 1 c) [
  | inl (e, all) ↦ rw e (
    omega arith,
    omega arith,
    (λ j a b. omega (arith, all j a (omega arith))),
    λ j a b. absurd (omega arith),
  )
  | inr (lo, hi, more, all, least) ↦ (lo, omega arith, (λ j a b. all j a (omega arith)), least)
]

usedpc-exact : (i c : ℕ) → 1 ≤ i → i ≤ 4 → i * 4096 % c ≡ 0 → usedpc i c ≡ 100
unfolding usedpc
usedpc-exact zero c a b z = absurd (omega arith)
usedpc-exact (suc zero) c a b z = rw z refl
usedpc-exact (suc (suc zero)) c a b z = rw z refl
usedpc-exact (suc (suc (suc zero))) c a b z = rw z refl
usedpc-exact (suc (suc (suc (suc zero)))) c a b z = rw z refl
usedpc-exact (suc (suc (suc (suc (suc i))))) c a b z = absurd (omega arith)

usedpc-le : (i c : ℕ) → 1 ≤ i → i ≤ 4 → usedpc i c ≤ 100
unfolding usedpc
usedpc-le zero c a b = absurd (omega arith)
usedpc-le (suc zero) c a b = omega arith
usedpc-le (suc (suc zero)) c a b = omega arith
usedpc-le (suc (suc (suc zero))) c a b = omega arith
usedpc-le (suc (suc (suc (suc zero)))) c a b = omega arith
usedpc-le (suc (suc (suc (suc (suc i))))) c a b = absurd (omega arith)

-- For every class size, no page of a zspage before the last one ends where an object ends: if `i` pages
-- hold a whole number of objects, the zspage has at most `i` pages.
pub get_zspage_order-le :
    (i c : ℕ) → 1 ≤ i → i ≤ max_zspage_order → i * page_size % c ≡ 0 → get_zspage_order c ≤ i
get_zspage_order-le i c a b z =
    let (lo, hi, _, least) = get_zspage_order_lem c in
    elim (Bool-cases (ltb i (get_zspage_order c))) [
      | inl above ↦ absurd (
          omega (
            arith,
            least i a (ground arith),
            usedpc-exact i c a b z,
            usedpc-le (get_zspage_order c) c lo hi,
          ))
      | inr e ↦ ground arith
    ]
