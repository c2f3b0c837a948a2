-- ===== src/Table/Zero.antt =====
-- `page_zero_filled` of zram_drv.c, which reads a page by words, decides that all its bytes are 0.
use mathlib.Core.Logic.{◌↔◌}
use compcache.Common.{
  ℕ, zero, suc, ◌*◌, ◌≡◌, refl, sym, ap₂, subst, true, List, [], ◌∷◌, length, replicate, arith,
}
use compcache.Table.{zero_longs, page_zero_filled}

-- All bytes are 0.
abbrev IsZero : List ℕ → Type 0
IsZero [] = Unit
IsZero (b ∷ bytes) = (b ≡ 0) × IsZero bytes

zero_longs-IsZero :
    (n : ℕ) (bytes : List ℕ) → length bytes ≡ 8 * n → zero_longs n bytes ≡ true → IsZero bytes
unfolding zero_longs
zero_longs-IsZero zero [] l t = tt
zero_longs-IsZero zero (b ∷ bytes) l t = absurd (omega arith)
zero_longs-IsZero (suc n) (a ∷ b ∷ c ∷ d ∷ e ∷ f ∷ g ∷ h ∷ rest) l t =
    ground (arith, zero_longs-IsZero n rest)
zero_longs-IsZero (suc n) _ l t = absurd (omega arith)

IsZero-zero_longs :
    (n : ℕ) (bytes : List ℕ) → length bytes ≡ 8 * n → IsZero bytes → zero_longs n bytes ≡ true
unfolding zero_longs
IsZero-zero_longs zero bytes l z = refl
IsZero-zero_longs (suc n) (a ∷ b ∷ c ∷ d ∷ e ∷ f ∷ g ∷ h ∷ rest) l z =
    ground (arith, IsZero-zero_longs n rest)
IsZero-zero_longs (suc n) _ l z = absurd (omega arith)

eq_of_IsZero : (n : ℕ) (bytes : List ℕ) → length bytes ≡ n → IsZero bytes → bytes ≡ replicate n 0
eq_of_IsZero zero [] l z = refl
eq_of_IsZero zero (b ∷ bytes) l z = absurd (omega arith)
eq_of_IsZero (suc n) [] l z = absurd (omega arith)
eq_of_IsZero (suc n) (b ∷ bytes) l z = ap₂ ◌∷◌ (z.0) (eq_of_IsZero n bytes (omega arith) z.1)

IsZero-replicate : (n : ℕ) → IsZero (replicate n 0)
IsZero-replicate zero = tt
IsZero-replicate (suc n) = (refl, IsZero-replicate n)

-- A page of 4096 bytes passes `page_zero_filled` exactly if each of its bytes is 0.
pub page_zero_filled_iff :
    (page : List ℕ)
    → length page ≡ 4096
    → (page_zero_filled page ≡ true) ↔ (page ≡ replicate 4096 0)
unfolding page_zero_filled
page_zero_filled_iff page l = (
  λ t. eq_of_IsZero 4096 page l (zero_longs-IsZero 512 page l t),
  λ e. IsZero-zero_longs 512 page l (subst IsZero (sym e) (IsZero-replicate 4096)),
)
