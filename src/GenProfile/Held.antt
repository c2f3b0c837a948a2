-- ===== src/GenProfile/Held.antt =====
-- libsimparse.c: how often a location stands in its table.
use compcache.Common.{
  ℕ, zero, suc, ◌+◌, ◌≤◌, ◌<◌, ◌≡◌, refl, inl, inr, true, false, ◌==◌, arith, Bool-cases, update,
}
use compcache.Table.Count.{of_bool}

-- How many of the first `c` entries are `x`.
unfoldable pub held : (x : ℕ) → (ℕ → ℕ) → (c : ℕ) → ℕ
held x f zero = 0
held x f (suc c) = of_bool (f c == x) + held x f c

pub held-outside : (x : ℕ) (f : ℕ → ℕ) (i v c : ℕ) → c ≤ i → held x (update f i v) c ≡ held x f c
unfolding held
held-outside x f i v zero le = refl
held-outside x f i v (suc c) le =
    let other : (c == i) ≡ false = ground arith in
    rw (other, held-outside x f i v c (omega (arith, le))) refl

pub held-update :
    (x : ℕ) (f : ℕ → ℕ) (i v c : ℕ)
    → i < c
    → held x (update f i v) c + of_bool (f i == x) ≡ held x f c + of_bool (v == x)
unfolding held
held-update x f i v zero lt = absurd (omega arith)
held-update x f i v (suc c) lt = elim (Bool-cases (c == i)) [
  | inl last ↦
      let q : c ≡ i = ground arith in
      let rest = held-outside x f i v c (omega (arith, q)) in rw (last, rest, q) (omega arith)
  | inr other ↦ let rest = held-update x f i v c (ground arith) in rw other (omega (arith, rest))
]

pub held-add :
    (x : ℕ) (f : ℕ → ℕ) (v c : ℕ) → held x (update f c v) (suc c) ≡ of_bool (v == x) + held x f c
unfolding held
held-add x f v c =
    let self : (c == c) ≡ true = ground arith in
    rw (self, held-outside x f c v c (omega arith)) refl

-- The last entry moves to the place of the one that is taken out.
pub held-remove :
    (x : ℕ) (f : ℕ → ℕ) (i c : ℕ)
    → i < suc c
    → held x (update (update f i (f c)) c 0) c + of_bool (f i == x) ≡ held x f (suc c)
unfolding held
held-remove x f i c lt = elim (Bool-cases (i == c)) [
  | inl last ↦
      let q : i ≡ c = ground arith in
      let inner = held-outside x f i (f c) c (omega (arith, q)) in
      rw (held-outside x (update f i (f c)) c 0 c (omega arith), inner, q) (omega arith)
  | inr other ↦
      let moved = held-update x f i (f c) c (ground arith) in
      rw (held-outside x (update f i (f c)) c 0 c (omega arith), moved) (omega arith)
]
