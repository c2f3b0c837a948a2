-- ===== src/Zsmalloc/Start.antt =====
-- zsmalloc.c: where the first object of each page of a zspage begins, as `init_zspage` counts it.
use compcache.Common.{
  ℕ, suc, ◌+◌, ◌-◌, ◌*◌, ◌/◌, ◌%◌, ◌≤◌, ◌<◌, ◌≡◌, ◌≢◌, ap, ◌∙◌, List, [], ◌∷◌, arith,
}
use native.Mathlib.Omega.{div_any}
use native.Mathlib.Nat.{mod-lt, mul_comm, add-mul, mul-mod_left}
use compcache.Zsmalloc.Classes.{get_zspage_order}
use compcache.Zsmalloc.Order.{get_zspage_order_lem, get_zspage_order-le}

abbrev pub count : List ℕ → ℕ
count [] = 0
count (p ∷ ps) = 1 + count ps

-- The page at offset `start` of a zspage has its first object `off` bytes behind its start.
pub record IsStart (size start off : ℕ) : Type 0 where
  pub before : off < size
  pub nth : ℕ
  pub multiple : start + off ≡ nth * size

-- An object that begins in a page does not end with it.
abbrev pub Crosses : (size start : ℕ) → Type 0
Crosses size start = (n : ℕ) → start ≢ n * size

pub IsStart-next :
    (size start off : ℕ)
    → 0 < size
    → size ≤ 4096
    → Crosses size (start + 4096)
    → IsStart size start off
    → IsStart size (start + 4096) ((off + (4096 - off) / size * size + size) % 4096)
IsStart-next size start off pos le crosses v =
    let d = (4096 - off) / size in
    let a = (4096 - off) % size in
    let whole : size * d + a ≡ 4096 - off = div_any (4096 - off) size in
    let flip : d * size ≡ size * d = mul_comm d size in
    let small : a < size = mod-lt (4096 - off) pos in
    let dist : (v.nth + d) * size ≡ v.nth * size + d * size = add-mul v.nth d size in
    let dist' : suc (v.nth + d) * size ≡ size + (v.nth + d) * size = omega arith in
    let some_left : a ≢ 0 = λ z. crosses (v.nth + d) (omega (arith, v.before, v.multiple)) in
    let off' : (off + d * size + size) % 4096 ≡ size - a =
      omega (arith, whole, flip, small, some_left, v.before) in
    record {
      before = omega arith;
      nth = suc (v.nth + d);
      multiple = omega (arith, v.before, v.multiple);
    }

-- No object ends where one of the pages from `start` on ends, but for the last.
abbrev pub Inner : (size start : ℕ) → List ℕ → Type 0
Inner size start [] = Unit
Inner size start (p ∷ []) = Unit
Inner size start (p ∷ (q ∷ ps)) = Crosses size (start + 4096) × Inner size (start + 4096) (q ∷ ps)

-- In a zspage of the order for its size, from its `j`-th page on.
pub order-Inner :
    (size j start : ℕ) (ps : List ℕ)
    → start ≡ j * 4096
    → j + count ps ≡ get_zspage_order size
    → Inner size start ps
order-Inner size j start [] e c = tt
order-Inner size j start (p ∷ []) e c = tt
order-Inner size j start (p ∷ (q ∷ ps)) e c = (
  (λ n f.
      let (_, hi, _, _) = get_zspage_order_lem size in
      let z : suc j * 4096 % size ≡ 0 =
        ap (λ (x : ℕ). x % size) (omega (arith, e, f)) ∙ mul-mod_left n size in
      absurd (omega (arith, get_zspage_order-le (suc j) size (omega arith) (omega arith) z))),
  order-Inner size (suc j) (start + 4096) (q ∷ ps) (omega (arith, e)) (omega (arith, c)),
)
