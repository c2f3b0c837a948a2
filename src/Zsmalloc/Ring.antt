-- ===== src/Zsmalloc/Ring.antt =====
-- zsmalloc.c: the rings of `lru` entries that the fullness lists are, under the kernel's <linux/list.h>.
use compcache.Common.{
  ℕ, ◌≡◌, ◌≢◌, ◌⊎◌, refl, inl, inr, true, false, List, [], ◌∷◌, ◌==◌, arith, update, ◌∙◌, subst,
  sym,
}
use compcache.Zsmalloc.{Kernel, Links}

-- `list_add_tail`: `entry` goes between the last entry and the head.
abbrev pub add_before : (entry head : ℕ) → Links → Links
add_before entry head l = record {
  next = update (update l.next (l.prev head) entry) entry head;
  prev = update (update l.prev head entry) entry (l.prev head);
}

-- `list_del_init`: the neighbours of `entry` are linked, and `entry` with itself.
abbrev pub take_out : ℕ → Links → Links
take_out entry l = record {
  next = update (update l.next (l.prev entry) (l.next entry)) entry entry;
  prev = update (update l.prev (l.next entry) (l.prev entry)) entry entry;
}

-- The lists of the kernel are those of <linux/list.h>.
pub record IsLinked (k : Kernel) : Type 0 where
  pub list_add_tail :
      (entry head : ℕ) (l : Links) → k.list_add_tail entry head l ≡ add_before entry head l
  pub list_del_init : (entry : ℕ) (l : Links) → k.list_del_init entry l ≡ take_out entry l
  pub list_empty : (head : ℕ) (l : Links) → k.list_empty head l ≡ (l.next head == head)

-- From `a` on the entries `xs` come, and then `b`, and the same backwards.
abbrev pub IsRun : Links → (a : ℕ) → List ℕ → (b : ℕ) → Type 0
IsRun l a [] b = (l.next a ≡ b) × (l.prev b ≡ a)
IsRun l a (x ∷ xs) b = (l.next a ≡ x) × (l.prev x ≡ a) × IsRun l x xs b

-- The entries are a ring, in this order.
abbrev pub IsRing : Links → List ℕ → Type 0
IsRing l [] = Unit
IsRing l (x ∷ xs) = IsRun l x xs x

abbrev pub Without : ℕ → List ℕ → Type 0
Without p [] = Unit
Without p (x ∷ xs) = (x ≢ p) × Without p xs

abbrev pub IsIn : ℕ → List ℕ → Type 0
IsIn h [] = ⊥
IsIn h (x ∷ xs) = (h ≡ x) ⊎ IsIn h xs

next-prev : (l : Links) (xs : List ℕ) (a b : ℕ) → IsRun l a xs b → l.next (l.prev b) ≡ b
next-prev l [] a b (n, p) = rw p n
next-prev l (x ∷ xs) a b (_, _, r) = next-prev l xs x b r

prev-next : (l : Links) (xs : List ℕ) (a b : ℕ) → IsRun l a xs b → l.prev (l.next a) ≡ a
prev-next l [] a b (n, p) = rw n p
prev-next l (x ∷ xs) a b (n, p, _) = rw n p

-- An entry of a run that does not come back to itself is not its own successor.
no_loop : (l : Links) (xs : List ℕ) (a p : ℕ) → IsRun l a xs p → a ≢ p → Without p xs → l.next a ≢ a
no_loop l [] a p (n, _) ne w e = ne (sym e ∙ n)
no_loop l (x ∷ xs) a p (n, _, r) ne (nx, w) e =
    let q : x ≡ a = sym n ∙ e in no_loop l xs x p r nx w (rw q e)

pub in-no_loop :
    (l : Links) (xs : List ℕ) (a p h : ℕ) → IsRun l a xs p → Without p xs → IsIn h xs → l.next h ≢ h
in-no_loop l [] a p h r w i = absurd i
in-no_loop l (x ∷ xs) a p h (_, _, r) (nx, w) (inl e) = rw e (no_loop l xs x p r nx w)
in-no_loop l (x ∷ xs) a p h (_, _, r) (nx, w) (inr i) = in-no_loop l xs x p h r w i

module _ (l : Links) (p : ℕ) (back : l.next (l.prev p) ≡ p) (forth : l.prev (l.next p) ≡ p) where
  take_out-edge :
      (a x : ℕ)
      → a ≢ p
      → x ≢ p
      → l.next a ≡ x
      → l.prev x ≡ a
      → ((take_out p l).next a ≡ x) × ((take_out p l).prev x ≡ a)
  take_out-edge a x na nx n q = (ground (arith, back), ground (arith, forth))

  take_out-IsRun :
      (xs : List ℕ) (a b : ℕ)
      → a ≢ p
      → b ≢ p
      → Without p xs
      → IsRun l a xs b
      → IsRun (take_out p l) a xs b
  take_out-IsRun [] a b na nb w (n, q) = take_out-edge a b na nb n q
  take_out-IsRun (x ∷ xs) a b na nb (nx, w) (n, q, r) =
      let (n', q') = take_out-edge a x na nx n q in (n', q', take_out-IsRun xs x b nx nb w r)

  -- The run up to `p` now ends with what stood behind `p`.
  take_out-joined :
      (xs : List ℕ) (a : ℕ)
      → a ≢ p
      → l.next p ≢ p
      → Without p xs
      → IsRun l a xs p
      → IsRun (take_out p l) a xs (l.next p)
  take_out-joined [] a na ne w (n, q) = (ground arith, ground arith)
  take_out-joined (x ∷ xs) a na ne (nx, w) (n, q, r) =
      let (n', q') = take_out-edge a x na nx n q in (n', q', take_out-joined xs x nx ne w r)

pub take_out-IsRing :
    (l : Links) (p : ℕ) (ys : List ℕ)
    → IsRing l (p ∷ ys)
    → Without p ys
    → IsRing (take_out p l) (p ∷ [])
      × IsRing (take_out p l) ys
      × ((xs : List ℕ) → Without p xs → IsRing l xs → IsRing (take_out p l) xs)
take_out-IsRing l p ys r w =
    let back = next-prev l ys p p r in
    let forth = prev-next l ys p p r in
    let self : (p == p) ≡ true = ground arith in
    (rw self (refl, refl), rest ys r w back forth, others back forth)
  where
    rest :
        (ys : List ℕ)
        → IsRing l (p ∷ ys)
        → Without p ys
        → l.next (l.prev p) ≡ p
        → l.prev (l.next p) ≡ p
        → IsRing (take_out p l) ys
    rest [] r w back forth = tt
    rest (y ∷ ys) (n, _, r) (ny, w) back forth =
        let ne : l.next p ≢ p = rw n ny in
        subst (λ b. IsRun (take_out p l) y ys b) n (take_out-joined l p back forth ys y ny ne w r)

    others :
        l.next (l.prev p) ≡ p
        → l.prev (l.next p) ≡ p
        → (xs : List ℕ) → Without p xs
        → IsRing l xs
        → IsRing (take_out p l) xs
    others back forth [] w r = tt
    others back forth (x ∷ xs) (nx, w) r = take_out-IsRun l p back forth xs x x nx nx w r

module _ (l : Links) (p h : ℕ) (back : l.next (l.prev h) ≡ h) where
  add_before-edge :
      (a x : ℕ)
      → a ≢ p
      → x ≢ p
      → x ≢ h
      → l.next a ≡ x
      → l.prev x ≡ a
      → ((add_before p h l).next a ≡ x) × ((add_before p h l).prev x ≡ a)
  add_before-edge a x na nx nh n q = (ground (arith, back), ground arith)

  add_before-IsRun :
      (xs : List ℕ) (a b : ℕ)
      → a ≢ p
      → b ≢ p
      → b ≢ h
      → Without p xs
      → Without h xs
      → IsRun l a xs b
      → IsRun (add_before p h l) a xs b
  add_before-IsRun [] a b na nb hb w v (n, q) = add_before-edge a b na nb hb n q
  add_before-IsRun (x ∷ xs) a b na nb hb (nx, w) (hx, v) (n, q, r) =
      let (n', q') = add_before-edge a x na nx hx n q in
      (n', q', add_before-IsRun xs x b nx nb hb w v r)

  -- The run up to `h` now ends with `p`.
  add_before-joined :
      (xs : List ℕ) (a : ℕ)
      → a ≢ p
      → Without p xs
      → Without h xs
      → IsRun l a xs h
      → IsRun (add_before p h l) a xs p
  add_before-joined [] a na w v (n, q) = (ground arith, ground arith)
  add_before-joined (x ∷ xs) a na (nx, w) (hx, v) (n, q, r) =
      let (n', q') = add_before-edge a x na nx hx n q in (n', q', add_before-joined xs x nx w v r)

pub add_before-IsRing :
    (l : Links) (p h : ℕ) (xs : List ℕ)
    → IsRing l (h ∷ xs)
    → Without h xs
    → Without p (h ∷ xs)
    → IsRing (add_before p h l) (p ∷ (h ∷ xs))
      × ((ys : List ℕ) → Without p ys → Without h ys → IsRing l ys → IsRing (add_before p h l) ys)
add_before-IsRing l p h xs r v (hp, w) =
    let back = next-prev l xs h h r in
    let selfp : (p == p) ≡ true = ground arith in
    let selfh : (h == h) ≡ true = ground arith in
    let other : (h == p) ≡ false = ground arith in
    (
      (rw selfp refl, rw (other, selfh) refl, add_before-joined l p h back xs h hp w v r),
      others back,
    )
  where
    others :
        l.next (l.prev h) ≡ h
        → (ys : List ℕ) → Without p ys
        → Without h ys
        → IsRing l ys
        → IsRing (add_before p h l) ys
    others back [] w v r = tt
    others back (y ∷ ys) (py, w) (hy, v) r = add_before-IsRun l p h back ys y y py py hy w v r
