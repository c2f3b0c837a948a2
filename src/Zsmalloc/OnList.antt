-- ===== src/Zsmalloc/OnList.antt =====
-- zsmalloc.c: a zspage on the ring of its fullness list, and what `remove_zspage` makes of the ring.
use compcache.Common.{
  ℕ, ◌<◌, ◌≤◌, ◌≡◌, ◌≢◌, inl, inr, refl, sym, ap, ◌∙◌, true, false, some, List, [], ◌∷◌, leb, ◌==◌,
  arith, Bool-cases, subst, if◌then◌else◌,
}
use compcache.Zsmalloc.{Kernel, Links, State, set_class, with_mem}
use compcache.Zsmalloc.Groups.{set_head, set_links, remove_zspage}
use compcache.Zsmalloc.Ring.{IsLinked, IsRing, Without, IsIn, take_out, in-no_loop, take_out-IsRing}

-- The list of a group has the zspage, and behind it, once around, the zspages `rest`; a zspage of a group
-- that has no list is linked with itself.
pub record IsOnList (page class_idx group : ℕ) (rest : List ℕ) (s : State) : Type 0 where
  pub ring : IsRing s.mem.links (page ∷ rest)
  pub apart : Without page rest
  pub real : Without 0 (page ∷ rest)
  pub head : group < 2 → IsIn ((s.classes class_idx).fullness_list group) (page ∷ rest)
  pub alone : 2 ≤ group → rest ≡ []

abbrev pub first_of : List ℕ → ℕ
first_of [] = 0
first_of (x ∷ xs) = x

-- Neither the other entries of `xs` nor `rest` have the first entry of `xs`.
abbrev pub IsApart : (rest xs : List ℕ) → Type 0
IsApart rest [] = Unit
IsApart rest (x ∷ xs) = Without x xs × Without x rest

-- The list of a group has the zspages `xs`, from its head on, and none of them is the zspage; its head is
-- nowhere else in it, and not in `rest`.
pub record IsOther (page class_idx group : ℕ) (rest xs : List ℕ) (s : State) : Type 0 where
  pub ring : IsRing s.mem.links xs
  pub head : (s.classes class_idx).fullness_list group ≡ first_of xs
  pub other : Without page xs
  pub apart : IsApart rest xs
  pub real : Without 0 xs

-- The list of a group has the zspages `rest`, in this order around the ring.
abbrev pub IsLeft : (class_idx group : ℕ) → List ℕ → State → Type 0
IsLeft class_idx group [] s = (s.classes class_idx).fullness_list group ≡ 0
IsLeft class_idx group (y ∷ ys) s =
    IsIn ((s.classes class_idx).fullness_list group) (y ∷ ys) × IsRing s.mem.links (y ∷ ys)

-- What `remove_zspage` leaves.
pub record IsRemoved (page class_idx group : ℕ) (rest : List ℕ) (s t : State) : Type 0 where
  pub pages : t.mem.pages ≡ s.mem.pages
  pub alone : IsRing t.mem.links (page ∷ [])
  pub left : group < 2 → IsLeft class_idx group rest t
  pub others : (xs : List ℕ) → Without page xs → IsRing s.mem.links xs → IsRing t.mem.links xs
  pub lists :
      (g : ℕ)
      → g ≢ group
      → (t.classes class_idx).fullness_list g ≡ (s.classes class_idx).fullness_list g

in-real : (h : ℕ) (xs : List ℕ) → Without 0 xs → IsIn h xs → h ≢ 0
in-real h [] w i = absurd i
in-real h (x ∷ xs) (nz, w) (inl e) = rw e nz
in-real h (x ∷ xs) (nz, w) (inr i) = in-real h xs w i

in-other : (h p : ℕ) (xs : List ℕ) → Without p xs → IsIn h xs → h ≢ p
in-other h p [] w i = absurd i
in-other h p (x ∷ xs) (np, w) (inl e) = rw e np
in-other h p (x ∷ xs) (np, w) (inr i) = in-other h p xs w i

-- The head after the removal.
abbrev new_head : (page head : ℕ) → Links → ℕ
new_head page head l =
    if l.next head == head then 0 else (if head == page then l.next head else head)

IsNewHead : ℕ → List ℕ → Type 0
IsNewHead h [] = h ≡ 0
IsNewHead h (y ∷ ys) = IsIn h (y ∷ ys)

new_head-IsNewHead :
    (l : Links) (page head : ℕ) (rest : List ℕ)
    → IsRing l (page ∷ rest)
    → Without page rest
    → IsIn head (page ∷ rest)
    → IsNewHead (new_head page head l) rest
unfolding IsNewHead
new_head-IsNewHead l page head [] (n, _) w (inl e) =
    let self : (l.next head == head) ≡ true = ground (arith, n, e) in rw self refl
new_head-IsNewHead l page head [] r w (inr i) = absurd i
new_head-IsNewHead l page head (y ∷ ys) (n, _, r) (ny, w) (inl e) =
    let more : (l.next head == head) ≡ false = ground (arith, n, e, ny) in
    let same : (head == page) ≡ true = ground (arith, e) in
    let behind : l.next head ≡ y = ap (λ i. l.next i) e ∙ n in rw (more, same) (inl behind)
new_head-IsNewHead l page head (y ∷ ys) r (ny, w) (inr i) =
    let loop = in-no_loop l (y ∷ ys) page page head r (ny, w) i in
    let other' = in-other head page (y ∷ ys) (ny, w) i in
    let more : (l.next head == head) ≡ false = ground arith in
    let other : (head == page) ≡ false = ground arith in
    let kept : new_head page head l ≡ head = rw (more, other) refl in
    subst (λ h. IsIn h (y ∷ ys)) (sym kept) i

pub remove_zspage-IsRemoved :
    (k : Kernel) (page class_idx group : ℕ) (rest : List ℕ) (s : State)
    → IsLinked k
    → (s.mem.pages page).first ≡ true
    → IsOnList page class_idx group rest s
    → (t : State) × (remove_zspage k page class_idx group s ≡ some t)
      × IsRemoved page class_idx group rest s t
unfolding remove_zspage IsNewHead
remove_zspage-IsRemoved k page class_idx group rest s linked f v = elim (Bool-cases (leb 2 group)) [
  | inl out ↦
      let none_behind = v.alone (ground arith) in
      (
        s,
        rw (f, out) refl,
        record {
          pages = refl;
          alone = subst (λ r. IsRing s.mem.links (page ∷ r)) none_behind v.ring;
          left = λ lt. absurd (ground arith);
          others = λ xs w r. r;
          lists = λ g ne. refl;
        },
      )
  | inr inside ↦
      let is_in = v.head (ground arith) in
      let nz = in-real head (page ∷ rest) v.real is_in in
      let z : (head == 0) ≡ false = ground arith in
      let (alone, ring, others) = take_out-IsRing s.mem.links page rest v.ring v.apart in
      let self : (class_idx == class_idx) ≡ true = ground arith in
      let self' : (group == group) ≡ true = ground arith in
      let new = new_head-IsNewHead s.mem.links page head rest v.ring v.apart is_in in
      (
        removed,
        rw (f, inside, z, linked.list_empty head s.mem.links, linked.list_del_init page s.mem.links)
            refl,
        record {
          pages = refl;
          alone = alone;
          left = λ lt. left rest new ring;
          others = others;
          lists = λ g ne.
              let other : (g == group) ≡ false = ground (arith, ne) in rw (self, other) refl;
        },
      )
]
  where
    head : ℕ
    head = (s.classes class_idx).fullness_list group

    removed : State
    removed =
        with_mem (set_links (take_out page))
          (set_class class_idx (set_head group (new_head page head s.mem.links)) s)

    left :
        (rest : List ℕ)
        → IsNewHead (new_head page head s.mem.links) rest
        → IsRing (take_out page s.mem.links) rest
        → IsLeft class_idx group rest removed
    left [] new ring =
        let self : (class_idx == class_idx) ≡ true = ground arith in
        let self' : (group == group) ≡ true = ground arith in rw (self, self') new
    left (y ∷ ys) new ring =
        let self : (class_idx == class_idx) ≡ true = ground arith in
        let self' : (group == group) ≡ true = ground arith in
        let set : (removed.classes class_idx).fullness_list group ≡ new_head page head s.mem.links =
          rw (self, self') refl in
        (subst (λ h. IsIn h (y ∷ ys)) (sym set) new, ring)
