-- ===== src/Zsmalloc/Fault.antt =====
-- zsmalloc.c: what happens where a zspage cannot be allocated as a whole, and what freeing one gives back.
use compcache.Common.{
  ℕ, zero, suc, ◌-◌, ◌≤◌, ◌<◌, ◌≡◌, ◌≢◌, inl, inr, refl, ap, ◌∙◌, true, false, none, some, ◌∷◌, ltb,
  ◌==◌, ◌||◌, arith, Bool-cases,
}
use compcache.Zsmalloc.{
  Kernel, Memory, SizeClass, State, set_zspage_mapping, get_size_class_index, max_alloc_size,
}
use compcache.Zsmalloc.Zspage.{free_subpages, free_zspage, link_page, alloc_pages, alloc_zspage}
use compcache.Zsmalloc.Objects.{find_get_zspage, find_or_alloc, zs_malloc}

free_subpages-none : (k : Kernel) (n nextp : ℕ) (m : Memory) → free_subpages k n nextp m ≡ m
unfolding free_subpages
free_subpages-none k zero nextp m = refl
free_subpages-none k (suc n) nextp m = let q : (nextp == nextp) ≡ true = ground arith in rw q refl

-- Where `free_zspage` is called on the first page of a zspage that has no object in use, it gives back
-- to the system that first page, and no other page of the zspage, however many there are.
pub free_zspage-first :
    (k : Kernel) (first_page : ℕ) (m : Memory)
    → (m.pages first_page).first ≡ true
    → (m.pages first_page).inuse ≡ 0
    → (m' : Memory) × (free_zspage k first_page m ≡ some m')
      × (m'.freed ≡ first_page ∷ m.freed)
      × ((m'.pages first_page).first ≡ false)
unfolding free_zspage
free_zspage-first k first_page m f z = elim (Bool-cases ((m.pages first_page).private == 0)) [
  | inl single ↦ rw (f, z, single) (_, refl, refl, rw self refl)
  | inr more ↦ rw (f, z, more) (_, ap some (free_subpages-none k 4 _ _), refl, rw self refl)
]
  where
    self : (first_page == first_page) ≡ true
    self = ground arith

module _ (k : Kernel) (given : ℕ → ℕ) (c : SizeClass) (m : Memory) (two : 2 ≤ c.zspage_order)
    (real : given 0 ≢ 0) (none_left : given 1 ≡ 0) where
  abbrev linked : Memory
  linked = link_page k c.zspage_order 0 (given 0) (given 0) 0 m

  linked-first :
      ((linked.pages (given 0)).first ≡ true)
      × ((linked.pages (given 0)).inuse ≡ (m.pages (given 0)).inuse)
      × (linked.freed ≡ m.freed)
  unfolding link_page
  linked-first =
      let last : (0 == c.zspage_order - 1) ≡ false = ground arith in
      let self : (given 0 == given 0) ≡ true = ground arith in rw (last, self) (refl, refl, refl)

  alloc_pages-cut :
      (n : ℕ) → 2 ≤ n → alloc_pages k given n 0 c.zspage_order 0 0 m ≡ (false, given 0, linked)
  unfolding alloc_pages
  alloc_pages-cut zero l = absurd (omega arith)
  alloc_pages-cut (suc zero) l = absurd (omega arith)
  alloc_pages-cut (suc (suc n)) l =
      let z : (given 0 == 0) ≡ false = ground arith in rw (z, none_left) refl

  -- Where `alloc_page` gives only the first of the pages, `alloc_zspage` returns that page, which it has
  -- freed, if it comes with `inuse` 0.
  alloc_zspage-cut :
      (m.pages (given 0)).inuse ≡ 0
      → (m' : Memory) × (alloc_zspage k given c m ≡ some (given 0, m'))
        × (m'.freed ≡ given 0 ∷ m.freed)
        × ((m'.pages (given 0)).first ≡ false)
  unfolding alloc_zspage
  alloc_zspage-cut fresh =
      let (f, u, kept) = linked-first in
      let (m', e, freed, g) = free_zspage-first k (given 0) linked f (u ∙ fresh) in
      let z : (given 0 == 0) ≡ false = ground arith in
      (
        m',
        rw (alloc_pages-cut c.zspage_order two, z, e) refl,
        freed ∙ ap (λ l. given 0 ∷ l) kept,
        g,
      )

  -- Otherwise the page trips the BUG_ON of `free_zspage`.
  alloc_zspage-stale : (m.pages (given 0)).inuse ≢ 0 → alloc_zspage k given c m ≡ none
  unfolding alloc_zspage free_zspage
  alloc_zspage-stale used =
      let (f, u, _) = linked-first in
      let busy : ((linked.pages (given 0)).inuse == 0) ≡ false = ground (arith, used, u) in
      let z : (given 0 == 0) ≡ false = ground arith in
      rw (alloc_pages-cut c.zspage_order two, z, f, busy) refl

-- Where the class of a request has no zspage in its lists and makes zspages of more than one page,
-- and `alloc_page` gives the first page and not the second, `zs_malloc` never fails, but runs into a BUG:
-- if the page comes with `inuse` 0, then `alloc_zspage` frees it and returns it, not NULL, and
-- `set_zspage_mapping` finds that it is no first page any more; else `free_zspage`, in `alloc_zspage`, finds
-- objects in use.
pub zs_malloc-bug :
    (k : Kernel) (given : ℕ → ℕ) (poison size : ℕ) (s : State)
    → 0 < size
    → size ≤ max_alloc_size
    → (let c = s.classes (get_size_class_index size) in
        (c.index ≡ get_size_class_index size) × (find_get_zspage c ≡ 0) × (2 ≤ c.zspage_order))
    → given 0 ≢ 0
    → given 1 ≡ 0
    → (let c = s.classes (get_size_class_index size) in
        (zs_malloc k given poison size s ≡ none)
        × ((s.mem.pages (given 0)).inuse ≡ 0
            → (m : Memory) × (alloc_zspage k given c s.mem ≡ some (given 0, m))
              × (m.freed ≡ given 0 ∷ s.mem.freed)
              × ((group : ℕ) → set_zspage_mapping c.index group (m.pages (given 0)) ≡ none))
        × ((s.mem.pages (given 0)).inuse ≢ 0 → alloc_zspage k given c s.mem ≡ none))
unfolding zs_malloc find_or_alloc set_zspage_mapping
zs_malloc-bug k given poison size s lo hi (index, empty, two) real none_left =
    let c = s.classes (get_size_class_index size) in
    let sane : ((size == 0) || ltb 4096 size) ≡ false = ground arith in
    let same : (get_size_class_index size == c.index) ≡ true = ground arith in
    let z : (given 0 == 0) ≡ false = ground arith in
    let stale = alloc_zspage-stale k given c s.mem two real none_left in
    (
      elim (Bool-cases ((s.mem.pages (given 0)).inuse == 0)) [
        | inl fresh ↦
            let (m, e, _, f) = alloc_zspage-cut k given c s.mem two real none_left (ground arith) in
            rw (sane, same, empty, e, z, f) refl
        | inr used ↦ rw (sane, same, empty, stale (ground arith)) refl
      ],
      (λ fresh.
          let (m, e, freed, f) = alloc_zspage-cut k given c s.mem two real none_left fresh in
          (m, e, freed, λ group. rw f refl)),
      stale,
    )
