-- ===== src/Zsmalloc/InitPage.antt =====
-- `init_zspage` of zsmalloc.c on one page: its index, and its part of the free list.
use compcache.Common.{
  ℕ, zero, suc, ◌+◌, ◌-◌, ◌*◌, ◌/◌, ◌%◌, ◌≡◌, ◌≢◌, ◌⊎◌, inl, inr, refl, ap, ◌∙◌, true, false, some,
  ltb, ◌==◌, if◌then◌else◌, arith, Bool-cases, update,
}
use compcache.Zsmalloc.{Kernel, Page, Memory, write_link, get_next_page, obj_location_to_handle}
use compcache.Zsmalloc.Zspage.{init_links, init_page}

-- From one memory to the other only link words have changed.
record IsKept (m m' : Memory) : Type 0 where
  pages : m'.pages ≡ m.pages
  links : m'.links ≡ m.links
  freed : m'.freed ≡ m.freed

IsKept-trans : {a b c : Memory} → IsKept a b → IsKept b c → IsKept a c
IsKept-trans v w = record {
  pages = w.pages ∙ v.pages;
  links = w.links ∙ v.links;
  freed = w.freed ∙ v.freed;
}

handle_some :
    (k : Kernel) (page i : ℕ)
    → (page ≢ 0) ⊎ (i ≡ 0)
    → (h : ℕ) × (obj_location_to_handle k page i ≡ some h)
unfolding obj_location_to_handle
handle_some k page i e = elim (Bool-cases (page == 0)) [
  | inl z ↦ elim e [ inl ne ↦ absurd (ne (ground arith)) | inr q ↦ rw (z, q) (0, refl) ]
  | inr n ↦ rw n (_, refl)
]

init_links-IsKept :
    (k : Kernel) (objs i page size off link : ℕ) (m : Memory)
    → page ≢ 0
    → (r : ℕ × ℕ × Memory) × (init_links k objs i page size off link m ≡ some r)
      × (r.0 ≡ off + objs * size)
      × IsKept m r.2
unfolding init_links
init_links-IsKept k zero i page size off link m ne =
    ((off, link, m), refl, omega arith, record { pages = refl; links = refl; freed = refl })
init_links-IsKept k (suc objs) i page size off link m ne =
    elim (Bool-cases (ltb (off + size) 4096)) [
      | inl inside ↦
          let (h, e) = handle_some k page i (inl ne) in
          let (r, f, o, v) =
            init_links-IsKept k objs (suc i) page size (off + size) (link + size / 8)
              (write_link page link h m) ne in
          rw (inside, e)
            (r, f, o ∙ omega arith, record { pages = v.pages; links = v.links; freed = v.freed })
      | inr out ↦
          let (r, f, o, v) = init_links-IsKept k objs (suc i) page size (off + size) link m ne in
          rw out (r, f, o ∙ omega arith, v)
    ]

-- What `init_page` does to a page: its index is `off`, unless it is the first page.
pub record IsLaid (first_page page off : ℕ) (m m' : Memory) : Type 0 where
  pub others : (i : ℕ) → (i ≢ page) ⊎ (page ≡ first_page) → m'.pages i ≡ m.pages i
  pub index : page ≢ first_page → (m'.pages page).freelist ≡ off
  pub next : (i : ℕ) → get_next_page m' i ≡ get_next_page m i
  pub freed : m'.freed ≡ m.freed

-- The memory in which the index is written.
abbrev indexed : (first_page page off : ℕ) → Memory → Memory
indexed first_page page off m =
    if page == first_page
    then m
    else record m { pages = update m.pages page (record (m.pages page) { freelist = off }) }

next-set_index :
    (page off i : ℕ) (m : Memory)
    → get_next_page
        (record m { pages = update m.pages page (record (m.pages page) { freelist = off }) })
        i
      ≡ get_next_page m i
unfolding get_next_page
next-set_index page off i m = elim (Bool-cases (i == page)) [
  | inl e ↦ let q : i ≡ page = ground arith in rw (e, q) refl
  | inr n ↦ rw n refl
]

indexed-IsLaid :
    (first_page page off : ℕ) (m m' : Memory)
    → IsKept (indexed first_page page off m) m'
    → IsLaid first_page page off m m'
unfolding get_next_page
indexed-IsLaid first_page page off m m' v = elim (Bool-cases (page == first_page)) [
  | inl e ↦
      let w : IsKept m m' = rw e at v in
      record {
        others = λ i _. ap (λ (f : ℕ → Page). f i) w.pages;
        index = λ ne. absurd (ne (ground arith));
        next = λ i. rw (w.pages, w.links) refl;
        freed = w.freed;
      }
  | inr n ↦
      let w : IsKept
          (record m { pages = update m.pages page (record (m.pages page) { freelist = off }) }) m' =
        rw n at v in
      let self : (page == page) ≡ true = ground arith in
      record {
        others = λ i c. ap (λ (f : ℕ → Page). f i) w.pages ∙ elim c [
          | inl d ↦ let q : (i == page) ≡ false = ground arith in rw q refl
          | inr d ↦ absurd (ground arith)
        ];
        index = λ _. ap (λ (f : ℕ → Page). (f page).freelist) w.pages ∙ rw self refl;
        next = λ i. rw (w.pages, w.links) (next-set_index page off i m);
        freed = w.freed;
      }
]

pub init_page-IsLaid :
    (k : Kernel) (first_page page size off : ℕ) (m : Memory)
    → page ≢ 0
    → (r : ℕ × Memory) × (init_page k first_page page size off m ≡ some r)
      × (r.0 ≡ (off + (4096 - off) / size * size + size) % 4096)
      × IsLaid first_page page off m r.1
unfolding init_page
init_page-IsLaid k first_page page size off m ne =
    let ((o, l, m'), e, f, v) =
      init_links-IsKept k ((4096 - off) / size) 1 page size off (off / 8)
        (indexed first_page page off m) ne in
    let (h, g) = handle_some k (get_next_page m' page) 0 (inr refl) in
    (
      ((o + size) % 4096, write_link page l h m'),
      rw (e, g) refl,
      ap (λ (n : ℕ). (n + size) % 4096) f,
      indexed-IsLaid first_page page off m (write_link page l h m')
          (record { pages = v.pages; links = v.links; freed = v.freed }),
    )
