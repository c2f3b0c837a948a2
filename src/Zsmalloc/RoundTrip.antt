-- ===== src/Zsmalloc/RoundTrip.antt =====
-- zsmalloc.c: an object that is taken from a zspage in use, and freed at once.
use compcache.Common.{
  ℕ, ◌+◌, ◌/◌, ◌^◌, ◌≤◌, ◌<◌, ◌≡◌, ◌≢◌, inl, inr, refl, sym, ap, ◌∙◌, true, false, some, ltb, ◌==◌,
  ◌||◌, arith, Bool-cases, some-inj,
}
use compcache.Zsmalloc.{
  Kernel, Page, State, set_page, with_mem, write_link, get_zspage_mapping, get_fullness_group,
  get_first_page, obj_handle_to_location, obj_idx_to_offset, max_alloc_size, get_size_class_index,
}
use compcache.Zsmalloc.Groups.{fix_fullness_group}
use compcache.Zsmalloc.Fullness.{IsFixed, fix_fullness_group-IsFixed}
use compcache.Zsmalloc.Objects.{
  find_get_zspage, find_or_alloc, take_object, put_object, zs_malloc, zs_free, inc16, dec16,
}
use compcache.Zsmalloc.Listed.{IsListed, mapping-first, fix_fullness_group-total, listed_same}

-- From `s` to `u` the zspage of a first page, all other pages, the link words and what has gone back to
-- the system are the same.
pub record IsRestored (page : ℕ) (s u : State) : Type 0 where
  pub freelist : (u.mem.pages page).freelist ≡ (s.mem.pages page).freelist
  pub inuse : (u.mem.pages page).inuse ≡ (s.mem.pages page).inuse
  pub mapping : get_zspage_mapping (u.mem.pages page) ≡ get_zspage_mapping (s.mem.pages page)
  pub others : (i : ℕ) → i ≢ page → u.mem.pages i ≡ s.mem.pages i
  pub words : (i j : ℕ) → u.mem.words i j ≡ s.mem.words i j
  pub freed : u.mem.freed ≡ s.mem.freed

module _ (k : Kernel) (poison class_idx group page m_page idx : ℕ) (s : State)
    (listed : IsListed page class_idx group s)
    (decodes : obj_handle_to_location k (s.mem.pages page).freelist ≡ (m_page, idx))
    (belongs : get_first_page s.mem m_page ≡ page) (object : (s.mem.pages page).freelist ≢ 0)
    (used : (s.mem.pages page).inuse ≢ 0) (bounded : (s.mem.pages page).inuse + 1 < 2 ^ 16)
    (grouped : get_fullness_group (s.mem.pages page) ≡ some group) where
  abbrev w : ℕ
  w = obj_idx_to_offset (s.mem.pages m_page) idx (s.classes class_idx).size / 8

  -- The object is off the list, and its zspage still in the old group.
  abbrev s1 : State
  s1 =
      with_mem
        (λ m.
          set_page page (λ p. record p { freelist = s.mem.words m_page w; inuse = inc16 p.inuse })
            (write_link m_page w poison m))
        s

  self : (page == page) ≡ true
  self = ground arith

  listed1 : IsListed page class_idx group s1
  listed1 = listed_same s1 listed (rw self refl) (rw self refl) refl

  -- After `zs_malloc`.
  taken :
      (g : ℕ) × (t : State) × (take_object k poison class_idx page s
        ≡ some ((s.mem.pages page).freelist, t))
      × IsListed page class_idx g t
      × IsFixed page s1 g t
  unfolding take_object
  taken =
      let (g, t, e, l) = fix_fullness_group-total k page class_idx group s1 listed1 in
      (g, t, rw (decodes, e) refl, l, fix_fullness_group-IsFixed k page s1 e)

  -- What `zs_free` reads where `zs_malloc` has left the state as `t`.
  module _ (g : ℕ) (t : State) (l : IsListed page class_idx g t) (fixed : IsFixed page s1 g t) where
    first_of : (i : ℕ) → (t.mem.pages i).first ≡ (s.mem.pages i).first
    first_of i = elim (Bool-cases (i == page)) [
      | inl e ↦ let q : i ≡ page = ground arith in rw q (fixed.own.0 ∙ rw self refl)
      | inr n ↦ ap (λ (p : Page). p.first) (fixed.others i (ground arith)) ∙ rw n refl
    ]

    first_page_of : (i : ℕ) → (t.mem.pages i).first_page ≡ (s.mem.pages i).first_page
    first_page_of i = elim (Bool-cases (i == page)) [
      | inl e ↦ let q : i ≡ page = ground arith in rw q (fixed.own.6 ∙ rw self refl)
      | inr n ↦ ap (λ (p : Page). p.first_page) (fixed.others i (ground arith)) ∙ rw n refl
    ]

    same_first_page : get_first_page t.mem m_page ≡ page
    unfolding get_first_page
    same_first_page = rw (first_of m_page, first_page_of m_page) belongs

    same_offset : obj_idx_to_offset (t.mem.pages m_page) idx (t.classes class_idx).size / 8 ≡ w
    unfolding obj_idx_to_offset
    same_offset = elim (Bool-cases (m_page == page)) [
      | inl e ↦
          let q : m_page ≡ page = ground arith in
          let f : (s.mem.pages m_page).first ≡ true =
            rw q (mapping-first (s.mem.pages page) _ listed.mapping) in
          rw (first_of m_page, f, fixed.size class_idx) refl
      | inr n ↦
          let off : (t.mem.pages m_page).freelist ≡ (s.mem.pages m_page).freelist =
            ap (λ (p : Page). p.freelist) (fixed.others m_page (ground arith)) ∙ rw n refl in
          rw (first_of m_page, off, fixed.size class_idx) refl
    ]

    head_link : (t.mem.pages page).freelist ≡ s.mem.words m_page w
    head_link = fixed.own.2 ∙ rw self refl

    -- The object is back on the list, and its zspage still in the group of `t`.
    abbrev t1 : State
    t1 =
        with_mem
          (λ m.
            set_page page
              (λ p. record p { freelist = (s.mem.pages page).freelist; inuse = dec16 p.inuse })
              (write_link m_page w (t.mem.pages page).freelist m))
          t

    listed_t1 : IsListed page class_idx g t1
    listed_t1 = listed_same t1 l (rw self refl) (rw self refl) refl

    module _ (g' : ℕ) (u : State) (after : IsFixed page t1 g' u) where
      inuse_back : (u.mem.pages page).inuse ≡ (s.mem.pages page).inuse
      inuse_back =
          let a : (u.mem.pages page).inuse ≡ dec16 (t.mem.pages page).inuse =
            after.own.3 ∙ rw self refl in
          let b : (t.mem.pages page).inuse ≡ inc16 (s.mem.pages page).inuse =
            fixed.own.3 ∙ rw self refl in
          omega (arith, a, b)

      objects_back : (u.mem.pages page).objects ≡ (s.mem.pages page).objects
      objects_back = after.own.4 ∙ rw self (fixed.own.4 ∙ rw self refl)

      first_back : (u.mem.pages page).first ≡ (s.mem.pages page).first
      first_back = after.own.0 ∙ rw self (first_of page)

      group_back : g' ≡ group
      unfolding get_fullness_group
      group_back =
          let same : get_fullness_group (u.mem.pages page) ≡ get_fullness_group (s.mem.pages page) =
            rw (first_back, inuse_back, objects_back) refl in
          some-inj (sym after.group ∙ same ∙ grouped)

      group-used : (group == 3) ≡ false
      unfolding get_fullness_group
      group-used = ground (arith, grouped)

      others_back : (i : ℕ) → i ≢ page → u.mem.pages i ≡ s.mem.pages i
      others_back i n =
          let q : (i == page) ≡ false = ground arith in
          after.others i n ∙ rw q (fixed.others i n ∙ rw q refl)

      words_back : (i j : ℕ) → u.mem.words i j ≡ s.mem.words i j
      words_back i j = ap (λ (f : ℕ → ℕ → ℕ). f i j) after.words ∙ elim (Bool-cases (i == m_page)) [
        | inl e ↦
            let q : i ≡ m_page = ground arith in
            let m : (m_page == m_page) ≡ true = ground arith in
            elim (Bool-cases (j == w)) [
              | inl f ↦ let r : j ≡ w = ground arith in rw (e, f) (head_link ∙ rw (q, r) refl)
              | inr f ↦
                  rw (e, f) (ap (λ (f : ℕ → ℕ → ℕ). f m_page j) fixed.words ∙ rw (m, f, q) refl)
            ]
        | inr n ↦ rw n (ap (λ (f : ℕ → ℕ → ℕ). f i j) fixed.words ∙ rw n refl)
      ]

      free_lem :
          fix_fullness_group k page t1 ≡ some (g', u)
          → zs_free k (s.mem.pages page).freelist t ≡ some u
      unfolding zs_free put_object
      free_lem e =
          let z : ((s.mem.pages page).freelist == 0) ≡ false = ground arith in
          let n : (g' == 3) ≡ false = rw group_back group-used in
          rw (z, decodes, same_first_page, l.mapping, same_offset, e, n) refl

  take_object-zs_free :
      (t u : State) × (take_object k poison class_idx page s
        ≡ some ((s.mem.pages page).freelist, t))
      × (zs_free k (s.mem.pages page).freelist t ≡ some u)
      × IsRestored page s u
  take_object-zs_free =
      let (g, t, e, l, fixed) = taken in
      let (g', u, e', l') =
        fix_fullness_group-total k page class_idx g (t1 g t l fixed) (listed_t1 g t l fixed) in
      let after = fix_fullness_group-IsFixed k page (t1 g t l fixed) e' in
      (
        t,
        u,
        e,
        free_lem g t l fixed g' u after e',
        record {
          freelist = after.own.2 ∙ rw self refl;
          inuse = inuse_back g t l fixed g' u after;
          mapping = l'.mapping ∙ rw (group_back g t l fixed g' u after) (sym listed.mapping);
          others = others_back g t l fixed g' u after;
          words = words_back g t l fixed g' u after;
          freed = after.freed ∙ fixed.freed;
        },
      )

  -- Where a request of 1 to `ZS_MAX_ALLOC_SIZE` bytes finds a listed zspage that has objects in use and
  -- a free one, `zs_malloc` returns the head of its free list, `zs_free` of that object succeeds, and
  -- after both the zspage has the free list, every link word, the number of objects in use and the
  -- fullness group that it had, no other page has changed, and no page has gone back to the system.
  pub zs_malloc-zs_free :
      (given : ℕ → ℕ) (size : ℕ)
      → 0 < size
      → size ≤ max_alloc_size
      → get_size_class_index size ≡ class_idx
      → (s.classes class_idx).index ≡ class_idx
      → find_get_zspage (s.classes class_idx) ≡ page
      → (t u : State) × (zs_malloc k given poison size s ≡ some ((s.mem.pages page).freelist, t))
        × (zs_free k (s.mem.pages page).freelist t ≡ some u)
        × IsRestored page s u
  unfolding zs_malloc find_or_alloc
  zs_malloc-zs_free given size lo hi cls index head =
      let (t, u, e, f, r) = take_object-zs_free in
      let sane : ((size == 0) || ltb 4096 size) ≡ false = ground arith in
      let same : (class_idx == (s.classes class_idx).index) ≡ true = ground arith in
      let z : (page == 0) ≡ false = let ne = listed.real in ground arith in
      (t, u, rw (sane, cls, same, head, z, e, z) refl, f, r)
