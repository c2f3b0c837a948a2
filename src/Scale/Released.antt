-- ===== src/Scale/Released.antt =====
-- zram_scale: `zram_free_page` keeps the sums of the counters right, and leaves its entry empty.
use compcache.Common.{
  ℕ, zero, suc, ◌+◌, ◌-◌, ◌/◌, ◌%◌, ◌^◌, ◌<◌, ◌≡◌, ◌≢◌, refl, ap, ◌∙◌, subst, inl, inr, false,
  Option, none, some, ◌∷◌, ◌==◌, get_elem?, set, get_elem?-set_self, some-inj, arith, Bool-cases,
  if-branches,
}
use compcache.Pool.{Heap}
use compcache.Device.Bind.{bind-eq-some}
use compcache.Xvmalloc.{xv_free, xv_get_object_size}
use compcache.Scale.{
  Zram, set_entry, zram_add_stat, zram_dec_stat, zram_get_stat, zram_is_zero_page, zram_find_obj,
  zram_clear_zero_page, forget, free_entry, free_found, zram_free_page, discard_pages,
}
use compcache.Scale.Counters.{
  is_stored, is_zero, is_expanded, IsCounted, Moves, set-IsCounted, get_self, get_other, get_same,
  stays, falls,
}

-- The entry holds no object and no zero page.
pub record IsEmpty (z : Zram) (index : ℕ) : Type 0 where
  pub addr : ℕ
  pub found : get_elem? z.table index ≡ some addr
  pub frame : addr / 4096 ≡ 0
  pub even : addr % 2 ≡ 0

-- What a release leaves.
pub record IsReleased (cpus index : ℕ) (z : Zram) : Type 0 where
  pub counted : IsCounted cpus z
  pub empty : IsEmpty z index

pub zram_find_obj_lem : (addr : ℕ) → zram_find_obj addr ≡ (addr / 4096, addr % 4096)
unfolding zram_find_obj
zram_find_obj_lem addr = elim (Bool-cases (addr == 0)) [
  | inl e ↦ let q : addr ≡ 0 = ground arith in rw (e, q) refl
  | inr n ↦ rw n refl
]

module _ (cpus cpu : ℕ) (lt : cpu < cpus) (index addr : ℕ) (z : Zram) (v : IsCounted cpus z)
    (e : get_elem? z.table index ≡ some addr) where
  -- What the label `out` counts.
  forgotten :
      (zlen i : ℕ) (w : Zram)
      → zram_get_stat cpus 7 (forget cpu i zlen w)
        ≡ (zram_get_stat cpus 7 w + (2 ^ 64 - 1)) % 2 ^ 64
  unfolding zram_dec_stat
  forgotten zlen i w =
      let counted = zram_add_stat cpu 0 (2 ^ 64 - zlen) w in
      get_same cpus 7 (zram_dec_stat cpu 7 counted) (forget cpu i zlen w) refl
      ∙ get_self cpus cpu 7 (2 ^ 64 - 1) counted lt
      ∙ ap (λ n. (n + (2 ^ 64 - 1)) % 2 ^ 64)
          (get_other cpus cpu 0 (2 ^ 64 - zlen) 7 w lt (omega arith))

  forgotten_other :
      (zlen i idx : ℕ) (w : Zram)
      → idx ≢ 7
      → idx ≢ 0
      → zram_get_stat cpus idx (forget cpu i zlen w) ≡ zram_get_stat cpus idx w
  unfolding zram_dec_stat
  forgotten_other zlen i idx w a b =
      let counted = zram_add_stat cpu 0 (2 ^ 64 - zlen) w in
      get_same cpus idx (zram_dec_stat cpu 7 counted) (forget cpu i zlen w) refl
      ∙ get_other cpus cpu 7 (2 ^ 64 - 1) idx counted lt a
      ∙ get_other cpus cpu 0 (2 ^ 64 - zlen) idx w lt b

  emptied :
      (z' : Zram) (new : ℕ)
      → z'.table ≡ set z.table index new
      → new / 4096 ≡ 0
      → new % 2 ≡ 0
      → IsEmpty z' index
  emptied z' new t f g = record {
    addr = new;
    found = ap (λ table. get_elem? table index) t ∙ get_elem?-set_self z.table index new addr e;
    frame = f;
    even = g;
  }

  zero_page-IsReleased :
      addr % 2 ≡ 1
      → IsReleased cpus index (zram_dec_stat cpu 6 (set_entry index (addr - addr % 2) z))
  unfolding zram_dec_stat zram_add_stat
  zero_page-IsReleased odd =
      let w = set_entry index (addr - addr % 2) z in
      let z' = zram_dec_stat cpu 6 w in
      let flat : addr / 4096 ≡ 0 = v.shapes index addr e odd in
      let other : (idx : ℕ) → idx ≢ 6 → zram_get_stat cpus idx z' ≡ zram_get_stat cpus idx z =
        λ idx n. get_other cpus cpu 6 (2 ^ 64 - 1) idx w lt n ∙ get_same cpus idx z w refl in
      let self : zram_get_stat cpus 6 z' ≡ (zram_get_stat cpus 6 z + (2 ^ 64 - 1)) % 2 ^ 64 =
        get_self cpus cpu 6 (2 ^ 64 - 1) w lt
        ∙ ap (λ n. (n + (2 ^ 64 - 1)) % 2 ^ 64) (get_same cpus 6 z w refl) in
      record {
        counted =
            set-IsCounted cpus index addr (addr - addr % 2) z z' v e refl (λ o. omega arith)
              (stays (zram_get_stat cpus 7 z) (is_stored addr) (is_stored (addr - addr % 2))
                (omega (arith, v.stored)) (other 7 (omega arith)) (ground arith))
              (falls (zram_get_stat cpus 6 z) (is_zero addr) (is_zero (addr - addr % 2)) self
                (ground arith) (ground arith))
              (stays (zram_get_stat cpus 8 z) (is_expanded addr) (is_expanded (addr - addr % 2))
                (omega (arith, v.expanded)) (other 8 (omega arith)) (ground arith));
        empty = emptied z' (addr - addr % 2) refl (omega arith) (omega arith);
      }

  -- An object: its page or its block is given back in `w`, which has counted `fell` for a page that is not
  -- compressed.
  object-IsReleased :
      (zlen : ℕ) (w : Zram)
      → w.table ≡ z.table
      → (addr / 4096 ≢ 0)
      → addr % 2 ≡ 0
      → zram_get_stat cpus 7 w ≡ zram_get_stat cpus 7 z
      → zram_get_stat cpus 6 w ≡ zram_get_stat cpus 6 z
      → Moves cpus 8 z w (is_expanded addr) false
      → IsReleased cpus index (forget cpu index zlen w)
  unfolding zram_dec_stat zram_add_stat
  object-IsReleased zlen w t ne even s7 s6 s8 =
      let z' = forget cpu index zlen w in
      let table : z'.table ≡ set z.table index 0 = ap (λ u. set u index 0) t in
      record {
        counted =
            set-IsCounted cpus index addr 0 z z' v e table (λ o. refl)
              (falls (zram_get_stat cpus 7 z) (is_stored addr) false
                (forgotten zlen index w ∙ ap (λ n. (n + (2 ^ 64 - 1)) % 2 ^ 64) s7) (ground arith)
                refl)
              (stays (zram_get_stat cpus 6 z) (is_zero addr) false (omega (arith, v.zeros))
                (forgotten_other zlen index 6 w (omega arith) (omega arith) ∙ s6) (ground arith))
              (forgotten_other zlen index 8 w (omega arith) (omega arith) ∙ s8);
        empty = emptied z' 0 table refl refl;
      }

  tables : (w : Zram) → (zram_add_stat cpu 8 (2 ^ 64 - 1) w).table ≡ w.table
  unfolding zram_add_stat
  tables w = refl

  page-IsReleased :
      addr / 4096 ≢ 0
      → addr % 4096 ≡ 0
      → IsReleased cpus index
          (forget cpu index 4096 (zram_dec_stat cpu 8 (record z { freed = addr / 4096 ∷ z.freed })))
  unfolding zram_dec_stat
  page-IsReleased ne flat =
      let w = record z { freed = addr / 4096 ∷ z.freed } in
      let w' = zram_add_stat cpu 8 (2 ^ 64 - 1) w in
      let other : (idx : ℕ) → idx ≢ 8 → zram_get_stat cpus idx w' ≡ zram_get_stat cpus idx z =
        λ idx n. get_other cpus cpu 8 (2 ^ 64 - 1) idx w lt n ∙ get_same cpus idx z w refl in
      object-IsReleased 4096 w' (tables w) ne (omega arith) (other 7 (omega arith))
        (other 6 (omega arith))
        (falls (zram_get_stat cpus 8 z) (is_expanded addr) false
          (get_self cpus cpu 8 (2 ^ 64 - 1) w lt
            ∙ ap (λ n. (n + (2 ^ 64 - 1)) % 2 ^ 64) (get_same cpus 8 z w refl))
          (ground arith) refl)

  block-IsReleased :
      (zlen : ℕ) (h : Heap)
      → addr / 4096 ≢ 0
      → addr % 4096 ≢ 0
      → addr % 2 ≡ 0
      → IsReleased cpus index (forget cpu index zlen (record z { heap = h }))
  block-IsReleased zlen h ne off even =
      let w = record z { heap = h } in
      let same : (idx : ℕ) → zram_get_stat cpus idx w ≡ zram_get_stat cpus idx z =
        λ idx. get_same cpus idx z w refl in
      object-IsReleased zlen w refl ne even (same 7) (same 6) (
        stays (zram_get_stat cpus 8 z) (is_expanded addr) false (omega (arith, v.expanded)) (same 8)
          (ground arith))

  free_entry-IsReleased :
      {z' : Zram} → free_entry cpu index addr z ≡ some z' → IsReleased cpus index z'
  unfolding free_entry zram_is_zero_page zram_clear_zero_page
  free_entry-IsReleased {z'} f = elim (if-branches (addr % 2 == 1) f) [
    | inl (odd, g) ↦
        subst (IsReleased cpus index) (some-inj g) (zero_page-IsReleased (ground arith))
    | inr (even, g) ↦ elim (if-branches (addr / 4096 == 0) (rw (zram_find_obj_lem addr) at g)) [
      | inl (no_page, h) ↦ subst (IsReleased cpus index) (some-inj h) (record {
        counted = v;
        empty = record { addr = addr; found = e; frame = ground arith; even = ground arith };
      })
      | inr (page, h) ↦ elim (if-branches (addr % 4096 == 0) h) [
        | inl (whole, k) ↦
            subst (IsReleased cpus index) (some-inj k)
              (page-IsReleased (ground arith) (ground arith))
        | inr (part, k) ↦
            let (r, _, last) = bind-eq-some (xv_free (addr / 4096) (addr % 4096) z.heap) _ k in
            subst (IsReleased cpus index) (some-inj last) (
              block-IsReleased (xv_get_object_size (addr / 4096) (addr % 4096) z.heap) r.1
                (ground arith) (ground arith) (ground arith))
      ]
    ]
  ]

-- Where the sums of the counters are those of the table, they still are when `zram_free_page` has
-- returned, and the entry that it freed is empty.
pub zram_free_page-IsReleased :
    (cpus cpu index : ℕ) (z : Zram) {z' : Zram}
    → cpu < cpus
    → IsCounted cpus z
    → zram_free_page cpu index z ≡ some z'
    → IsReleased cpus index z'
unfolding zram_free_page
zram_free_page-IsReleased cpus cpu index z {z'} lt v e = by_entry (get_elem? z.table index) refl e
  where
    by_entry :
        (o : Option ℕ)
        → get_elem? z.table index ≡ o
        → free_found cpu index o z ≡ some z'
        → IsReleased cpus index z'
    by_entry none q d = absurd cc
    by_entry (some addr) q d = free_entry-IsReleased cpus cpu lt index addr z v q d

-- The loop of `zram_discard`.
pub discard_pages-IsCounted :
    (cpus cpu n index : ℕ) (z : Zram) {z' : Zram}
    → cpu < cpus
    → IsCounted cpus z
    → discard_pages cpu n index z ≡ some z'
    → IsCounted cpus z'
unfolding discard_pages
discard_pages-IsCounted cpus cpu zero index z lt v e = subst (IsCounted cpus) (some-inj e) v
discard_pages-IsCounted cpus cpu (suc n) index z lt v e =
    let (w, freed, rest) = bind-eq-some (zram_free_page cpu index z) _ e in
    discard_pages-IsCounted cpus cpu n (index + 1) w lt
      (zram_free_page-IsReleased cpus cpu index z lt v freed).counted rest
