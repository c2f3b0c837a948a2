-- ===== src/Scale/Written.antt =====
-- zram_scale: a page that `zram_write` writes keeps the sums of the counters right.
use compcache.Common.{
  ℕ, ◌+◌, ◌*◌, ◌/◌, ◌%◌, ◌^◌, ◌<◌, ◌≡◌, ◌≢◌, refl, ap, ◌∙◌, subst, inl, inr, Bool, true, false, not,
  some, List, ◌==◌, ltb, if◌then◌else◌, length, set, some-inj, arith, Bool-cases, if-branches,
}
use compcache.Common.Errno.{Code, success, enomem, einval, ebusy}
use compcache.Table.{page_zero_filled}
use compcache.Device.Bind.{bind-eq-some}
use compcache.Request.{Lzo, Segment}
use compcache.Xvmalloc.{Malloced, xv_malloc}
use compcache.Scale.{
  Zram, set_entry, zram_add_stat, zram_inc_stat, zram_get_stat, zram_set_zero_page, zram_insert_obj,
  zram_free_page, store_object, write_uncompressed, write_malloced, write_released, write_page,
}
use compcache.Scale.Counters.{
  is_stored, is_zero, is_expanded, IsCounted, Moves, set-IsCounted, get_self, get_other, get_same,
  stays, grows,
}
use compcache.Scale.Placed.{HasHeads, IsPlaced, xv_malloc-IsPlaced}
use compcache.Scale.Released.{IsReleased, zram_free_page-IsReleased}

module _ (cpus cpu : ℕ) (lt : cpu < cpus) (index : ℕ) (z : Zram) (r : IsReleased cpus index z) where
  zero_page-IsCounted :
      IsCounted cpus (set_entry index (zram_set_zero_page (r.empty.addr)) (zram_inc_stat cpu 6 z))
  unfolding zram_inc_stat zram_set_zero_page zram_add_stat
  zero_page-IsCounted =
      let addr = r.empty.addr in
      let frame = r.empty.frame in
      let even = r.empty.even in
      let w = zram_add_stat cpu 6 1 z in
      let z' = set_entry index (if addr % 2 == 1 then addr else addr + 1) w in
      let new : (if addr % 2 == 1 then addr else addr + 1) ≡ addr + 1 = ground arith in
      let other : (idx : ℕ) → idx ≢ 6 → zram_get_stat cpus idx z' ≡ zram_get_stat cpus idx z =
        λ idx n. get_same cpus idx w z' refl ∙ get_other cpus cpu 6 1 idx z lt n in
      let self : zram_get_stat cpus 6 z' ≡ (zram_get_stat cpus 6 z + 1) % 2 ^ 64 =
        get_same cpus 6 w z' refl ∙ get_self cpus cpu 6 1 z lt in
      set-IsCounted cpus index addr (addr + 1) z z' r.counted r.empty.found
        (ap (set z.table index) new) (λ o. omega arith)
        (stays (zram_get_stat cpus 7 z) (is_stored addr) (is_stored (addr + 1))
          (omega (arith, r.counted.stored)) (other 7 (omega arith)) (ground arith))
        (grows (zram_get_stat cpus 6 z) (is_zero addr) (is_zero (addr + 1)) self (ground arith)
          (ground arith))
        (stays (zram_get_stat cpus 8 z) (is_expanded addr) (is_expanded (addr + 1))
          (omega (arith, r.counted.expanded)) (other 8 (omega arith)) (ground arith))

  -- An object at an offset of a page: `w` has counted it where its page is not compressed.
  object-IsCounted :
      (page offset zlen : ℕ) (src : List ℕ) (w : Zram)
      → page ≢ 0
      → page < 2 ^ 52
      → offset < 2 ^ 12
      → offset % 2 ≡ 0
      → w.table ≡ z.table
      → zram_get_stat cpus 7 w ≡ zram_get_stat cpus 7 z
      → zram_get_stat cpus 6 w ≡ zram_get_stat cpus 6 z
      → Moves cpus 8 z w false (offset == 0)
      → IsCounted cpus (store_object cpu index page offset zlen src w).2
  unfolding store_object zram_inc_stat zram_insert_obj zram_add_stat
  object-IsCounted page offset zlen src w ne lo small even t s7 s6 s8 =
      let addr = r.empty.addr in
      let frame = r.empty.frame in
      let clear = r.empty.even in
      let new = page * 2 ^ 12 % 2 ^ 64 + offset % 2 ^ 12 in
      let z' = (store_object cpu index page offset zlen src w).2 in
      let stored : Zram = record w { store = z'.store } in
      let sized = zram_add_stat cpu 0 zlen stored in
      let counted = zram_add_stat cpu 7 1 sized in
      let other : (idx : ℕ)
          → idx ≢ 7
          → idx ≢ 0
          → zram_get_stat cpus idx z' ≡ zram_get_stat cpus idx w =
        λ idx a b.
          get_same cpus idx counted z' refl
          ∙ get_other cpus cpu 7 1 idx sized lt a
          ∙ get_other cpus cpu 0 zlen idx stored lt b
          ∙ get_same cpus idx w stored refl in
      let self : zram_get_stat cpus 7 z' ≡ (zram_get_stat cpus 7 z + 1) % 2 ^ 64 =
        get_same cpus 7 counted z' refl
        ∙ get_self cpus cpu 7 1 sized lt
        ∙ ap (λ n. (n + 1) % 2 ^ 64)
            (get_other cpus cpu 0 zlen 7 stored lt (omega arith)
              ∙ get_same cpus 7 w stored refl
              ∙ s7) in
      let high : new / 4096 ≡ page = omega arith in
      let low : new % 4096 ≡ offset = omega arith in
      let parity : new % 2 ≡ 0 = omega arith in
      let before : is_expanded addr ≡ false = ground arith in
      let after : is_expanded new ≡ (offset == 0) = ground arith in
      set-IsCounted cpus index addr new z z' r.counted r.empty.found (ap (λ u. set u index new) t)
        (λ o. omega arith)
        (grows (zram_get_stat cpus 7 z) (is_stored addr) (is_stored new) self (ground arith)
          (ground arith))
        (stays (zram_get_stat cpus 6 z) (is_zero addr) (is_zero new)
          (omega (arith, r.counted.zeros)) (other 6 (omega arith) (omega arith) ∙ s6)
          (ground arith))
        (rw (before, after) (other 8 (omega arith) (omega arith) ∙ s8))

  table-add_stat : (zram_add_stat cpu 8 1 z).table ≡ z.table
  unfolding zram_add_stat
  table-add_stat = refl

  write_uncompressed-IsCounted :
      (s : Segment) → s.fresh < 2 ^ 52 → IsCounted cpus (write_uncompressed cpu index s z).2
  unfolding write_uncompressed zram_inc_stat
  write_uncompressed-IsCounted s lo = elim (Bool-cases (s.fresh == 0)) [
    | inl e ↦ rw e (r.counted)
    | inr n ↦
        let w = zram_add_stat cpu 8 1 z in
        rw n (
          object-IsCounted s.fresh 0 4096 (z.store s.fresh 0) w (ground arith) lo (omega arith) refl
            table-add_stat (get_other cpus cpu 8 1 7 z lt (omega arith))
            (get_other cpus cpu 8 1 6 z lt (omega arith))
            (grows (zram_get_stat cpus 8 z) false true (get_self cpus cpu 8 1 z lt) refl refl))
  ]

  write_malloced-IsCounted :
      (src : List ℕ) (m : Malloced)
      → IsPlaced m
      → IsCounted cpus (write_malloced cpu index src m z).2
  write_malloced-IsCounted src m placed = by_code (m.code) refl
    where
      same :
          (idx : ℕ) → zram_get_stat cpus idx (record z { heap = m.heap }) ≡ zram_get_stat cpus idx z
      same idx = get_same cpus idx z _ refl

      failed : IsCounted cpus (record z { heap = m.heap })
      failed = record {
        stored = same 7 ∙ r.counted.stored;
        zeros = same 6 ∙ r.counted.zeros;
        expanded = same 8 ∙ r.counted.expanded;
        shapes = r.counted.shapes;
      }

      by_code : (c : Code) → m.code ≡ c → IsCounted cpus (write_malloced cpu index src m z).2
      by_code success q =
          let (ne, lo, off, small, even) = placed q in
          rw (q, write_malloced)
            (object-IsCounted m.page m.offset (length src) src (record z { heap = m.heap }) ne lo
              small even refl (same 7) (same 6)
              (stays (zram_get_stat cpus 8 z) false (m.offset == 0)
                (omega (arith, r.counted.expanded)) (same 8) (ground arith)))
      by_code enomem q = rw (q, write_malloced) failed
      by_code einval q = rw (q, write_malloced) failed
      by_code ebusy q = rw (q, write_malloced) failed

  write_released-IsCounted :
      (lzo : Lzo) (buffers : Bool) (s : Segment) {p : Bool × ℕ × Zram}
      → s.fresh < 2 ^ 52
      → IsPlaced (xv_malloc s.fresh (length (lzo.compress s.bytes).1) z.heap)
      → write_released lzo buffers cpu index s z ≡ some p
      → IsCounted cpus p.2
  unfolding write_released
  write_released-IsCounted lzo buffers s {p} lo placed e = elim (if-branches (not buffers) e) [
    | inl (_, f) ↦ subst (λ (q : Bool × ℕ × Zram). IsCounted cpus q.2) (some-inj f) (r.counted)
    | inr (_, f) ↦ elim (if-branches (page_zero_filled s.bytes) f) [
      | inl (_, g) ↦
          subst (λ (q : Bool × ℕ × Zram). IsCounted cpus q.2) (some-inj (rw (r.empty.found) at g))
            zero_page-IsCounted
      | inr (_, g) ↦
          subst (λ (q : Bool × ℕ × Zram). IsCounted cpus q.2) (some-inj g)
            (elim (Bool-cases (lzo.compress s.bytes).0) [
              | inr bad ↦ rw bad (r.counted)
              | inl ok ↦ elim (Bool-cases (ltb 3584 (length (lzo.compress s.bytes).1))) [
                | inl big ↦ rw (ok, big) (write_uncompressed-IsCounted s lo)
                | inr fits ↦ rw (ok, fits) (write_malloced-IsCounted _ _ placed)
              ]
            ])
    ]
  ]

-- Where the sums of the counters of stored, zero-filled and uncompressed pages are those of the table,
-- they still are when `zram_write` has written a page, with success or not: on any of the possible CPUs,
-- where the new page is in the range of an address and so are, after the release of the old entry, the
-- blocks at the heads of the pool's lists, at multiples of 4.
pub write_page-IsCounted :
    (cpus cpu index : ℕ) (lzo : Lzo) (buffers : Bool) (s : Segment) (z : Zram) {p : Bool × ℕ × Zram}
    → cpu < cpus
    → s.fresh < 2 ^ 52
    → IsCounted cpus z
    → ((w : Zram) → zram_free_page cpu index z ≡ some w → HasHeads w.heap.pool)
    → write_page lzo buffers cpu index s z ≡ some p
    → IsCounted cpus p.2
unfolding write_page
write_page-IsCounted cpus cpu index lzo buffers s z lt lo v heads e =
    let (w, freed, rest) = bind-eq-some (zram_free_page cpu index z) _ e in
    let size = length (lzo.compress s.bytes).1 in
    write_released-IsCounted cpus cpu lt index w
      (zram_free_page-IsReleased cpus cpu index z lt v freed) lzo buffers s lo
      (xv_malloc-IsPlaced s.fresh size w.heap lo (heads w freed)) rest
