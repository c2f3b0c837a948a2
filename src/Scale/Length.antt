-- ===== src/Scale/Length.antt =====
-- zram_scale: the table keeps its length while its entries are freed and written.
use compcache.Common.{
  ℕ, zero, suc, ◌+◌, ◌≡◌, refl, sym, ap, ◌∙◌, inl, inr, Bool, true, false, not, if◌then◌else◌,
  Option, none, some, List, [], ◌∷◌, ◌==◌, ltb, length, get_elem?, length-set, some-inj, Bool-cases,
  if-branches,
}
use compcache.Common.Errno.{Code, success, enomem, einval, ebusy}
use compcache.Table.{page_zero_filled}
use compcache.Device.Bind.{bind-eq-some}
use compcache.Request.{Lzo, Segment}
use compcache.Xvmalloc.{Malloced, xv_malloc, xv_free}
use compcache.Scale.{
  Zram, zram_add_stat, zram_inc_stat, zram_dec_stat, zram_is_zero_page, zram_find_obj,
  zram_set_zero_page, zram_clear_zero_page, forget, free_entry, free_found, zram_free_page,
  set_found, store_object, write_uncompressed, write_malloced, write_released, write_page,
  write_segments, discard_pages,
}

-- A table with as many entries.
abbrev pub IsAsLong : Zram → Zram → Type 0
IsAsLong z z' = length z'.table ≡ length z.table

forget-IsAsLong :
    (cpu index zlen : ℕ) (z z' : Zram) → IsAsLong z z' → IsAsLong z (forget cpu index zlen z')
unfolding zram_dec_stat zram_add_stat
forget-IsAsLong cpu index zlen z z' e = length-set z'.table index 0 ∙ e

free_entry-IsAsLong :
    (cpu index addr : ℕ) (z : Zram) {z' : Zram}
    → free_entry cpu index addr z ≡ some z'
    → IsAsLong z z'
unfolding free_entry zram_dec_stat zram_add_stat
free_entry-IsAsLong cpu index addr z {z'} e = elim (if-branches (zram_is_zero_page addr) e) [
  | inl (_, f) ↦
      sym (ap (λ (w : Zram). length w.table) (some-inj f))
      ∙ length-set z.table index (zram_clear_zero_page addr)
  | inr (_, f) ↦ elim (if-branches ((zram_find_obj addr).0 == 0) f) [
    | inl (_, g) ↦ sym (ap (λ (w : Zram). length w.table) (some-inj g))
    | inr (_, g) ↦ elim (if-branches ((zram_find_obj addr).1 == 0) g) [
      | inl (_, h) ↦
          sym (ap (λ (w : Zram). length w.table) (some-inj h)) ∙ length-set z.table index 0
      | inr (_, h) ↦
          let (r, _, last) =
            bind-eq-some (xv_free (zram_find_obj addr).0 (zram_find_obj addr).1 z.heap) _ h in
          sym (ap (λ (w : Zram). length w.table) (some-inj last)) ∙ length-set z.table index 0
    ]
  ]
]

pub zram_free_page-IsAsLong :
    (cpu index : ℕ) (z : Zram) {z' : Zram} → zram_free_page cpu index z ≡ some z' → IsAsLong z z'
unfolding zram_free_page
zram_free_page-IsAsLong cpu index z {z'} e = by_entry (get_elem? z.table index) e
  where
    by_entry : (o : Option ℕ) → free_found cpu index o z ≡ some z' → IsAsLong z z'
    by_entry none q = absurd cc
    by_entry (some addr) q = free_entry-IsAsLong cpu index addr z q

pub discard_pages-IsAsLong :
    (cpu n index : ℕ) (z : Zram) {z' : Zram} → discard_pages cpu n index z ≡ some z' → IsAsLong z z'
unfolding discard_pages
discard_pages-IsAsLong cpu zero index z e = ap (λ (w : Zram). length w.table) (sym (some-inj e))
discard_pages-IsAsLong cpu (suc n) index z e =
    let (w, freed, rest) = bind-eq-some (zram_free_page cpu index z) _ e in
    discard_pages-IsAsLong cpu n (index + 1) w rest ∙ zram_free_page-IsAsLong cpu index z freed

store_object-IsAsLong :
    (cpu index page offset zlen : ℕ) (src : List ℕ) (z : Zram)
    → IsAsLong z (store_object cpu index page offset zlen src z).2
unfolding store_object zram_inc_stat zram_add_stat
store_object-IsAsLong cpu index page offset zlen src z = length-set z.table index _

write_uncompressed-IsAsLong :
    (cpu index : ℕ) (s : Segment) (z : Zram) → IsAsLong z (write_uncompressed cpu index s z).2
unfolding write_uncompressed zram_inc_stat zram_add_stat
write_uncompressed-IsAsLong cpu index s z = elim (Bool-cases (s.fresh == 0)) [
  | inl e ↦ rw e refl
  | inr n ↦ rw n (store_object-IsAsLong cpu index s.fresh 0 4096 (z.store s.fresh 0) _)
]

write_malloced-IsAsLong :
    (cpu index : ℕ) (src : List ℕ) (m : Malloced) (z : Zram)
    → IsAsLong z (write_malloced cpu index src m z).2
write_malloced-IsAsLong cpu index src m z = by_code (m.code) refl
  where
    by_code : (c : Code) → m.code ≡ c → IsAsLong z (write_malloced cpu index src m z).2
    by_code success q =
        rw (q, write_malloced) (store_object-IsAsLong cpu index m.page m.offset (length src) src _)
    by_code enomem q = rw (q, write_malloced) refl
    by_code einval q = rw (q, write_malloced) refl
    by_code ebusy q = rw (q, write_malloced) refl

module _ (lzo : Lzo) (buffers : Bool) (cpu : ℕ) where
  write_released-IsAsLong :
      (index : ℕ) (s : Segment) (z : Zram) {r : Bool × ℕ × Zram}
      → write_released lzo buffers cpu index s z ≡ some r
      → IsAsLong z r.2
  unfolding write_released zram_inc_stat zram_add_stat
  write_released-IsAsLong index s z {r} e = elim (if-branches (not buffers) e) [
    | inl (_, f) ↦ ap (λ (p : Bool × ℕ × Zram). length p.2.table) (sym (some-inj f))
    | inr (_, f) ↦ elim (if-branches (page_zero_filled s.bytes) f) [
      | inl (_, g) ↦ by_entry (get_elem? z.table index) g
      | inr (_, g) ↦
          ap (λ (p : Bool × ℕ × Zram). length p.2.table) (sym (some-inj g))
          ∙ compressed ((lzo.compress s.bytes).0) (ltb 3584 (length (lzo.compress s.bytes).1))
    ]
  ]
    where
      by_entry : (o : Option ℕ) → set_found cpu index o z ≡ some r → IsAsLong z r.2
      by_entry none q = absurd cc
      by_entry (some addr) q =
          ap (λ (p : Bool × ℕ × Zram). length p.2.table) (sym (some-inj q))
          ∙ length-set z.table index (zram_set_zero_page addr)

      compressed :
          (ok big : Bool)
          → length
              (if not ok
                then (false, index, z)
                else (if big
                    then write_uncompressed cpu index s z
                    else write_malloced cpu index
                        (lzo.compress s.bytes).1
                        (xv_malloc s.fresh (length (lzo.compress s.bytes).1) z.heap)
                        z)).2.table
            ≡ length z.table
      compressed false big = refl
      compressed true true = write_uncompressed-IsAsLong cpu index s z
      compressed true false = write_malloced-IsAsLong cpu index _ _ z

  write_page-IsAsLong :
      (index : ℕ) (s : Segment) (z : Zram) {r : Bool × ℕ × Zram}
      → write_page lzo buffers cpu index s z ≡ some r
      → IsAsLong z r.2
  unfolding write_page
  write_page-IsAsLong index s z e =
      let (w, freed, rest) = bind-eq-some (zram_free_page cpu index z) _ e in
      write_released-IsAsLong index s w rest ∙ zram_free_page-IsAsLong cpu index z freed

  pub write_segments-IsAsLong :
      (index : ℕ) (segments : List Segment) (z : Zram) {r : Bool × Zram}
      → write_segments lzo buffers cpu index segments z ≡ some r
      → IsAsLong z r.1
  unfolding write_segments
  write_segments-IsAsLong index [] z e =
      ap (λ (p : Bool × Zram). length p.1.table) (sym (some-inj e))
  write_segments-IsAsLong index (s ∷ segments) z {r} e =
      let (p, written, rest) = bind-eq-some (write_page lzo buffers cpu index s z) _ e in
      continue p (λ i w q. write_segments-IsAsLong i segments w q) rest
      ∙ write_page-IsAsLong index s z written
    where
      continue :
          (p : Bool × ℕ × Zram)
          → ((i : ℕ) (w : Zram)
              → write_segments lzo buffers cpu i segments w ≡ some r
              → IsAsLong w r.1)
          → elim (p.0) [
            | true ↦ write_segments lzo buffers cpu p.1 segments p.2
            | false ↦ some (false, p.2)
          ]
            ≡ some r
          → IsAsLong p.2 r.1
      continue (true, i, w) keep q = keep i w q
      continue (false, i, w) keep q = ap (λ (p : Bool × Zram). length p.1.table) (sym (some-inj q))
