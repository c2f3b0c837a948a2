-- ===== src/Handler/Valid.antt =====
-- `valid_io_request` of zram_drv.c: what it checks, and what it does not.
use mathlib.Core.Logic.{◌↔◌}
use compcache.Common.{
  ℕ, zero, suc, ◌+◌, ◌-◌, ◌*◌, ◌/◌, sym, some-inj, ◌%◌, ◌^◌, ◌≤◌, ◌<◌, ◌≡◌, refl, ap, ◌∙◌, inl, inr,
  true, none, some, List, [], ◌∷◌, length, get_elem?, length-set, Option-cases, arith,
}
use compcache.Table.{Zram, zram_free_page}
use compcache.Table.Count.{IsCounted}
use compcache.Table.Free.{zram_free_page-Released}
use compcache.Device.{Memory, bind}
use compcache.Device.Bind.{bind-eq-some}
use compcache.Request.{Lzo, Bio, discard_pages, end_discard, zram_discard}
use compcache.Handler.{valid_io_request, zram_make_request}

-- `valid_io_request` accepts exactly the requests that begin in the disk at the start of a page and
-- have a whole number of pages.
pub valid_io_request_iff :
    (z : Zram) (b : Bio)
    → (valid_io_request z b ≡ true)
      ↔ ((b.sector < z.disksize / 512) × (b.sector % 8 ≡ 0) × (b.size % 4096 ≡ 0))
unfolding valid_io_request
valid_io_request_iff z b = ground arith

get_elem?_outside {ℓ} : {A : Type ℓ} (xs : List A) (i : ℕ) → length xs ≤ i → get_elem? xs i ≡ none
get_elem?_outside [] i h = refl
get_elem?_outside (x ∷ xs) zero h = absurd (omega arith)
get_elem?_outside (x ∷ xs) (suc i) h = get_elem?_outside xs i (omega arith)

free_outside : (z : Zram) (i : ℕ) → length z.table ≤ i → zram_free_page z i ≡ none
unfolding zram_free_page
free_outside z i h = rw (get_elem?_outside z.table i h)

-- A discard of `a` pages and `n` more is one of `a` pages, and then one of `n`.
discard_pages-add :
    (a n i : ℕ) (z : Zram)
    → i + a < 2 ^ 32
    → discard_pages (a + n) i z ≡ bind (discard_pages a i z) (discard_pages n (i + a))
unfolding discard_pages
discard_pages-add zero n i z wrap =
    let same : 0 + n ≡ n = omega arith in let here : i + 0 ≡ i = omega arith in rw (same, here) refl
discard_pages-add (suc a) n i z wrap =
    let same : suc a + n ≡ suc (a + n) = omega arith in
    let behind : i + suc a ≡ suc i + a = omega arith in
    let next : (i + 1) % 2 ^ 32 ≡ suc i = omega arith in
    elim (Option-cases (zram_free_page z i)) [
      | inl e ↦ rw (same, e) refl
      | inr (z', e) ↦
          rw (same, behind, e, next) (discard_pages-add a n (suc i) z' (omega (arith, wrap)))
    ]

discard_pages-length :
    (n i : ℕ) (z : Zram) {z' : Zram}
    → IsCounted z.table z.stats
    → discard_pages n i z ≡ some z'
    → length z'.table ≡ length z.table
unfolding discard_pages
discard_pages-length zero i z v e = ap (λ (x : Zram). length x.table) (sym (some-inj e))
discard_pages-length (suc n) i z v e =
    let (z1, freed, rest) = bind-eq-some (zram_free_page z i) _ e in
    let r = zram_free_page-Released i v freed in
    discard_pages-length n ((i + 1) % 2 ^ 32) z1 r.counted rest
    ∙ ap length r.table
    ∙ length-set z.table i r.slot

discard_pages-outside :
    (n : ℕ) (z : Zram) (i : ℕ) → 0 < n → length z.table ≤ i → discard_pages n i z ≡ none
unfolding discard_pages
discard_pages-outside zero z i lt le = absurd (omega arith)
discard_pages-outside (suc n) z i lt le = rw (free_outside z i le) refl

-- The request, cut at the end of the table.
abbrev pub cut_at_end : Zram → Bio → Bio
cut_at_end z b = record b { size = (length z.table - b.sector / 8) * 4096 }

-- A discard that `valid_io_request` accepts, that begins in the table or at its end and goes on
-- behind it, with page indices below 2 ^ 32, on an initialised disk whose counters fit its table, where
-- the pages up to the end of the table are discarded without a BUG: cut at the end of the table, the
-- request is served; as it is, `zram_make_request` faults, since the entry that it comes to after
-- those pages is not in the table, which is as long as before.
pub discard-faults :
    (lzo : Lzo) (m : Memory) (z z' : Zram) (b : Bio)
    → z.init_done ≡ true
    → IsCounted z.table z.stats
    → valid_io_request z b ≡ true
    → b.is_discard ≡ true
    → b.sector / 8 ≤ length z.table
    → length z.table < b.sector / 8 + b.size / 4096
    → b.sector / 8 + b.size / 4096 < 2 ^ 32
    → discard_pages (length z.table - b.sector / 8) (b.sector / 8) z ≡ some z'
    → (zram_make_request lzo m z (cut_at_end z b) ≡ end_discard b z')
      × (length z'.table ≡ length z.table)
      × (get_elem? z'.table (length z.table) ≡ none)
      × (zram_make_request lzo m z b ≡ none)
unfolding zram_make_request zram_discard valid_io_request
discard-faults lzo m z z' b done v valid discarding lo hi wrap inside =
    let same = discard_pages-length (length z.table - b.sector / 8) (b.sector / 8) z v inside in
    let i : b.sector / 8 % 2 ^ 32 ≡ b.sector / 8 = omega arith in
    let n : b.size / 4096 % 2 ^ 32 ≡ b.size / 4096 = omega arith in
    let len = length z.table - b.sector / 8 in
    let parts : b.size / 4096 ≡ len + (b.sector / 8 + b.size / 4096 - length z.table) =
      omega arith in
    let at_end : b.sector / 8 + len ≡ length z.table = omega arith in
    let left = b.sector / 8 + b.size / 4096 - length z.table in
    let behind : discard_pages left (length z.table) z' ≡ none =
      discard_pages-outside left z' (length z.table) (omega arith) (omega (arith, same)) in
    let faults : discard_pages (b.size / 4096) (b.sector / 8) z ≡ none =
      ap (λ k. discard_pages k (b.sector / 8) z) parts
      ∙ discard_pages-add len left (b.sector / 8) z (omega arith)
      ∙ rw (inside, at_end, behind) refl in
    let cut : len * 4096 / 4096 % 2 ^ 32 ≡ len = omega arith in
    let whole : len * 4096 % 4096 ≡ 0 = omega arith in
    let (starts, aligned, _) = (valid_io_request_iff z b).0 valid in
    let valid' : valid_io_request z (cut_at_end z b) ≡ true =
      (valid_io_request_iff z (cut_at_end z b)).1 (starts, aligned, whole) in
    (
      simp (valid', discarding, done, i, cut, inside),
      same,
      get_elem?_outside z'.table (length z.table) (omega (arith, same)),
      simp (valid, discarding, done, i, n, faults),
    )
