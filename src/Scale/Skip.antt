-- ===== src/Scale/Skip.antt =====
-- zram_scale: where `zram_write` and `zram_read` stay at a table entry.
use compcache.Common.{
  ℕ, ◌≡◌, ◌≢◌, ◌⊎◌, refl, sym, ◌∙◌, inl, inr, true, some, List, [], ◌∷◌, map, get_elem?, set,
  get_elem?-set_self, get_elem?-set_ne,
}
use compcache.Table.{page_zero_filled}
use compcache.Request.{Lzo, Segment, handle_zero_page}
use compcache.Scale.{
  Zram, zram_find_obj, zram_is_zero_page, zram_set_zero_page, zram_clear_zero_page, zram_free_page,
  free_entry, write_released, write_page, write_segments, read_entry, read_segments, zram_inc_stat,
  zram_dec_stat, zram_add_stat,
}

-- Every page of a request is all zeros.
abbrev pub AllZero : List Segment → Type 0
AllZero [] = Unit
AllZero (s ∷ segments) = (page_zero_filled s.bytes ≡ true) × AllZero segments

-- A table entry that holds nothing, or a zero page.
abbrev IsBare : Zram → ℕ → Type 0
IsBare z index = (get_elem? z.table index ≡ some 0) ⊎ (get_elem? z.table index ≡ some 1)

-- Only the entry `index` has changed.
abbrev IsSole : Zram → ℕ → Zram → Type 0
IsSole z index z' = (j : ℕ) → j ≢ index → get_elem? z'.table j ≡ get_elem? z.table j

write_page-zero :
    (lzo : Lzo) (cpu index : ℕ) (s : Segment) (z : Zram)
    → IsBare z index
    → page_zero_filled s.bytes ≡ true
    → (z' : Zram) × (write_page lzo true cpu index s z ≡ some (true, index, z'))
      × (get_elem? z'.table index ≡ some 1)
      × IsSole z index z'
unfolding write_page write_released zram_free_page free_entry zram_is_zero_page zram_set_zero_page
    zram_clear_zero_page zram_find_obj zram_inc_stat zram_dec_stat zram_add_stat
write_page-zero lzo cpu index s z (inl e) zeros =
    rw (e, zeros, e)
      (
        _,
        refl,
        get_elem?-set_self z.table index 1 0 e,
        λ j n. get_elem?-set_ne z.table 1 (λ q. n (sym q)),
      )
write_page-zero lzo cpu index s z (inr e) zeros =
    let c = get_elem?-set_self z.table index 0 1 e in
    rw (e, zeros, c)
      (
        _,
        refl,
        get_elem?-set_self (set z.table index 0) index 1 0 c,
        λ j n.
            get_elem?-set_ne (set z.table index 0) 1 (λ q. n (sym q))
            ∙ get_elem?-set_ne z.table 0 (λ q. n (sym q)),
      )

-- Where a request's pages are all zeros, the CPU has its buffers, and the entry of the first page holds
-- nothing or a zero page, `zram_write` succeeds and changes at most that entry: the entries of the pages
-- after the first are as they were.
pub write_segments-IsSole :
    (lzo : Lzo) (cpu index : ℕ) (segments : List Segment) (z : Zram)
    → IsBare z index
    → AllZero segments
    → (z' : Zram) × (write_segments lzo true cpu index segments z ≡ some (true, z'))
      × IsSole z index z'
unfolding write_segments
write_segments-IsSole lzo cpu index [] z bare zeros = (z, refl, λ j n. refl)
write_segments-IsSole lzo cpu index (s ∷ segments) z bare (zero_page, zeros) =
    let (z1, e, one, sole) = write_page-zero lzo cpu index s z bare zero_page in
    let (z2, f, rest) = write_segments-IsSole lzo cpu index segments z1 (inr one) zeros in
    (z2, rw e f, λ j n. rest j n ∙ sole j n)

-- Where the entry of a request's first page is a zero page, `zram_read` succeeds and fills every page of
-- the request with zeros, whatever the entries of the pages after the first hold.
pub read_segments-zero :
    (lzo : Lzo) (index addr : ℕ) (segments : List Segment) (z : Zram)
    → get_elem? z.table index ≡ some addr
    → zram_is_zero_page addr ≡ true
    → read_segments lzo index segments z
      ≡ some (true, map (λ (s : Segment). handle_zero_page s.bytes) segments)
unfolding read_segments read_entry
read_segments-zero lzo index addr [] z e f = refl
read_segments-zero lzo index addr (s ∷ segments) z e f =
    rw (e, f, read_segments-zero lzo index addr segments z e f) refl
