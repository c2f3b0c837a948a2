-- ===== src/Write.antt =====
-- zram_drv.c: `zram_write`. A page is written by releasing the old entry and storing the page as a
-- flag, as a page of its own, or as a compressed object of the pool.
pub mod Counters
pub mod Outcome
pub mod RoundTrip
mod Tests
use compcache.Common.{
  ℕ, zero, suc, ◌+◌, ◌/◌, ◌%◌, ◌^◌, Bool, true, false, not, Option, none, some, List, [], ◌∷◌, ◌||◌,
  ltb, leb, ◌==◌, if◌then◌else◌, length, get_elem?, set, take, update,
}
use compcache.Common.Errno.{Code, success, enomem, einval, ebusy}
use compcache.Block.{page_size}
use compcache.Table.{
  Slot, Stats, Zram, zobj_header_size, zram_stat_inc, zram_stat64_inc, zram_stat64_add,
  zram_test_flag, zram_set_flag, zram_uncompressed, zram_zero, page_zero_filled, put,
  zram_free_page,
}
use compcache.Device.{Memory, bind, zram_init_device}
use compcache.Request.{
  Lzo, Segment, Bio, endio, io_error, Served, with_stats, max_zpage_size, first_index, bytes_of,
  overwrite,
}
use compcache.Xvmalloc.{Malloced, xv_malloc}

-- Lines 331-333: an entry that holds something is released first.
unfoldable pub release_old : Zram → ℕ → Slot → Option Zram
release_old z index slot =
    if not (slot.page == 0) || zram_test_flag slot zram_zero then zram_free_page z index else some z

-- Lines 394-419, the label `memstore`: the bytes of the object and its statistics.
unfoldable pub store_object : ℕ → Slot → (offset clen : ℕ) → List ℕ → Zram → Zram
store_object index slot offset clen src z =
    let placed = record slot { offset = offset % 2 ^ 16 } in
    let cell = z.store placed.page placed.offset in
    let stats = record (z.stats) {
      compr_size = zram_stat64_add z.stats.compr_size clen;
      pages_stored = zram_stat_inc z.stats.pages_stored;
      good_compress =
          if leb clen (page_size / 2)
          then zram_stat_inc z.stats.good_compress
          else z.stats.good_compress;
    } in
    put index placed stats (record z {
      store =
          update z.store placed.page
            (update (z.store placed.page) placed.offset (overwrite (take clen src) cell));
    })

abbrev pub count_failed_write : Zram → Zram
count_failed_write z =
    with_stats (λ s. record s { failed_writes = zram_stat64_inc s.failed_writes }) z

-- Lines 338-345.
unfoldable pub write_zero : ℕ → Slot → Zram → Zram
write_zero index slot z =
    put index (zram_set_flag slot zram_zero)
      (record (z.stats) { pages_zero = zram_stat_inc z.stats.pages_zero }) z

-- Lines 364-382, for a page that does not compress: `fresh` is what `alloc_page` returns. The Boolean
-- says that the page was stored.
unfoldable pub write_uncompressed : ℕ → Slot → Segment → Zram → Bool × Zram
write_uncompressed index slot s z =
    if s.fresh == 0
    then (false, count_failed_write z)
    else (let slot' = record (zram_set_flag slot zram_uncompressed) { page = s.fresh } in
        let stats = record (z.stats) { pages_expand = zram_stat_inc z.stats.pages_expand } in
        (true, store_object index slot' 0 page_size s.bytes (put index slot' stats z)))

-- Lines 384-392, with what `xv_malloc` returned. It writes `page` in the table also when it fails.
unfoldable pub write_malloced : ℕ → Slot → List ℕ → Malloced → Zram → Bool × Zram
write_malloced index slot src m z =
    let slot' = record slot { page = m.page } in
    let z' = put index slot' z.stats (record z { heap = m.heap }) in
    elim (m.code) [
      | success ↦ (true, store_object index slot' m.offset (length src) src z')
      | _ ↦ (false, count_failed_write z')
    ]

unfoldable pub write_compressed : ℕ → Slot → List ℕ → Segment → Zram → Bool × Zram
write_compressed index slot src s z =
    if ltb max_zpage_size (length src)
    then write_uncompressed index slot s z
    else write_malloced index slot src (xv_malloc s.fresh (length src + zobj_header_size) z.heap) z

module _ (lzo : Lzo) where
  -- Lines 335-421, with the entry as the release left it.
  unfoldable pub write_slot : ℕ → Slot → Segment → Zram → Bool × Zram
  write_slot index slot s z =
      if page_zero_filled s.bytes
      then (true, write_zero index slot z)
      else (let (ok, src) = lzo.compress s.bytes in
          if ok then write_compressed index slot src s z else (false, count_failed_write z))

  abbrev pub write_found : ℕ → Option Slot → Segment → Zram → Option (Bool × Zram)
  write_found index none s z = none
  write_found index (some slot) s z = some (write_slot index slot s z)

  abbrev pub write_old : Zram → ℕ → Option Slot → Segment → Option (Bool × Zram)
  write_old z index none s = none
  write_old z index (some slot) s =
      bind (release_old z index slot) (λ z'. write_found index (get_elem? z'.table index) s z')

  -- One round of the loop of `zram_write`.
  unfoldable pub write_page : Zram → ℕ → Segment → Option (Bool × Zram)
  write_page z index s = write_old z index (get_elem? z.table index) s

  unfoldable pub write_segments : Zram → ℕ → List Segment → Option (Bool × Zram)
  write_segments z index [] = some (true, z)
  write_segments z index (s ∷ segments) = bind (write_page z index s) (λ r. elim (r.0) [
    | true ↦ write_segments r.1 ((index + 1) % 2 ^ 32) segments
    | false ↦ some r
  ])

  abbrev pub end_write : Bio → Bool × Zram → Option Served
  end_write b (ok, z) =
      some
        (record { zram = z; ended = if ok then endio else io_error; pages = bytes_of b.segments })

  -- Lines 314-431, after a lazy initialisation.
  unfoldable pub write_ready : Bio → Code × Zram → Option Served
  write_ready b (success, z) =
      let z' = with_stats (λ s. record s { num_writes = zram_stat64_inc s.num_writes }) z in
      bind (write_segments z' (first_index b) b.segments) (end_write b)
  write_ready b (c, z) = end_write b (false, z)

  unfoldable pub zram_write : Memory → Zram → Bio → Option Served
  zram_write m z b =
      if not z.init_done
      then bind (zram_init_device m z) (write_ready b)
      else write_ready b (success, z)
