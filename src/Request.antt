-- ===== src/Request.antt =====
-- zram_drv.c: the handlers of block I/O requests that read or discard. A handler returns the device, how the request ended
-- and the pages of the request; `none` is a fault.
--
-- LZO is the kernel's, behind <linux/lzo.h>: its two functions are the parameter `lzo`. What
-- `alloc_page` returns while a segment is written is the segment's `fresh`, a page or 0.
use compcache.Common.{
  ℕ, zero, suc, ◌+◌, ◌/◌, ◌%◌, ◌^◌, Bool, true, false, not, Option, none, some, List, [], ◌∷◌, ◌++◌,
  map, ◌==◌, if◌then◌else◌, length, get_elem?, take, drop, replicate, sub32,
}
use compcache.Block.{page_size}
use compcache.Table.{
  Slot, Stats, Zram, zobj_header_size, zram_stat64_inc, zram_test_flag, zram_uncompressed,
  zram_zero, zram_free_page,
}
use compcache.Device.{bind}
use compcache.Xvmalloc.{xv_get_object_size}

-- `lzo1x_1_compress` and `lzo1x_decompress_safe`: whether they return LZO_E_OK, and the bytes that
-- they write.
pub record Lzo : Type 0 where
  pub compress : List ℕ → Bool × List ℕ
  pub decompress : List ℕ → Bool × List ℕ

-- One page of a request, with its bytes.
pub record Segment : Type 0 where
  pub bytes : List ℕ
  pub fresh : ℕ

-- The parts of `struct bio` that the handlers read.
pub record Bio : Type 0 where
  pub sector : ℕ
  pub size : ℕ
  pub is_discard : Bool
  pub is_write : Bool
  pub segments : List Segment

-- `bio_endio(bio, 0)` or `bio_io_error(bio)`.
pub data Ended : Type 0 where
  endio : Ended
  io_error : Ended

-- The device and the ended request, with the bytes of its pages.
pub record Served : Type 0 where
  pub zram : Zram
  pub ended : Ended
  pub pages : List (List ℕ)

abbrev pub with_stats : (Stats → Stats) → Zram → Zram
with_stats f z = record z { stats = f z.stats }

abbrev pub sectors_per_page : ℕ
sectors_per_page = 8

-- `max_zpage_size`
abbrev pub max_zpage_size : ℕ
max_zpage_size = 3072

-- `bi_sector >> SECTORS_PER_PAGE_SHIFT`, as a `u32`.
abbrev pub first_index : Bio → ℕ
first_index b = b.sector / sectors_per_page % 2 ^ 32

abbrev pub bytes_of : List Segment → List (List ℕ)
bytes_of segments = map (λ (s : Segment). s.bytes) segments

-- The loop of `zram_discard`, with the number of pages left.
unfoldable pub discard_pages : ℕ → ℕ → Zram → Option Zram
discard_pages zero index z = some z
discard_pages (suc n) index z =
    bind (zram_free_page z index) (discard_pages n ((index + 1) % 2 ^ 32))

abbrev pub end_discard : Bio → Zram → Option Served
end_discard b z = some (record {
  zram = with_stats (λ s. record s { discard = zram_stat64_inc s.discard }) z;
  ended = endio;
  pages = bytes_of b.segments;
})

unfoldable pub zram_discard : Zram → Bio → Option Served
zram_discard z b =
    if not z.init_done
    then end_discard b z
    else bind (discard_pages (b.size / page_size % 2 ^ 32) (first_index b) z) (end_discard b)

-- `memcpy` of `src` over what stood there.
abbrev pub overwrite : List ℕ → List ℕ → List ℕ
overwrite src old = src ++ drop (length src) old

-- `handle_zero_page`
abbrev pub handle_zero_page : List ℕ → List ℕ
handle_zero_page page = overwrite (replicate page_size 0) page

-- `handle_uncompressed_page`
abbrev pub handle_uncompressed_page : Zram → Slot → List ℕ → List ℕ
handle_uncompressed_page z slot page =
    overwrite (take page_size (z.store slot.page slot.offset)) page

module _ (lzo : Lzo) where
  -- Lines 267-287: whether decompression succeeds, and the page after it.
  unfoldable pub read_compressed : Zram → Slot → List ℕ → Bool × List ℕ
  read_compressed z slot page =
      let clen = sub32 (xv_get_object_size slot.page slot.offset z.heap) zobj_header_size in
      let cmem = drop zobj_header_size (z.store slot.page slot.offset) in
      let (ok, out) = lzo.decompress (take clen cmem) in (ok, overwrite out page)

  unfoldable pub read_slot : Zram → Slot → List ℕ → Bool × List ℕ
  read_slot z slot page =
      if zram_test_flag slot zram_zero
      then (true, handle_zero_page page)
      else (if slot.page == 0
          then (true, page)
          else (if zram_test_flag slot zram_uncompressed
              then (true, handle_uncompressed_page z slot page)
              else read_compressed z slot page))

  abbrev pub read_found : Zram → Option Slot → List ℕ → Option (Bool × List ℕ)
  read_found z none page = none
  read_found z (some slot) page = some (read_slot z slot page)

  abbrev pub prepend : List ℕ → Bool × List (List ℕ) → Option (Bool × List (List ℕ))
  prepend page (ok, pages) = some (ok, page ∷ pages)

  -- The loop of `zram_read`. A failure leaves the pages behind it as they were.
  unfoldable pub read_segments : Zram → ℕ → List Segment → Option (Bool × List (List ℕ))
  read_segments z index [] = some (true, [])
  read_segments z index (s ∷ segments) =
      let rest = read_segments z ((index + 1) % 2 ^ 32) segments in
      bind (read_found z (get_elem? z.table index) s.bytes)
        (λ r. if r.0 then bind rest (prepend r.1) else some (false, r.1 ∷ bytes_of segments))

  unfoldable pub end_read : Zram → Bool × List (List ℕ) → Option Served
  end_read z (true, pages) = some (record { zram = z; ended = endio; pages = pages })
  end_read z (false, pages) = some (record {
    zram = with_stats (λ s. record s { failed_reads = zram_stat64_inc s.failed_reads }) z;
    ended = io_error;
    pages = pages;
  })

  unfoldable pub zram_read : Zram → Bio → Option Served
  zram_read z b =
      if not z.init_done
      then some (record { zram = z; ended = endio; pages = bytes_of b.segments })
      else (let z' = with_stats (λ s. record s { num_reads = zram_stat64_inc s.num_reads }) z in
          bind (read_segments z' (first_index b) b.segments) (end_read z'))
