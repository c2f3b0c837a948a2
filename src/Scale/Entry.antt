-- ===== src/Scale/Entry.antt =====
-- zram_scale: the address in a table entry, and what an incompressible page leaves of its data.
use compcache.Common.{
  ℕ, ◌+◌, ◌*◌, ◌/◌, ◌%◌, ◌^◌, ◌<◌, ◌≡◌, ◌≢◌, refl, ap, Bool, true, false, List, length, ◌==◌, ltb,
  arith,
}
use compcache.Table.{page_zero_filled}
use compcache.Device.{bind}
use compcache.Request.{Lzo, Segment}
use compcache.Scale.{
  Zram, zram_find_obj, zram_insert_obj, zram_is_zero_page, write_released, write_page,
  write_uncompressed, zram_free_page,
}

-- The address of an object in frame 1 to 2^52 - 1, at an even offset below 4096, is not that of a zero
-- page, and gives back the frame and the offset.
pub zram_find_obj-insert :
    (page offset : ℕ)
    → page ≢ 0
    → page < 2 ^ 52
    → offset < 2 ^ 12
    → offset % 2 ≡ 0
    → (zram_find_obj (zram_insert_obj page offset) ≡ (page, offset))
      × (zram_is_zero_page (zram_insert_obj page offset) ≡ false)
unfolding zram_find_obj zram_insert_obj zram_is_zero_page
zram_find_obj-insert page offset ne lo small even =
    let a : (page * 2 ^ 12 % 2 ^ 64 + offset % 2 ^ 12) / 2 ^ 12 ≡ page = omega arith in
    let b : (page * 2 ^ 12 % 2 ^ 64 + offset % 2 ^ 12) % 2 ^ 12 ≡ offset = omega arith in
    let z : (page * 2 ^ 12 % 2 ^ 64 + offset % 2 ^ 12 == 0) ≡ false = ground arith in
    let odd : (page * 2 ^ 12 % 2 ^ 64 + offset % 2 ^ 12) % 2 ≡ 0 = omega arith in
    (rw (z, a, b) refl, rw odd refl)

-- A page that is not all zeros, and that LZO compresses to more than 3584 bytes.
abbrev pub IsIncompressible : Lzo → List ℕ → Type 0
IsIncompressible lzo bytes =
    (page_zero_filled bytes ≡ false)
    × ((lzo.compress bytes).0 ≡ true)
    × (3584 < length (lzo.compress bytes).1)

write_released-lost :
    (lzo : Lzo) (buffers : Bool) (cpu index : ℕ) (s s' : Segment) (z : Zram)
    → IsIncompressible lzo s.bytes
    → IsIncompressible lzo s'.bytes
    → s.fresh ≡ s'.fresh
    → write_released lzo buffers cpu index s z ≡ write_released lzo buffers cpu index s' z
unfolding write_released write_uncompressed
write_released-lost lzo buffers cpu index s s' z (a, b, c) (a', b', c') same =
    let l : ltb 3584 (length (lzo.compress s.bytes).1) ≡ true = ground arith in
    let l' : ltb 3584 (length (lzo.compress s'.bytes).1) ≡ true = ground arith in
    rw (a, b, l, a', b', l', same) refl

-- Of two incompressible pages that are written to the same entry with the same new page, `zram_write`
-- leaves the same device: nothing of the data is stored.
pub write_page-lost :
    (lzo : Lzo) (buffers : Bool) (cpu index : ℕ) (s s' : Segment) (z : Zram)
    → IsIncompressible lzo s.bytes
    → IsIncompressible lzo s'.bytes
    → s.fresh ≡ s'.fresh
    → write_page lzo buffers cpu index s z ≡ write_page lzo buffers cpu index s' z
unfolding write_page
write_page-lost lzo buffers cpu index s s' z v v' same =
    ap (bind (zram_free_page cpu index z))
      (λ i z'. write_released-lost lzo buffers cpu index s s' z' v v' same i)
