-- ===== src/Table.antt =====
-- zram_drv.h and zram_drv.c: the state of a device, its statistics, the flags of its table, and the
-- release of a table entry.
--
-- `none` is a fault: an access outside the table, or the `BUG_ON` of `xv_free`. A table that is NULL
-- has no entries. The bytes of the stored objects are a function from page and offset, beside the
-- headers of the allocator.
pub mod Free
pub mod Count
pub mod Zero
mod Tests
use compcache.Common.{
  ℕ, zero, suc, ◌+◌, ◌-◌, ◌*◌, ◌/◌, ◌%◌, ◌^◌, Bool, true, false, Option, none, some, List, [], ◌∷◌,
  ltb, leb, ◌==◌, ◌||◌, if◌then◌else◌, add64, sub64, sub32, get_elem?, set, drop,
}
use compcache.Block.{page_size}
use compcache.Pool.{Heap}
use compcache.Xvmalloc.{xv_free, xv_get_object_size}

-- `struct table`, with the bits of `flags` as its two flags.
pub record Slot : Type 0 where
  pub page : ℕ
  pub offset : ℕ
  pub count : ℕ
  pub uncompressed : Bool
  pub zero_filled : Bool

-- `enum zram_pageflags`
pub data PageFlag : Type 0 where
  zram_uncompressed : PageFlag
  zram_zero : PageFlag

-- `struct zram_stats`
pub record Stats : Type 0 where
  pub compr_size : ℕ
  pub num_reads : ℕ
  pub num_writes : ℕ
  pub failed_reads : ℕ
  pub failed_writes : ℕ
  pub invalid_io : ℕ
  pub notify_free : ℕ
  pub discard : ℕ
  pub pages_zero : ℕ
  pub pages_stored : ℕ
  pub good_compress : ℕ
  pub pages_expand : ℕ

-- `struct zram`. A pointer that is only tested is the Boolean of that test. `heap` is the pool with
-- the headers in its pages, `store` has the bytes of the objects, and `capacity` is that of the disk,
-- in sectors. The locks are not modelled: each function runs as one step.
pub record Zram : Type 0 where
  pub has_pool : Bool
  pub heap : Heap
  pub store : ℕ → ℕ → List ℕ
  pub compress_workmem : Bool
  pub compress_buffer : Bool
  pub table : List Slot
  pub init_done : Bool
  pub disksize : ℕ
  pub capacity : ℕ
  pub stats : Stats

-- `sizeof(struct zobj_header)`, whose fields are compiled out.
abbrev pub zobj_header_size : ℕ
zobj_header_size = 0

-- On a counter of 32 bits.
abbrev pub zram_stat_inc : ℕ → ℕ
zram_stat_inc v = (v + 1) % 2 ^ 32

abbrev pub zram_stat_dec : ℕ → ℕ
zram_stat_dec v = sub32 v 1

-- On a counter of 64 bits.
abbrev pub zram_stat64_add : ℕ → ℕ → ℕ
zram_stat64_add v inc = add64 v inc

abbrev pub zram_stat64_sub : ℕ → ℕ → ℕ
zram_stat64_sub v dec = sub64 v dec

abbrev pub zram_stat64_inc : ℕ → ℕ
zram_stat64_inc v = zram_stat64_add v 1

abbrev pub zram_test_flag : Slot → PageFlag → Bool
zram_test_flag s zram_uncompressed = s.uncompressed
zram_test_flag s zram_zero = s.zero_filled

abbrev pub zram_set_flag : Slot → PageFlag → Slot
zram_set_flag s zram_uncompressed = record s { uncompressed = true }
zram_set_flag s zram_zero = record s { zero_filled = true }

abbrev pub zram_clear_flag : Slot → PageFlag → Slot
zram_clear_flag s zram_uncompressed = record s { uncompressed = false }
zram_clear_flag s zram_zero = record s { zero_filled = false }

-- The value of the `n` bytes in front, the lowest first.
unfoldable pub le_value : ℕ → List ℕ → ℕ
le_value zero bytes = 0
le_value (suc n) [] = 0
le_value (suc n) (b ∷ bytes) = b + 256 * le_value n bytes

-- The loop over `pos`, with the words that are left.
unfoldable pub zero_longs : ℕ → List ℕ → Bool
unfolding le_value
zero_longs zero bytes = true
zero_longs (suc n) bytes =
    let rest = zero_longs n (drop 8 bytes) in if le_value 8 bytes == 0 then rest else false

unfoldable pub page_zero_filled : List ℕ → Bool
unfolding zero_longs
page_zero_filled page = zero_longs (page_size / 8) page

-- Entry `index` of the table changed, and the statistics.
abbrev pub put : ℕ → Slot → Stats → Zram → Zram
put index slot stats z = record z { table = set z.table index slot; stats = stats }

-- Lines 168-173, the label `out`.
unfoldable pub drop_object : ℕ → Slot → ℕ → Zram → Zram
drop_object index slot clen z =
    let stats = record (z.stats) {
      compr_size = zram_stat64_sub z.stats.compr_size clen;
      pages_stored = zram_stat_dec z.stats.pages_stored;
    } in
    put index (record slot { page = 0; offset = 0 }) stats z

-- Lines 164-166, with what `xv_free` returned.
unfoldable pub freed : ℕ → Slot → ℕ → Option (Bool × Heap) → Zram → Option Zram
freed index slot clen none z = none
freed index slot clen (some (page_freed, heap)) z =
    let good =
      if leb clen (page_size / 2)
      then zram_stat_dec z.stats.good_compress
      else z.stats.good_compress in
    some (
      drop_object index slot clen
        (record z { heap = heap; stats = record (z.stats) { good_compress = good } }))

-- The three kinds of an entry: none stored, a page of its own, an object of the pool.
unfoldable pub free_slot : ℕ → Slot → Zram → Option Zram
free_slot index slot z =
    if slot.page == 0
    then (if zram_test_flag slot zram_zero
        then some (
            put index (zram_clear_flag slot zram_zero)
              (record (z.stats) { pages_zero = zram_stat_dec z.stats.pages_zero }) z)
        else some z)
    else (if zram_test_flag slot zram_uncompressed
        then some (
            drop_object index (zram_clear_flag slot zram_uncompressed) page_size (record z {
              stats = record (z.stats) { pages_expand = zram_stat_dec z.stats.pages_expand };
            }))
        else (let clen = sub32 (xv_get_object_size slot.page slot.offset z.heap) zobj_header_size in
            freed index slot clen (xv_free slot.page slot.offset z.heap) z))

abbrev pub free_found : ℕ → Option Slot → Zram → Option Zram
free_found index none z = none
free_found index (some slot) z = free_slot index slot z

unfoldable pub zram_free_page : Zram → ℕ → Option Zram
zram_free_page z index = free_found index (get_elem? z.table index) z
