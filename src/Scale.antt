-- ===== src/Scale.antt =====
-- zram_scale/zram_drv.c and zram_sysfs.c: the variant of the driver with a counter per CPU and one
-- address per table entry. A page is its frame number, and frame 0, which is NULL, is not handed out.
-- A fault is `none`.
pub mod Stats
pub mod Entry
pub mod Skip
pub mod Disk
pub mod Handlers
pub mod Sysfs
pub mod Cpus
pub mod Driver
pub mod Hotplug
pub mod Length
pub mod Lifetime
pub mod Ready
pub mod Life
pub mod Shows
pub mod Counters
pub mod Released
pub mod Placed
pub mod Written
mod Tests
use compcache.Common.{
  ℕ, zero, suc, ◌+◌, ◌-◌, ◌*◌, ◌/◌, ◌%◌, ◌^◌, Bool, true, false, Option, none, some, List, [], ◌∷◌,
  ◌==◌, not, ltb, if◌then◌else◌, update, get_elem?, set, length, take, drop,
}
use compcache.Common.Errno.{Code, success}
use compcache.Block.{page_size}
use compcache.Pool.{Heap}
use compcache.Table.{page_zero_filled}
use compcache.Device.{bind}
use compcache.Request.{Lzo, Segment, overwrite, handle_zero_page, bytes_of}
use compcache.Xvmalloc.{Malloced, xv_malloc, xv_free, xv_get_object_size}

-- `enum zram_stats_index`
abbrev pub stat_compr_size : ℕ
stat_compr_size = 0

abbrev pub stat_pages_zero : ℕ
stat_pages_zero = 6

abbrev pub stat_pages_stored : ℕ
stat_pages_stored = 7

abbrev pub stat_pages_expand : ℕ
stat_pages_expand = 8

-- Of `struct zram`: `table` has the address of each entry, `stats cpu idx` is a signed counter of 64
-- bits, and `store` has the bytes that the objects of the pool hold.
pub record Zram : Type 0 where
  pub table : List ℕ
  pub heap : Heap
  pub stats : ℕ → ℕ → ℕ
  pub store : ℕ → ℕ → List ℕ
  pub freed : List ℕ

-- The change of a counter by `val`, a number modulo 2^64, on the CPU that the call runs on.
unfoldable pub zram_add_stat : (cpu idx val : ℕ) → Zram → Zram
zram_add_stat cpu idx val z = record z {
  stats = update z.stats cpu (update (z.stats cpu) idx ((z.stats cpu idx + val) % 2 ^ 64));
}

unfoldable pub zram_inc_stat : (cpu idx : ℕ) → Zram → Zram
zram_inc_stat cpu idx z = zram_add_stat cpu idx 1 z

unfoldable pub zram_dec_stat : (cpu idx : ℕ) → Zram → Zram
zram_dec_stat cpu idx z = zram_add_stat cpu idx (2 ^ 64 - 1) z

-- The sum over `n` CPUs from the `cpu`-th on, as the loop of `zram_get_stat` makes it.
unfoldable pub sum_stat : (n cpu idx val : ℕ) → (ℕ → ℕ → ℕ) → ℕ
sum_stat zero cpu idx val stats = val
sum_stat (suc n) cpu idx val stats = sum_stat n (suc cpu) idx ((val + stats cpu idx) % 2 ^ 64) stats

-- The sum over all possible CPUs.
unfoldable pub zram_get_stat : (cpus idx : ℕ) → Zram → ℕ
zram_get_stat cpus idx z = sum_stat cpus 0 idx 0 z.stats

-- ZRAM_ZERO_PAGE_MARK_BIT is the lowest bit of an address.
unfoldable pub zram_is_zero_page : ℕ → Bool
zram_is_zero_page addr = addr % 2 == 1

unfoldable pub zram_set_zero_page : ℕ → ℕ
zram_set_zero_page addr = if addr % 2 == 1 then addr else addr + 1

unfoldable pub zram_clear_zero_page : ℕ → ℕ
zram_clear_zero_page addr = addr - addr % 2

-- The page and the offset.
unfoldable pub zram_find_obj : ℕ → ℕ × ℕ
zram_find_obj addr = if addr == 0 then (0, 0) else (addr / 2 ^ 12, addr % 2 ^ 12)

unfoldable pub zram_insert_obj : (page offset : ℕ) → ℕ
zram_insert_obj page offset = page * 2 ^ 12 % 2 ^ 64 + offset % 2 ^ 12

abbrev pub set_entry : (index addr : ℕ) → Zram → Zram
set_entry index addr z = record z { table = set z.table index addr }

-- The label `out`: what every entry with an object ends with.
abbrev pub forget : (cpu index zlen : ℕ) → Zram → Zram
forget cpu index zlen z =
    set_entry index 0
      (zram_dec_stat cpu stat_pages_stored (zram_add_stat cpu stat_compr_size (2 ^ 64 - zlen) z))

abbrev pub forget_freed : (cpu index zlen : ℕ) → Zram → Bool × Heap → Option Zram
forget_freed cpu index zlen z r = some (forget cpu index zlen (record z { heap = r.1 }))

unfoldable pub free_entry : (cpu index addr : ℕ) → Zram → Option Zram
free_entry cpu index addr z =
    if zram_is_zero_page addr
    then some (zram_dec_stat cpu stat_pages_zero (set_entry index (zram_clear_zero_page addr) z))
    else (let (page, offset) = zram_find_obj addr in
        if page == 0
        then some z
        else (if offset == 0
            then some (
                forget cpu index page_size
                  (zram_dec_stat cpu stat_pages_expand (record z { freed = page ∷ z.freed })))
            else (let zlen = xv_get_object_size page offset z.heap in
                bind (xv_free page offset z.heap) (forget_freed cpu index zlen z))))

abbrev pub free_found : (cpu index : ℕ) → Option ℕ → Zram → Option Zram
free_found cpu index none z = none
free_found cpu index (some addr) z = free_entry cpu index addr z

unfoldable pub zram_free_page : (cpu index : ℕ) → Zram → Option Zram
zram_free_page cpu index z = free_found cpu index (get_elem? z.table index) z

abbrev pub set_found : (cpu index : ℕ) → Option ℕ → Zram → Option (Bool × ℕ × Zram)
set_found cpu index none z = none
set_found cpu index (some addr) z =
    some
      (true, index, set_entry index (zram_set_zero_page addr) (zram_inc_stat cpu stat_pages_zero z))

-- From `memstore` on: `zlen` bytes of `src`. The next page of the request goes to the next entry.
unfoldable pub store_object : (cpu index page offset zlen : ℕ) → List ℕ → Zram → Bool × ℕ × Zram
store_object cpu index page offset zlen src z =
    let cell = z.store page offset in
    let stored = record z {
      store = update z.store page (update (z.store page) offset (overwrite (take zlen src) cell));
    } in
    let counted =
      zram_inc_stat cpu stat_pages_stored (zram_add_stat cpu stat_compr_size zlen stored) in
    (true, (index + 1) % 2 ^ 32, set_entry index (zram_insert_obj page offset) counted)

-- A page that does not compress: `src` is the new page itself.
unfoldable pub write_uncompressed : (cpu index : ℕ) → Segment → Zram → Bool × ℕ × Zram
write_uncompressed cpu index s z =
    if s.fresh == 0
    then (false, index, z)
    else (let src = z.store s.fresh 0 in
        store_object cpu index s.fresh 0 page_size src (zram_inc_stat cpu stat_pages_expand z))

abbrev pub write_malloced : (cpu index : ℕ) → List ℕ → Malloced → Zram → Bool × ℕ × Zram
write_malloced cpu index src m z = elim (m.code) [
  | success ↦ store_object cpu index m.page m.offset (length src) src (record z { heap = m.heap })
  | _ ↦ (false, index, record z { heap = m.heap })
]

-- One round of the loop of `zram_write`, where the CPU has its buffers if `buffers` holds: whether it
-- went well, and the entry for the next page.
module _ (lzo : Lzo) (buffers : Bool) (cpu : ℕ) where
  unfoldable pub write_released : ℕ → Segment → Zram → Option (Bool × ℕ × Zram)
  write_released index s z =
      if not buffers
      then some (false, index, z)
      else (if page_zero_filled s.bytes
          then set_found cpu index (get_elem? z.table index) z
          else (let (ok, src) = lzo.compress s.bytes in
              some (
                if not ok
                then (false, index, z)
                else (if ltb (page_size / 8 * 7) (length src)
                    then write_uncompressed cpu index s z
                    else write_malloced cpu index src (xv_malloc s.fresh (length src) z.heap) z))))

  unfoldable pub write_page : ℕ → Segment → Zram → Option (Bool × ℕ × Zram)
  write_page index s z = bind (zram_free_page cpu index z) (write_released index s)

  unfoldable pub write_segments : ℕ → List Segment → Zram → Option (Bool × Zram)
  write_segments index [] z = some (true, z)
  write_segments index (s ∷ segments) z =
      bind (write_page index s z)
        (λ r. elim (r.0) [ true ↦ write_segments r.1 segments r.2 | false ↦ some (false, r.2) ])

-- The loop of `zram_discard`, with the number of pages left.
unfoldable pub discard_pages : (cpu n index : ℕ) → Zram → Option Zram
discard_pages cpu zero index z = some z
discard_pages cpu (suc n) index z =
    bind (zram_free_page cpu index z) (discard_pages cpu n (index + 1))

module _ (lzo : Lzo) where
  -- One round of the loop of `zram_read`: whether it went well, whether the next page of the request
  -- is read from the next entry, and the page.
  unfoldable pub read_entry : ℕ → List ℕ → Zram → Bool × Bool × List ℕ
  read_entry addr bytes z =
      let (page, offset) = zram_find_obj addr in
      if zram_is_zero_page addr
      then (true, false, handle_zero_page bytes)
      else (if page == 0
          then (true, false, bytes)
          else (if offset == 0
              then (true, false, overwrite (take page_size (z.store page 0)) bytes)
              else (let clen = xv_get_object_size page offset z.heap in
                  let (ok, out) = lzo.decompress (take clen (z.store page offset)) in
                  (ok, ok, overwrite out bytes))))

  abbrev pub read_found : Option ℕ → List ℕ → Zram → Option (Bool × Bool × List ℕ)
  read_found none bytes z = none
  read_found (some addr) bytes z = some (read_entry addr bytes z)

  unfoldable pub read_segments : ℕ → List Segment → Zram → Option (Bool × List (List ℕ))
  read_segments index [] z = some (true, [])
  read_segments index (s ∷ segments) z = bind (read_found (get_elem? z.table index) s.bytes z) (λ r.
      elim (r.0) [
        | true ↦
            bind (read_segments (if r.1 then (index + 1) % 2 ^ 32 else index) segments z)
              (λ rest. some (rest.0, r.2 ∷ rest.1))
        | false ↦ some (false, r.2 ∷ bytes_of segments)
      ])
