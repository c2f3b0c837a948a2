-- ===== src/Scale/Handlers.antt =====
-- zram_scale/zram_drv.c: the handlers of block I/O. A fault is `none`. `buffers` says whether the CPU that
-- serves the request has its two buffers.
use compcache.Common.{
  ℕ, ◌/◌, ◌%◌, Bool, true, false, not, ◌||◌, Option, some, List, leb, ◌==◌, if◌then◌else◌,
}
use compcache.Block.{page_size}
use compcache.Device.{bind, sector_size}
use compcache.Driver.{is_success}
use compcache.Request.{Lzo, Bio, Ended, endio, io_error, sectors_per_page, first_index, bytes_of}
use compcache.Scale.{Zram, write_segments, discard_pages, read_segments}
use compcache.Scale.Disk.{Disk, Memory, inc_stat, free_page, zram_init_device}

-- The device and the ended request, with the bytes of its pages.
pub record Served : Type 0 where
  pub disk : Disk
  pub ended : Ended
  pub pages : List (List ℕ)

abbrev pub stat_num_reads : ℕ
stat_num_reads = 1

abbrev pub stat_num_writes : ℕ
stat_num_writes = 2

abbrev pub stat_invalid_io : ℕ
stat_invalid_io = 3

abbrev pub stat_notify_free : ℕ
stat_notify_free = 4

abbrev pub stat_discard : ℕ
stat_discard = 5

abbrev pub ended_by : Bool → Ended
ended_by ok = if ok then endio else io_error

abbrev pub unchanged : Bio → Disk → Ended → Served
unchanged b d e = record { disk = d; ended = e; pages = bytes_of b.segments }

abbrev pub with_zram : Disk → Zram → Disk
with_zram d z = record d { zram = z }

unfoldable pub zram_read : Lzo → ℕ → Disk → Bio → Option Served
zram_read lzo cpu d b =
    if not d.init_done
    then some (unchanged b d endio)
    else bind (inc_stat cpu stat_num_reads d) (λ d'.
      bind (read_segments lzo (first_index b) b.segments d'.zram)
        (λ r. some (record { disk = d'; ended = ended_by r.0; pages = r.1 })))

-- From the count of the request on.
unfoldable pub write_ready : Lzo → Bool → ℕ → Disk → Bio → Option Served
write_ready lzo buffers cpu d b = bind (inc_stat cpu stat_num_writes d) (λ d'.
    bind (write_segments lzo buffers cpu (first_index b) b.segments d'.zram)
      (λ r. some (unchanged b (with_zram d' r.1) (ended_by r.0))))

unfoldable pub zram_write : Lzo → Bool → Memory → ℕ → Disk → Bio → Option Served
zram_write lzo buffers m cpu d b =
    if d.init_done
    then write_ready lzo buffers cpu d b
    else bind (zram_init_device m cpu d) (λ r.
      if is_success r.0 then write_ready lzo buffers cpu r.1 b else some (unchanged b r.1 io_error))

unfoldable pub zram_discard : ℕ → Disk → Bio → Option Served
zram_discard cpu d b =
    if not d.init_done
    then some (unchanged b d endio)
    else bind (inc_stat cpu stat_discard d) (λ d'.
      bind (discard_pages cpu (b.size / page_size) (b.sector / sectors_per_page) d'.zram)
        (λ z. some (unchanged b (with_zram d' z) endio)))

abbrev pub is_invalid : Disk → Bio → Bool
is_invalid d b =
    leb (d.disksize / sector_size) b.sector
    || not (b.sector % sectors_per_page == 0)
    || not (b.size % page_size == 0)

-- The result, and the device in which an invalid request is counted.
unfoldable pub valid_io_request : ℕ → Disk → Bio → Option (Bool × Disk)
valid_io_request cpu d b =
    if is_invalid d b
    then (if d.init_done
        then bind (inc_stat cpu stat_invalid_io d) (λ d'. some (false, d'))
        else some (false, d))
    else some (true, d)

unfoldable pub zram_make_request : Lzo → Bool → Memory → ℕ → Disk → Bio → Option Served
zram_make_request lzo buffers m cpu d b = bind (valid_io_request cpu d b) (λ v.
    if not v.0
    then some (unchanged b v.1 io_error)
    else (if b.is_discard
        then zram_discard cpu v.1 b
        else (if b.is_write then zram_write lzo buffers m cpu v.1 b else zram_read lzo cpu v.1 b)))

unfoldable pub zram_slot_free_notify : (cpu index : ℕ) → Disk → Option Disk
zram_slot_free_notify cpu index d = bind (free_page cpu index d) (inc_stat cpu stat_notify_free)
