-- ===== src/Handler.antt =====
-- zram_drv.c: the entry point of block I/O, and the notice that a swap slot is free.
pub mod Valid
mod Tests
use compcache.Common.{
  ℕ, ◌/◌, ◌%◌, Bool, true, false, not, Option, none, some, ◌||◌, leb, ◌==◌, if◌then◌else◌,
}
use compcache.Block.{page_size}
use compcache.Table.{Zram, zram_stat64_inc, zram_free_page}
use compcache.Device.{Memory, bind, sector_size}
use compcache.Request.{
  Lzo, Bio, io_error, Served, with_stats, sectors_per_page, bytes_of, zram_discard, zram_read,
}
use compcache.Write.{zram_write}

unfoldable pub valid_io_request : Zram → Bio → Bool
valid_io_request z b = not (
    leb (z.disksize / sector_size) b.sector
    || not (b.sector % sectors_per_page == 0)
    || not (b.size % page_size == 0))

unfoldable pub zram_make_request : Lzo → Memory → Zram → Bio → Option Served
zram_make_request lzo m z b =
    if not (valid_io_request z b)
    then some (record {
      zram = with_stats (λ s. record s { invalid_io = zram_stat64_inc s.invalid_io }) z;
      ended = io_error;
      pages = bytes_of b.segments;
    })
    else (if b.is_discard
        then zram_discard z b
        else (if b.is_write then zram_write lzo m z b else zram_read lzo z b))

unfoldable pub zram_slot_free_notify : Zram → ℕ → Option Zram
zram_slot_free_notify z index =
    bind (zram_free_page z index)
      (λ z'. some (with_stats (λ s. record s { notify_free = zram_stat64_inc s.notify_free }) z'))
