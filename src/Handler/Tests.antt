-- ===== src/Handler/Tests.antt =====
-- The theorems on requests at concrete devices and requests.
use compcache.Common.{◌≡◌, refl, true, false, none, some, length, get_elem?, [], replicate, arith}
use compcache.Table.{Zram, zram_free_page, free_slot}
use compcache.Xvmalloc.{xv_create_pool}
use compcache.Device.{Memory, no_stats, empty_slot}
use compcache.Device.Init.{empty_table-IsCounted}
use compcache.Request.{Lzo, Bio, discard_pages, end_discard}
use compcache.Handler.{valid_io_request, zram_make_request}
use compcache.Handler.Valid.{cut_at_end, discard-faults}

-- An initialised disk of two pages.
abbrev two_pages : Zram
two_pages = record {
  has_pool = true;
  heap = record {
    pool = xv_create_pool;
    mem = λ page offset. record {
      size = 0;
      prev = 0;
      prev_page = 0;
      prev_offset = 0;
      next_page = 0;
      next_offset = 0;
    };
  };
  store = λ page offset. [];
  compress_workmem = true;
  compress_buffer = true;
  table = replicate 2 empty_slot;
  init_done = true;
  disksize = 8192;
  capacity = 16;
  stats = no_stats;
}

abbrev copying : Lzo
copying = record { compress = λ page. (true, page); decompress = λ page. (true, page) }

abbrev enough : Memory
enough = record { ram_pages = 4000; workmem = true; buffer = true; table = true; pool = true }

-- A discard of two pages from the second page of the disk on.
abbrev discard : Bio
discard = record { sector = 8; size = 8192; is_discard = true; is_write = false; segments = [] }

accepted : valid_io_request two_pages discard ≡ true
unfolding valid_io_request
accepted = refl

first_page_left : (z : Zram) × (discard_pages 1 1 two_pages ≡ some z)
unfolding discard_pages zram_free_page free_slot
first_page_left = (_, refl)

discard-faults_example :
    (zram_make_request copying enough two_pages (cut_at_end two_pages discard)
      ≡ end_discard discard first_page_left.0)
    × (length first_page_left.0.table ≡ 2)
    × (get_elem? first_page_left.0.table 2 ≡ none)
    × (zram_make_request copying enough two_pages discard ≡ none)
discard-faults_example =
    discard-faults copying enough two_pages first_page_left.0 discard refl (empty_table-IsCounted 2)
      accepted refl (omega arith) (omega arith) (omega arith) first_page_left.1
