-- ===== src/Table/Tests.antt =====
-- Runs of the functions on table entries, and the theorems at concrete devices.
use compcache.Common.{
  ℕ, zero, suc, ◌≡◌, refl, subst, some-inj, get_elem?, true, false, some, List, [], ◌∷◌, replicate,
}
use compcache.Pool.{Heap, null_entry}
use compcache.Table.{Slot, Zram, zram_free_page, free_slot, drop_object}
use compcache.Table.Count.{IsCounted, IsShape, count}
use compcache.Table.Free.{Released, zram_free_page-Released}

abbrev sevens : List ℕ
sevens = replicate 4096 7

abbrev heap : Heap
heap = record {
  pool = record {
    flbitmap = λ i. false;
    slbitmap = λ w i. false;
    freelist = λ i. null_entry;
    total_pages = 0;
  };
  mem = λ page offset. record {
    size = 0;
    prev = 0;
    prev_page = 0;
    prev_offset = 0;
    next_page = 0;
    next_offset = 0;
  };
}

-- A device whose first page is stored uncompressed, and whose second is filled with zeros.
abbrev two_pages : Zram
two_pages = record {
  has_pool = true;
  heap = heap;
  store = λ page offset. [];
  compress_workmem = true;
  compress_buffer = true;
  table =
      record { page = 5; offset = 0; count = 0; uncompressed = true; zero_filled = false }
      ∷ record { page = 0; offset = 0; count = 0; uncompressed = false; zero_filled = true }
      ∷ [];
  init_done = true;
  disksize = 8192;
  capacity = 16;
  stats = record {
    compr_size = 4096;
    num_reads = 0;
    num_writes = 2;
    failed_reads = 0;
    failed_writes = 0;
    invalid_io = 0;
    notify_free = 0;
    discard = 0;
    pages_zero = 1;
    pages_stored = 1;
    good_compress = 0;
    pages_expand = 1;
  };
}

slots-IsShape : (i : ℕ) (s : Slot) → get_elem? two_pages.table i ≡ some s → IsShape s
slots-IsShape zero s e = subst IsShape (some-inj e) (refl, refl)
slots-IsShape (suc zero) s e = subst IsShape (some-inj e) (refl, refl)
slots-IsShape (suc (suc i)) s e = cc

two_pages-IsCounted : IsCounted two_pages.table two_pages.stats
unfolding count
two_pages-IsCounted = record {
  stored = refl;
  zeros = refl;
  expanded = refl;
  shapes = slots-IsShape;
}

-- The device after the release of its first page.
abbrev one_page : Zram
one_page = record two_pages {
  table =
      record { page = 0; offset = 0; count = 0; uncompressed = false; zero_filled = false }
      ∷ record { page = 0; offset = 0; count = 0; uncompressed = false; zero_filled = true }
      ∷ [];
  stats = record (two_pages.stats) { compr_size = 0; pages_stored = 0; pages_expand = 0 };
}

free_run : zram_free_page two_pages 0 ≡ some one_page
unfolding zram_free_page free_slot drop_object
free_run = refl

zram_free_page-Released_example : Released two_pages 0 one_page
zram_free_page-Released_example = zram_free_page-Released 0 two_pages-IsCounted free_run
