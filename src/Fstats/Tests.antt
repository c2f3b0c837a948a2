-- ===== src/Fstats/Tests.antt =====
-- The theorems on fstats.c at a file of two pages.
use compcache.Common.{◌≡◌, refl, true, false, some, [], ◌∷◌, replicate}
use compcache.Table.{zero_longs}
use compcache.Fstats.{
  Sizes, CompressStats, z_ok, z_stream_end, Libs, Page, compress_init, compress_zerochk,
  get_compressed_size_lzo, get_compressed_size_zlib, get_compressed_size, page_sizes, dump_pages,
  no_stats, init_algos, main,
}
use compcache.Fstats.Totals.{IsTotal, main-IsTotal}
use compcache.Fstats.Errors.{main-stale}

-- LZO makes 100 bytes of a page, and zlib 90.
abbrev libs : Libs
libs = record { lzo1x = λ bytes. (true, 100); deflate = λ bytes. (z_stream_end, 8102) }

abbrev zeros : Page
zeros = record {
  bytes = replicate 4096 0;
  lzo_buffer = true;
  zlib_buffer = true;
  deflate_init = z_ok;
}

-- A page for which malloc gives no buffers.
abbrev refused : Page
refused = record zeros { lzo_buffer = false; zlib_buffer = false }

abbrev stack : Sizes
stack = record { of_zerochk = 1; of_lzo = 2; of_zlib = 3 }

abbrev printed : Sizes
printed = record { of_zerochk = 0; of_lzo = 100; of_zlib = 90 }

abbrev counted : CompressStats
counted = record {
  zero_pages = 2;
  original_size = 8192;
  compressed_size = record { of_zerochk = 0; of_lzo = 200; of_zlib = 180 };
}

run : main libs true stack (zeros ∷ (refused ∷ [])) ≡ some (counted, printed ∷ (printed ∷ []))
unfolding main init_algos compress_init dump_pages page_sizes get_compressed_size
    get_compressed_size_lzo get_compressed_size_zlib compress_zerochk zero_longs
run = refl

main-IsTotal_example : IsTotal (zeros ∷ (refused ∷ [])) no_stats (counted, printed ∷ (printed ∷ []))
main-IsTotal_example = main-IsTotal libs true stack (zeros ∷ (refused ∷ [])) run

main-stale_example :
    (true ≡ false
      → true ≡ false
      → (printed.of_lzo ≡ stack.of_lzo) × (printed.of_zlib ≡ stack.of_zlib))
    × (false ≡ false
        → false ≡ false
        → (printed.of_lzo ≡ printed.of_lzo) × (printed.of_zlib ≡ printed.of_zlib))
main-stale_example = main-stale libs true stack zeros refused [] run
