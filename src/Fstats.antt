-- ===== src/Fstats.antt =====
-- sub-projects/fstats/fstats.c, built without csnappy: the sizes to which the pages of a file compress.
-- LZO and zlib are libraries behind <lzo/minilzo.h> and <zlib.h>, and malloc the C library's: their
-- answers are arguments. Times and printing are left out; what is printed for a page is its sizes. The
-- file opens, and the two buffers of `dump_fstats` are allocated.
pub mod Totals
pub mod Errors
mod Tests
use compcache.Common.{
  ℕ, ◌+◌, ◌-◌, ◌*◌, ◌/◌, ◌%◌, ◌^◌, Bool, true, false, not, Option, none, some, List, [], ◌∷◌, ◌==◌,
  if◌then◌else◌,
}
use compcache.Block.{page_size}
use compcache.Table.{zero_longs}
use compcache.Device.{bind}

-- `enum compress_algo`
pub data Algo : Type 0 where
  zerochk : Algo
  lzo : Algo
  zlib : Algo

-- One number per algorithm.
pub record Sizes : Type 0 where
  pub of_zerochk : ℕ
  pub of_lzo : ℕ
  pub of_zlib : ℕ

abbrev pub size_of : Algo → Sizes → ℕ
size_of zerochk s = s.of_zerochk
size_of lzo s = s.of_lzo
size_of zlib s = s.of_zlib

abbrev pub put_size : Algo → ℕ → Sizes → Sizes
put_size zerochk n s = record s { of_zerochk = n }
put_size lzo n s = record s { of_lzo = n }
put_size zlib n s = record s { of_zlib = n }

-- `CSTATS`
pub record CompressStats : Type 0 where
  pub zero_pages : ℕ
  pub original_size : ℕ
  pub compressed_size : Sizes

-- The results of zlib's functions that the program tells apart.
pub data Zresult : Type 0 where
  z_ok : Zresult
  z_stream_end : Zresult
  z_stream_error : Zresult
  z_other : Zresult

-- What a function of the program returns.
pub data Ret : Type 0 where
  done : Ret
  enomem : Ret
  einval : Ret
  zresult : Zresult → Ret

abbrev pub is_done : Ret → Bool
is_done done = true
is_done (zresult z_ok) = true
is_done r = false

-- `lzo1x_1_compress` gives whether it succeeds, and the length that it writes; `deflate` its result, and
-- what is left of the 2 * size bytes of output.
pub record Libs : Type 0 where
  pub lzo1x : List ℕ → Bool × ℕ
  pub deflate : List ℕ → Zresult × ℕ

-- A page of the file, whether malloc gives the two buffers for it, and what `deflateInit` returns.
pub record Page : Type 0 where
  pub bytes : List ℕ
  pub lzo_buffer : Bool
  pub zlib_buffer : Bool
  pub deflate_init : Zresult

-- `LZO_WORKMEM` as the Boolean of its test, after `calloc` has given memory or not.
unfoldable pub compress_init : (calloc : Bool) → Algo → Bool → Ret × Bool
compress_init calloc zerochk workmem = (done, workmem)
compress_init calloc lzo workmem = if calloc then (done, true) else (enomem, false)
compress_init calloc zlib workmem = (done, workmem)

unfoldable pub compress_zerochk : List ℕ → (size : ℕ) → ℕ
compress_zerochk buf size = if zero_longs (size / 8) buf then 0 else size

-- `csize` is what stands at the pointer, before and after. A NULL working memory is `none`.
unfoldable pub get_compressed_size_lzo : Libs → Bool → Page → (size csize : ℕ) → Option (Ret × ℕ)
get_compressed_size_lzo l workmem p size csize =
    if not p.lzo_buffer
    then some (enomem, csize)
    else (if not workmem
        then none
        else (let (ok, dstlen) = l.lzo1x p.bytes in
            some (if ok then (done, dstlen % 2 ^ 32) else (einval, 0))))

abbrev pub is_stream_error : Zresult → Bool
is_stream_error z_stream_error = true
is_stream_error r = false

abbrev pub is_ok : Zresult → Bool
is_ok z_ok = true
is_ok r = false

unfoldable pub get_compressed_size_zlib : Libs → Page → (size csize : ℕ) → Ret × ℕ
get_compressed_size_zlib l p size csize =
    if not p.zlib_buffer
    then (enomem, csize)
    else (if not (is_ok p.deflate_init)
        then (zresult p.deflate_init, csize)
        else (let (ret, avail_out) = l.deflate p.bytes in
            if is_stream_error ret
            then (einval, 0)
            else (zresult ret, (2 * size + 2 ^ 32 - avail_out % 2 ^ 32) % 2 ^ 32)))

-- The statistics after `compressed_size[algo] += csize`.
abbrev pub count_size : Algo → ℕ → CompressStats → CompressStats
count_size a csize st = record st {
  compressed_size = put_size a ((size_of a st.compressed_size + csize) % 2 ^ 64) st.compressed_size;
}

abbrev pub count_zero : ℕ → CompressStats → CompressStats
count_zero csize st =
    if csize == 0 then record st { zero_pages = (st.zero_pages + 1) % 2 ^ 64 } else st

-- The result of the functions for LZO and zlib is not looked at.
abbrev pub count_ignored : Algo → CompressStats → Ret × ℕ → Option (Ret × ℕ × CompressStats)
count_ignored a st r = some (done, r.1, count_size a r.1 st)

unfoldable pub get_compressed_size :
    Libs
    → Bool
    → Page
    → (size : ℕ) → Algo
    → (csize : ℕ) → CompressStats
    → Option (Ret × ℕ × CompressStats)
get_compressed_size l workmem p size zerochk csize st =
    let csize' = compress_zerochk p.bytes size in
    some (done, csize', count_size zerochk csize' (count_zero csize' st))
get_compressed_size l workmem p size lzo csize st =
    bind (get_compressed_size_lzo l workmem p size csize) (count_ignored lzo st)
get_compressed_size l workmem p size zlib csize st =
    count_ignored zlib st (get_compressed_size_zlib l p size csize)

abbrev pub algos : List Algo
algos = zerochk ∷ (lzo ∷ (zlib ∷ []))

module _ (l : Libs) (workmem : Bool) where
  -- The loop over the algorithms: its result, `csize`, and the statistics.
  unfoldable pub page_sizes :
      Page → List Algo → Sizes → CompressStats → Option (Ret × Sizes × CompressStats)
  page_sizes p [] csize st = some (done, csize, st)
  page_sizes p (a ∷ rest) csize st =
      bind (get_compressed_size l workmem p page_size a (size_of a csize) st) (λ r.
        if is_done r.0
        then page_sizes p rest (put_size a r.1 csize) r.2
        else some (r.0, put_size a r.1 csize, r.2))

  -- The loop over the pages that are read in full: the statistics, and what is printed for each page.
  unfoldable pub dump_pages :
      List Page → Sizes → CompressStats → Option (CompressStats × List Sizes)
  dump_pages [] csize st = some (st, [])
  dump_pages (p ∷ pages) csize st =
      let counted = record st { original_size = (st.original_size + page_size) % 2 ^ 64 } in
      bind (page_sizes p algos csize counted) (λ r.
        if is_done r.0
        then bind (dump_pages pages r.1 r.2) (λ rest. some (rest.0, r.1 ∷ rest.1))
        else some (r.2, []))

-- What `memset` makes of `CSTATS`.
abbrev pub no_stats : CompressStats
no_stats = record {
  zero_pages = 0;
  original_size = 0;
  compressed_size = record { of_zerochk = 0; of_lzo = 0; of_zlib = 0 };
}

-- The loop of `main` that initialises: it stops at a failure, and the program goes on. What it frees then
-- was not allocated.
unfoldable pub init_algos : (calloc : Bool) → List Algo → Bool → Bool
init_algos calloc [] workmem = workmem
init_algos calloc (a ∷ rest) workmem =
    let (r, workmem') = compress_init calloc a workmem in
    let rest_done = init_algos calloc rest workmem' in if is_done r then rest_done else workmem'

-- `main` on the pages of a file that opens. `stack` is what the array `csize` holds at first.
unfoldable pub main :
    Libs → (calloc : Bool) → (stack : Sizes) → List Page → Option (CompressStats × List Sizes)
main l calloc stack pages = dump_pages l (init_algos calloc algos false) pages stack no_stats
