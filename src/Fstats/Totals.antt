-- ===== src/Fstats/Totals.antt =====
-- fstats.c: the totals of the statistics are those of what was printed.
use compcache.Common.{
  ℕ, suc, ◌+◌, ◌*◌, ◌%◌, ◌^◌, ◌≡◌, refl, sym, ap, subst, inl, inr, Bool, false, some, List, [], ◌∷◌,
  length, some-inj, Bool-cases, arith,
}
use compcache.Table.{zero_longs, page_zero_filled}
use compcache.Table.Count.{of_bool, count}
use compcache.Device.{bind}
use compcache.Device.Bind.{bind-eq-some}
use compcache.Fstats.{
  Algo, zerochk, lzo, zlib, Sizes, size_of, CompressStats, Libs, Page, Ret, done, compress_zerochk,
  get_compressed_size_lzo, get_compressed_size_zlib, count_size, count_zero, count_ignored,
  get_compressed_size, algos, page_sizes, dump_pages, no_stats, init_algos, main,
}

-- What was printed for an algorithm, summed up.
abbrev pub column : Algo → List Sizes → ℕ
column a [] = 0
column a (s ∷ out) = size_of a s + column a out

-- What one page adds to the statistics.
pub record IsAdded (p : Page) (st : CompressStats) (s : Sizes) (st' : CompressStats) : Type 0 where
  pub size :
      (a : Algo)
      → size_of a st'.compressed_size ≡ (size_of a st.compressed_size + size_of a s) % 2 ^ 64
  pub original : st'.original_size ≡ st.original_size
  pub zeros :
      st'.zero_pages % 2 ^ 64 ≡ (st.zero_pages + of_bool (page_zero_filled p.bytes)) % 2 ^ 64

-- What the loop over the pages leaves in the statistics and has printed.
abbrev pub IsTotal : List Page → CompressStats → CompressStats × List Sizes → Type 0
IsTotal pages st (st', out) =
    (length out ≡ length pages)
    × ((a : Algo)
        → size_of a st'.compressed_size % 2 ^ 64
          ≡ (size_of a st.compressed_size + column a out) % 2 ^ 64)
    × (st'.original_size % 2 ^ 64 ≡ (st.original_size + 4096 * length pages) % 2 ^ 64)
    × (st'.zero_pages % 2 ^ 64
        ≡ (st.zero_pages + count (λ (p : Page). page_zero_filled p.bytes) pages) % 2 ^ 64)

module _ (l : Libs) (workmem : Bool) where
  -- The statistics after the zero check, LZO and zlib have given `a`, `b` and `c`.
  abbrev after : (a b c : ℕ) → CompressStats → CompressStats
  after a b c st = count_size zlib c (count_size lzo b (count_size zerochk a (count_zero a st)))

  added :
      (p : Page) (b c : ℕ) (st : CompressStats)
      → let a = compress_zerochk p.bytes 4096 in
        IsAdded p st (record { of_zerochk = a; of_lzo = b; of_zlib = c }) (after a b c st)
  unfolding compress_zerochk page_zero_filled
  added p b c st = elim (Bool-cases (zero_longs 512 p.bytes)) [
    | inl z ↦ rw z (record {
      size = sizes 0 (record st { zero_pages = (st.zero_pages + 1) % 2 ^ 64 }) refl;
      original = refl;
      zeros = rw z (omega arith);
    })
    | inr n ↦
        rw n (record { size = sizes 4096 st refl; original = refl; zeros = rw n (omega arith) })
  ]
    where
      sizes :
          (a : ℕ) (t : CompressStats)
          → t.compressed_size ≡ st.compressed_size
          → (x : Algo)
          → size_of x
              (count_size zlib c (count_size lzo b (count_size zerochk a t))).compressed_size
            ≡ (size_of x st.compressed_size
                + size_of x (record { of_zerochk = a; of_lzo = b; of_zlib = c }))
              % 2 ^ 64
      sizes a t e zerochk = ap (λ (u : Sizes). (u.of_zerochk + a) % 2 ^ 64) e
      sizes a t e lzo = ap (λ (u : Sizes). (u.of_lzo + b) % 2 ^ 64) e
      sizes a t e zlib = ap (λ (u : Sizes). (u.of_zlib + c) % 2 ^ 64) e

  pub page_sizes-IsAdded :
      (p : Page) (csize : Sizes) (st : CompressStats) {r : Ret} {s : Sizes} {st' : CompressStats}
      → page_sizes l workmem p algos csize st ≡ some (r, s, st')
      → (r ≡ done) × IsAdded p st s st'
  unfolding page_sizes get_compressed_size
  page_sizes-IsAdded p csize st {r} {s} {st'} e =
      let (x, counted, rest) =
        bind-eq-some
          (bind (get_compressed_size_lzo l workmem p 4096 csize.of_lzo) (count_ignored lzo _)) _
          e in
      let ((ret, b), sized, same) =
        bind-eq-some (get_compressed_size_lzo l workmem p 4096 csize.of_lzo) _ counted in
      subst (λ (t : Ret × Sizes × CompressStats). (t.0 ≡ done) × IsAdded p st t.1 t.2)
        (some-inj (rw (sym (some-inj same)) at rest))
        (refl, added p b (get_compressed_size_zlib l p 4096 csize.of_zlib).1 st)

  dump_pages-IsTotal :
      (pages : List Page) (csize : Sizes) (st : CompressStats) {r : CompressStats × List Sizes}
      → dump_pages l workmem pages csize st ≡ some r
      → IsTotal pages st r
  unfolding dump_pages count
  dump_pages-IsTotal [] csize st e =
      subst (IsTotal [] st) (some-inj e) (refl, λ a. omega arith, omega arith, omega arith)
  dump_pages-IsTotal (p ∷ pages) csize st e =
      let counted = record st { original_size = (st.original_size + 4096) % 2 ^ 64 } in
      let ((r, s, t), page, rest) = bind-eq-some (page_sizes l workmem p algos csize counted) _ e in
      let (ok, v) = page_sizes-IsAdded p csize counted page in
      let ((t', out), more, last) =
        bind-eq-some (dump_pages l workmem pages s t) _ (rw ok at rest) in
      let (len, sizes, original, zeros) = dump_pages-IsTotal pages s t more in
      subst (IsTotal (p ∷ pages) st) (some-inj last) (
        ap suc len,
        λ a. omega (arith, sizes a, v.size a),
        omega (arith, original, v.original),
        omega (arith, zeros, v.zeros),
      )

-- However LZO and zlib answer, and whatever buffers malloc refuses: where the program runs to its end, it
-- has printed the sizes of every page, and modulo 2^64 the total of each algorithm is the sum of its
-- printed sizes, the original size is that of the pages, and the number of zero pages is the number of
-- pages that pass `page_zero_filled`.
pub main-IsTotal :
    (l : Libs) (calloc : Bool) (stack : Sizes) (pages : List Page) {r : CompressStats × List Sizes}
    → main l calloc stack pages ≡ some r
    → IsTotal pages no_stats r
unfolding main
main-IsTotal l calloc stack pages e =
    dump_pages-IsTotal l (init_algos calloc algos false) pages stack no_stats e
