-- ===== src/Fstats/Errors.antt =====
-- fstats.c: what an allocation that fails leaves in the output.
use compcache.Common.{
  ℕ, ◌+◌, ◌%◌, ◌^◌, ◌≡◌, refl, sym, ap, ap₂, ◌∙◌, subst, Bool, true, false, none, some, List, ◌∷◌,
  some-inj, get_elem?, drop,
}
use compcache.Device.Bind.{bind-eq-some}
use compcache.Fstats.{
  Sizes, CompressStats, Libs, Page, Ret, done, enomem, compress_init, compress_zerochk,
  get_compressed_size_lzo, get_compressed_size_zlib, get_compressed_size, algos, page_sizes,
  dump_pages, no_stats, init_algos, main,
}
use compcache.Fstats.Totals.{page_sizes-IsAdded}

-- What is printed for a page whose buffers malloc refuses: the sizes that stood in `csize`.
page_sizes-stale :
    (l : Libs) (workmem : Bool) (p : Page) (csize : Sizes) (st : CompressStats)
    → p.lzo_buffer ≡ false
    → p.zlib_buffer ≡ false
    → (st' : CompressStats) × (page_sizes l workmem p algos csize st
        ≡ some (done, record csize { of_zerochk = compress_zerochk p.bytes 4096 }, st'))
unfolding page_sizes get_compressed_size get_compressed_size_lzo get_compressed_size_zlib
page_sizes-stale l workmem p csize st a b =
    let x : get_compressed_size_lzo l workmem p 4096 csize.of_lzo ≡ some (enomem, csize.of_lzo) =
      rw a refl in
    let y : get_compressed_size_zlib l p 4096 csize.of_zlib ≡ (enomem, csize.of_zlib) = rw b refl in
    rw (x, y) (_, refl)

-- The sizes of the first page of a file.
first_printed :
    (l : Libs) (workmem : Bool) (p : Page) (pages : List Page) (csize : Sizes) (st : CompressStats)
    {st' : CompressStats} {a : Sizes} {out : List Sizes}
    → dump_pages l workmem (p ∷ pages) csize st ≡ some (st', a ∷ out)
    → (t : CompressStats) × (dump_pages l workmem pages a t ≡ some (st', out))
      × (page_sizes l workmem p algos csize
            (record st { original_size = (st.original_size + 4096) % 2 ^ 64 })
          ≡ some (done, a, t))
unfolding dump_pages
first_printed l workmem p pages csize st {st'} {a} {out} e =
    let counted = record st { original_size = (st.original_size + 4096) % 2 ^ 64 } in
    let ((r, s, t), page, rest) = bind-eq-some (page_sizes l workmem p algos csize counted) _ e in
    let ok = (page_sizes-IsAdded l workmem p csize counted page).0 in
    let (r', more, last) = bind-eq-some (dump_pages l workmem pages s t) _ (rw ok at rest) in
    let whole = some-inj last in
    let head : s ≡ a = some-inj (ap (λ (x : CompressStats × List Sizes). get_elem? x.1 0) whole) in
    let tail : r' ≡ (st', out) = ap (λ (x : CompressStats × List Sizes). (x.0, drop 1 x.1)) whole in
    (
      t,
      subst (λ x. dump_pages l workmem pages x t ≡ some (st', out)) head (more ∙ ap some tail),
      page ∙ ap₂ (λ x y. some (x, y, t)) ok head,
    )

-- Where malloc gives no buffers for the second page of a file, the program prints for it the sizes of LZO
-- and zlib that it printed for the first page; and where it gives none for the first page, what the
-- uninitialised array `csize` held.
pub main-stale :
    (l : Libs) (calloc : Bool) (stack : Sizes) (p q : Page) (pages : List Page) {st : CompressStats}
    {a b : Sizes} {out : List Sizes}
    → main l calloc stack (p ∷ (q ∷ pages)) ≡ some (st, a ∷ (b ∷ out))
    → (p.lzo_buffer ≡ false
        → p.zlib_buffer ≡ false
        → (a.of_lzo ≡ stack.of_lzo) × (a.of_zlib ≡ stack.of_zlib))
      × (q.lzo_buffer ≡ false
          → q.zlib_buffer ≡ false
          → (b.of_lzo ≡ a.of_lzo) × (b.of_zlib ≡ a.of_zlib))
unfolding main
main-stale l calloc stack p q pages e =
    let w = init_algos calloc algos false in
    let (t, rest, page) = first_printed l w p (q ∷ pages) stack no_stats e in
    let (t', _, page') = first_printed l w q pages _ t rest in
    (λ x y. stale p _ _ page x y, λ x y. stale q _ _ page' x y)
  where
    stale :
        (p : Page) (csize : Sizes) (st : CompressStats) {a : Sizes} {t : CompressStats}
        → page_sizes l (init_algos calloc algos false) p algos csize st ≡ some (done, a, t)
        → p.lzo_buffer ≡ false
        → p.zlib_buffer ≡ false
        → (a.of_lzo ≡ csize.of_lzo) × (a.of_zlib ≡ csize.of_zlib)
    stale p csize st {a} page x y =
        let (_, printed) = page_sizes-stale l (init_algos calloc algos false) p csize st x y in
        let same = some-inj (sym page ∙ printed) in
        (
          ap (λ (r : Ret × Sizes × CompressStats). r.1.of_lzo) same,
          ap (λ (r : Ret × Sizes × CompressStats). r.1.of_zlib) same,
        )

-- Where `calloc` gives no working memory for LZO, `main` goes on, and hands LZO the NULL pointer for a
-- first page that gets its buffer.
main-no_workmem :
    (l : Libs) (stack : Sizes) (p : Page) (pages : List Page)
    → p.lzo_buffer ≡ true
    → main l false stack (p ∷ pages) ≡ none
unfolding main init_algos compress_init dump_pages page_sizes get_compressed_size
    get_compressed_size_lzo
main-no_workmem l stack p pages a =
    let x : (csize : ℕ) → get_compressed_size_lzo l false p 4096 csize ≡ none =
      λ csize. rw a refl in
    rw (x stack.of_lzo) refl
