-- ===== src/Zsmalloc/Chain.antt =====
-- `init_zspage` of zsmalloc.c: it goes over all pages of a zspage, and ends.
use compcache.Common.{
  ℕ, zero, suc, ◌+◌, ◌-◌, ◌*◌, ◌/◌, ◌%◌, ◌≤◌, ◌<◌, ◌≡◌, ◌≢◌, ◌⊎◌, inl, inr, refl, sym, ap, ◌∙◌,
  true, false, some, List, [], ◌∷◌, ◌==◌, arith, Bool-cases, subst,
}
use compcache.Zsmalloc.{Kernel, Page, Memory, get_next_page, page_size}
use compcache.Zsmalloc.Zspage.{init_pages, init_zspage}
use compcache.Zsmalloc.Start.{count, IsStart, Inner, IsStart-next, order-Inner}
use compcache.Zsmalloc.Classes.{get_zspage_order}
use compcache.Zsmalloc.Order.{get_zspage_order_lem}
use compcache.Zsmalloc.InitPage.{init_page-IsLaid}

-- The pages of a zspage from one on, as `get_next_page` goes through them.
abbrev pub IsChain : Memory → ℕ → List ℕ → Type 0
IsChain m page [] = page ≡ 0
IsChain m page (p ∷ ps) = (page ≡ p) × (p ≢ 0) × IsChain m (get_next_page m p) ps

abbrev pub Absent : ℕ → List ℕ → Type 0
Absent p [] = Unit
Absent p (q ∷ ps) = (p ≢ q) × Absent p ps

abbrev pub Distinct : List ℕ → Type 0
Distinct [] = Unit
Distinct (p ∷ ps) = Absent p ps × Distinct ps

-- Every page but the first of the zspage has the index of its first object, where the first of these
-- pages is at offset `start` of the zspage.
abbrev pub IsIndexed : (size first_page : ℕ) → Memory → (start : ℕ) → List ℕ → Type 0
IsIndexed size first_page m start [] = Unit
IsIndexed size first_page m start (p ∷ ps) =
    (p ≢ first_page → IsStart size start (m.pages p).freelist)
    × IsIndexed size first_page m (start + 4096) ps

-- What is known of the offset that the loop has at the first of these pages.
abbrev Begins : (size start off : ℕ) → List ℕ → Type 0
Begins size start off [] = Unit
Begins size start off (p ∷ ps) = IsStart size start off

IsChain-same :
    (m m' : Memory) (page : ℕ) (ps : List ℕ)
    → ((i : ℕ) → get_next_page m' i ≡ get_next_page m i)
    → IsChain m page ps
    → IsChain m' page ps
IsChain-same m m' page [] e v = v
IsChain-same m m' page (p ∷ ps) e (a, b, c) =
    (a, b, IsChain-same m m' (get_next_page m' p) ps e (subst (λ i. IsChain m i ps) (sym (e p)) c))

-- The rest of the run.
record IsDone (size first_page start : ℕ) (ps : List ℕ) (m m' : Memory) : Type 0 where
  set : IsIndexed size first_page m' start ps
  others : (i : ℕ) → Absent i ps ⊎ (i ≡ first_page) → m'.pages i ≡ m.pages i
  next : (i : ℕ) → get_next_page m' i ≡ get_next_page m i
  freed : m'.freed ≡ m.freed

Begins-next :
    (size start off p : ℕ) (ps : List ℕ)
    → 0 < size
    → size ≤ 4096
    → Inner size start (p ∷ ps)
    → IsStart size start off
    → Begins size (start + 4096) ((off + (4096 - off) / size * size + size) % 4096) ps
Begins-next size start off p [] pos le inner v = tt
Begins-next size start off p (q ∷ ps) pos le (crosses, inner) v =
    IsStart-next size start off pos le crosses v

Inner-next :
    (size start p : ℕ) (ps : List ℕ) → Inner size start (p ∷ ps) → Inner size (start + 4096) ps
Inner-next size start p [] v = tt
Inner-next size start p (q ∷ ps) v = v.1

init_pages-IsDone :
    (k : Kernel) (n first_page page size off start : ℕ) (ps : List ℕ) (m : Memory)
    → 0 < size
    → size ≤ 4096
    → count ps ≤ n
    → IsChain m page ps
    → Distinct ps
    → Inner size start ps
    → Begins size start off ps
    → (m' : Memory) × (init_pages k n first_page page size off m ≡ some m')
      × IsDone size first_page start ps m m'
unfolding init_pages
init_pages-IsDone k zero first_page page size off start [] m pos le c v d inner b =
    rw v (m, refl, record { set = tt; others = λ i _. refl; next = λ i. refl; freed = refl })
init_pages-IsDone k (suc n) first_page page size off start [] m pos le c v d inner b =
    rw v (m, refl, record { set = tt; others = λ i _. refl; next = λ i. refl; freed = refl })
init_pages-IsDone k zero first_page page size off start (p ∷ ps) m pos le c v d inner b =
    absurd (omega arith)
init_pages-IsDone k (suc n) first_page page size off start (p ∷ ps) m pos le c (at, ne, v)
      (absent, d) inner b =
    let z : (p == 0) ≡ false = ground arith in
    let ((off', m1), e, o, laid) = init_page-IsLaid k first_page p size off m ne in
    let w : IsChain m1 (get_next_page m1 p) ps =
      IsChain-same m m1 (get_next_page m1 p) ps laid.next
        (subst (λ i. IsChain m i ps) (sym (laid.next p)) v) in
    let (m2, f, done) =
      init_pages-IsDone k n first_page (get_next_page m1 p) size off' (start + 4096) ps m1 pos le
        (omega arith) w d (Inner-next size start p ps inner)
        (subst (λ i. Begins size (start + 4096) i ps) (sym o)
          (Begins-next size start off p ps pos le inner b)) in
    (
      m2,
      rw (at, z, e) f,
      record {
        set = (
          (λ q.
              let i : (m2.pages p).freelist ≡ off =
                ap (λ (r : Page). r.freelist) (done.others p (inl absent)) ∙ laid.index q in
              subst (IsStart size start) (sym i) b),
          done.set,
        );
        others = λ i c. elim c [
          | inl a ↦ done.others i (inl a.1) ∙ laid.others i (inl a.0)
          | inr q ↦
              done.others i (inr q)
              ∙ laid.others i (elim (Bool-cases (i == p)) [
                | inl r ↦ inr (let t : i ≡ p = ground arith in sym t ∙ q)
                | inr r ↦ inl (ground arith)
              ])
        ];
        next = λ i. done.next i ∙ laid.next i;
        freed = done.freed ∙ laid.freed;
      },
    )

-- Where the pages of a zspage follow each other under `get_next_page`, are all different, and are as
-- many as `get_zspage_order` says for a class of 1 to `PAGE_SIZE` bytes, `init_zspage` ends without a
-- BUG, every page after the first has as its index the offset of the first object that begins in that
-- page, and the first page's own fields, the links between the pages and all other pages are unchanged.
pub init_zspage-IsIndexed :
    (k : Kernel) (first_page size : ℕ) (ps : List ℕ) (m : Memory)
    → 0 < size
    → size ≤ page_size
    → (m.pages first_page).first ≡ true
    → IsChain m first_page (first_page ∷ ps)
    → Distinct (first_page ∷ ps)
    → count (first_page ∷ ps) ≡ get_zspage_order size
    → (m' : Memory) × (init_zspage k first_page size m ≡ some m')
      × IsIndexed size first_page m' page_size ps
      × ((i : ℕ) → Absent i ps → m'.pages i ≡ m.pages i)
      × IsChain m' first_page (first_page ∷ ps)
      × (m'.freed ≡ m.freed)
unfolding init_zspage
init_zspage-IsIndexed k first_page size ps m pos le f chain distinct order =
    let (_, most, _, _) = get_zspage_order_lem size in
    let (m', e, done) =
      init_pages-IsDone k 4 first_page first_page size 0 0 (first_page ∷ ps) m pos le
        (omega (arith, order)) chain distinct
        (order-Inner size 0 0 (first_page ∷ ps) refl (omega (arith, order)))
        (record { before = pos; nth = 0; multiple = omega arith }) in
    (
      m',
      rw f e,
      done.set.1,
      (λ i a. elim (Bool-cases (i == first_page)) [
        | inl q ↦ done.others i (inr (ground arith))
        | inr n ↦ done.others i (inl (ground arith, a))
      ]),
      IsChain-same m m' first_page (first_page ∷ ps) done.next chain,
      done.freed,
    )
