-- ===== src/Xvmalloc/Layout.antt =====
-- A page of the pool of xvmalloc.c as the list of its blocks, and what the headers in the page say of it.
pub mod Headers
pub mod Split
pub mod Take
pub mod Gap
pub mod Mark
pub mod Free
pub mod RoundTrip
mod Tests
use compcache.Common.{
  ℕ, zero, suc, ◌+◌, ◌*◌, ◌/◌, ◌%◌, ◌≤◌, ◌<◌, ◌≡◌, ◌≢◌, refl, sym, ap, ◌∙◌, Bool, true, false,
  Option, none, some, List, [], ◌∷◌, ◌++◌, if◌then◌else◌, arith, inl, inr, Bool-cases, subst,
  some-inj, ◌==◌,
}
use compcache.Block.{Header, block_free, prev_free, test_flag, get_blockprev}

-- A block: the size in its header, and whether it is free.
pub record Span : Type 0 where
  pub size : ℕ
  pub free : Bool

-- The bytes of a block behind its header.
abbrev pub extent : Span → ℕ
extent s = (s.size + 3) / 4 * 4

-- The block before is free and lies at `b`, or it is not free, or there is none.
abbrev pub IsBack : Header → Option ℕ → Type 0
IsBack h none = test_flag h prev_free ≡ false
IsBack h (some b) = (test_flag h prev_free ≡ true) × (get_blockprev h ≡ b)

-- A header says what a block is. A free block has a multiple of 4 bytes, and none before it is free.
pub record IsBlock (h : Header) (before : Option ℕ) (s : Span) : Type 0 where
  pub size : h.size ≡ s.size
  pub free : test_flag h block_free ≡ s.free
  pub back : IsBack h before
  pub whole : s.free ≡ true → (s.size % 4 ≡ 0) × (before ≡ none)

-- Where a block that ends is the one before the next.
abbrev pub after : ℕ → Span → Option ℕ
after o s = if s.free then some o else none

-- The blocks of a page `m` from offset `o` up to `e`.
abbrev pub Lays : (ℕ → Header) → ℕ → Option ℕ → List Span → ℕ → Option ℕ → Type 0
Lays m o before [] e last = (o ≡ e) × (before ≡ last)
Lays m o before (s ∷ spans) e last =
    IsBlock (m o) before s × Lays m (o + extent s + 4) (after o s) spans e last

-- Two headers agree on the size, the flags and the back reference.
abbrev pub Same : Header → Header → Type 0
Same h k = (h.size ≡ k.size) × (h.prev ≡ k.prev)

pub IsBlock-same :
    {h k : Header} {before : Option ℕ} {s : Span}
    → Same k h
    → IsBlock h before s
    → IsBlock k before s
unfolding test_flag get_blockprev
IsBlock-same {h} {k} {before} {s} (a, b) v = record {
  size = a ∙ v.size;
  free = ap (λ (p : ℕ). if_odd p) b ∙ v.free;
  back = back before (v.back);
  whole = v.whole;
}
  where
    if_odd : ℕ → Bool
    if_odd p = p % 2 == 1

    back : (o : Option ℕ) → IsBack h o → IsBack k o
    back none q = ground arith
    back (some x) q = ground arith

pub Lays-le :
    (m : ℕ → Header) (o : ℕ) (before : Option ℕ) (spans : List Span) (e : ℕ) (last : Option ℕ)
    → Lays m o before spans e last
    → o ≤ e
Lays-le m o before [] e last (a, b) = omega arith
Lays-le m o before (s ∷ spans) e last (a, b) =
    omega (arith, Lays-le m (o + extent s + 4) (after o s) spans e last b)

pub Lays-aligned :
    (m : ℕ → Header) (o : ℕ) (before : Option ℕ) (spans : List Span) (e : ℕ) (last : Option ℕ)
    → Lays m o before spans e last
    → o % 4 ≡ 0
    → e % 4 ≡ 0
Lays-aligned m o before [] e last (a, b) z = omega arith
Lays-aligned m o before (s ∷ spans) e last (a, b) z =
    Lays-aligned m (o + extent s + 4) (after o s) spans e last b (omega arith)

-- The blocks are those of any page that agrees with this one between the two offsets.
pub Lays-same :
    (m m' : ℕ → Header) (o : ℕ) (before : Option ℕ) (spans : List Span) (e : ℕ) (last : Option ℕ)
    → Lays m o before spans e last
    → ((i : ℕ) → o ≤ i → i < e → Same (m' i) (m i))
    → Lays m' o before spans e last
Lays-same m m' o before [] e last v same = v
Lays-same m m' o before (s ∷ spans) e last (a, b) same =
    let le = Lays-le m (o + extent s + 4) (after o s) spans e last b in
    (
      IsBlock-same (same o (omega arith) (omega arith)) a,
      Lays-same m m' (o + extent s + 4) (after o s) spans e last b
          (λ i l h. same i (omega arith) h),
    )

pub Lays-append :
    (m : ℕ → Header) (o : ℕ) (before : Option ℕ) (xs ys : List Span) (a : ℕ) (mid : Option ℕ)
    (e : ℕ) (last : Option ℕ)
    → Lays m o before xs a mid
    → Lays m a mid ys e last
    → Lays m o before (xs ++ ys) e last
Lays-append m o before [] ys a mid e last (p, q) w =
    subst (λ i. Lays m i before ys e last) (sym p) (subst (λ b. Lays m a b ys e last) (sym q) w)
Lays-append m o before (s ∷ xs) ys a mid e last (p, v) w =
    (p, Lays-append m (o + extent s + 4) (after o s) xs ys a mid e last v w)

-- Behind the last byte of a page there is no block.
pub Lays-end :
    (m : ℕ → Header) (before : Option ℕ) (spans : List Span) (e : ℕ) (last : Option ℕ)
    → Lays m e before spans e last
    → spans ≡ []
Lays-end m before [] e last v = refl
Lays-end m before (s ∷ spans) e last (a, b) =
    absurd (omega (arith, Lays-le m (e + extent s + 4) (after e s) spans e last b))

-- The last block of a list is free and lies at `b`: the blocks before it, and that block.
pub record IsLastFree (m : ℕ → Header) (o : ℕ) (before : Option ℕ) (spans : List Span) (e b : ℕ)
    : Type 0 where
  pub front : List Span
  pub block : Span
  pub joined : spans ≡ front ++ (block ∷ [])
  pub is_free : block.free ≡ true
  pub lays : Lays m o before front b none
  pub here : IsBlock (m b) none block
  pub adjacent : b + extent block + 4 ≡ e

after-some : (o b : ℕ) (s : Span) → after o s ≡ some b → (s.free ≡ true) × (o ≡ b)
after-some o b s e = elim (Bool-cases s.free) [
  | inl f ↦ (f, some-inj (rw f at e))
  | inr n ↦ absurd (cc (rw n at e))
]

pub last_free :
    (m : ℕ → Header) (o : ℕ) (before : Option ℕ) (s : Span) (rest : List Span) (e b : ℕ)
    → Lays m o before (s ∷ rest) e (some b)
    → IsLastFree m o before (s ∷ rest) e b
last_free m o before s [] e b (v, (at_end, last)) =
    let (f, here) = after-some o b s last in
    let none_before = (v.whole f).1 in
    record {
      front = [];
      block = s;
      joined = refl;
      is_free = f;
      lays = (here, none_before);
      here = subst (λ i. IsBlock (m i) none s) here (subst (λ q. IsBlock (m o) q s) none_before v);
      adjacent = omega arith;
    }
last_free m o before s (t ∷ rest) e b (v, w) =
    let r = last_free m (o + extent s + 4) (after o s) t rest e b w in
    record {
      front = s ∷ r.front;
      block = r.block;
      joined = ap (λ l. s ∷ l) r.joined;
      is_free = r.is_free;
      lays = (v, r.lays);
      here = r.here;
      adjacent = r.adjacent;
    }

-- A page is the list of its blocks.
pub record IsPage (m : ℕ → Header) (spans : List Span) : Type 0 where
  pub last : Option ℕ
  pub lays : Lays m 0 none spans 4096 last

-- The blocks from `e` on are still those where only the flags and the back reference of the first of
-- them have changed, to say what is now before them.
pub relay :
    (m m' : ℕ → Header) (e : ℕ) (old new : Option ℕ) (spans : List Span) (last : Option ℕ)
    → Lays m e old spans 4096 last
    → (e ≢ 4096 → (s : Span) → IsBlock (m e) old s → IsBlock (m' e) new s)
    → ((i : ℕ) → e < i → i < 4096 → Same (m' i) (m i))
    → (last' : Option ℕ) × Lays m' e new spans 4096 last'
relay m m' e old new [] last (a, b) head same = (new, (a, refl))
relay m m' e old new (s ∷ spans) last (v, w) head same =
    let le = Lays-le m (e + extent s + 4) (after e s) spans 4096 last w in
    (
      last,
      (
        head (λ q. absurd (omega arith)) s v,
        Lays-same m m' (e + extent s + 4) (after e s) spans 4096 last w
            (λ i l h. same i (omega arith) h),
      ),
    )

-- A page from the blocks before an offset, the one there, and those behind it.
pub page_of :
    (m : ℕ → Header) (o : ℕ) (before : Option ℕ) (pre : List Span) (s : Span) (post : List Span)
    (last : Option ℕ)
    → Lays m 0 none pre o before
    → IsBlock (m o) before s
    → Lays m (o + extent s + 4) (after o s) post 4096 last
    → IsPage m (pre ++ (s ∷ post))
page_of m o before pre s post last a b c = record {
  last = last;
  lays = Lays-append m 0 none pre (s ∷ post) o before 4096 last a (b, c);
}
