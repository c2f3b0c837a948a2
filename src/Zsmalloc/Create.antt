-- ===== src/Zsmalloc/Create.antt =====
-- `zs_create_pool` of zsmalloc.c: the classes of a new pool, and what a failure gives back.
use compcache.Common.{
  ℕ, zero, suc, ◌+◌, ◌≤◌, ◌<◌, ◌≡◌, ◌≢◌, inl, inr, refl, sym, ap, ◌∙◌, true, false, none, some,
  List, [], ◌∷◌, ltb, ◌==◌, arith, Bool-cases, update, subst,
}
use compcache.Zsmalloc.{SizeClass, size_classes}
use compcache.Zsmalloc.Classes.{
  zeroed, made, create_from, destroy_from, zs_destroy_pool, zs_create_pool,
}

-- Classes below the `i`-th are made, the others are as `kzalloc` left them.
record IsMadeBelow (vm : ℕ → ℕ) (i : ℕ) (classes : ℕ → SizeClass) : Type 0 where
  below : (j : ℕ) → j < i → classes j ≡ made j (vm j) zeroed
  above : (j : ℕ) → i ≤ j → classes j ≡ zeroed

IsMadeBelow-at :
    {vm : ℕ → ℕ} {classes : ℕ → SizeClass} {i j : ℕ}
    → i ≡ j
    → IsMadeBelow vm i classes
    → IsMadeBelow vm j classes
IsMadeBelow-at {vm} {classes} e v = subst (λ m. IsMadeBelow vm m classes) e v

made_next :
    (vm : ℕ → ℕ) (i : ℕ) (classes : ℕ → SizeClass)
    → IsMadeBelow vm i classes
    → IsMadeBelow vm (suc i) (update classes i (made i (vm i) (classes i)))
made_next vm i classes v = record {
  below = λ j l. elim (Bool-cases (j == i)) [
    | inl e ↦
        let q : j ≡ i = ground arith in
        rw e (
          ap (made i (vm i)) (v.above i (omega arith))
          ∙ ap (λ (n : ℕ). made n (vm n) zeroed) (sym q))
    | inr n ↦ rw n (v.below j (ground arith))
  ];
  above = λ j l. let n : (j == i) ≡ false = ground arith in rw n (v.above j (omega arith));
}

-- No class is made yet.
none_made : (vm : ℕ → ℕ) → IsMadeBelow vm 0 (λ i. zeroed)
none_made vm = record { below = λ j l. absurd (omega arith); above = λ j l. refl }

-- All calls from the `i`-th to the one before `i + n` return an area.
create_from-all :
    (vm : ℕ → ℕ) (n i : ℕ) (classes : ℕ → SizeClass)
    → IsMadeBelow vm i classes
    → ((j : ℕ) → j < i + n → vm j ≢ 0)
    → let r = create_from vm n i classes in (r.0 ≡ true) × IsMadeBelow vm (i + n) r.1
unfolding create_from
create_from-all vm zero i classes v all = (refl, IsMadeBelow-at (omega arith) v)
create_from-all vm (suc n) i classes v all =
    let ne = all i (omega arith) in
    let q : (vm i == 0) ≡ false = ground arith in
    let (done, w) =
      create_from-all vm n (suc i) _ (made_next vm i classes v) (λ j l. all j (omega arith)) in
    rw q (done, IsMadeBelow-at (omega arith) w)

-- The call for class `k` is the first that returns none.
create_from-fault :
    (vm : ℕ → ℕ) (n i k : ℕ) (classes : ℕ → SizeClass)
    → IsMadeBelow vm i classes
    → i ≤ k
    → k < i + n
    → ((j : ℕ) → j < k → vm j ≢ 0)
    → vm k ≡ 0
    → let r = create_from vm n i classes in (r.0 ≡ false) × IsMadeBelow vm (suc k) r.1
unfolding create_from
create_from-fault vm zero i k classes v lo hi all z = absurd (omega arith)
create_from-fault vm (suc n) i k classes v lo hi all z = elim (Bool-cases (vm i == 0)) [
  | inl e ↦
      let q : i ≡ k = later i lo (ground arith) in
      rw e (refl, IsMadeBelow-at (ap suc q) (made_next vm i classes v))
  | inr ne ↦ rw ne (
      create_from-fault vm n (suc i) k _ (made_next vm i classes v) (strictly ne) (omega arith) all
        z)
]
  where
    strictly : (vm i == 0) ≡ false → suc i ≤ k
    strictly ne = elim (Bool-cases (i == k)) [
      | inl e ↦ let q : i ≡ k = ground arith in absurd (let r = ap vm q in ground arith)
      | inr n ↦ ground arith
    ]

    later : (i : ℕ) → i ≤ k → vm i ≡ 0 → i ≡ k
    later i l z = elim (Bool-cases (ltb i k)) [
      | inl below ↦ absurd (all i (ground arith) z)
      | inr n ↦ ground arith
    ]

-- The areas `vm i`, ..., `n` of them.
abbrev pub areas : (vm : ℕ → ℕ) → (n i : ℕ) → List ℕ
areas vm zero i = []
areas vm (suc n) i = vm i ∷ areas vm n (suc i)

destroy_from-none :
    (n i : ℕ) (classes : ℕ → SizeClass)
    → ((j : ℕ) → i ≤ j → (classes j).vm ≡ 0)
    → destroy_from n i classes ≡ []
unfolding destroy_from
destroy_from-none zero i classes z = refl
destroy_from-none (suc n) i classes z =
    rw (z i (omega arith)) (destroy_from-none n (suc i) classes (λ j l. z j (omega arith)))

destroy_from-areas :
    (vm : ℕ → ℕ) (n d i : ℕ) (classes : ℕ → SizeClass)
    → d ≤ n
    → ((j : ℕ) → j < i + d → ((classes j).vm ≡ vm j) × (vm j ≢ 0))
    → ((j : ℕ) → i + d ≤ j → (classes j).vm ≡ 0)
    → destroy_from n i classes ≡ areas vm d i
unfolding destroy_from
destroy_from-areas vm zero zero i classes l below above = refl
destroy_from-areas vm zero (suc d) i classes l below above = absurd (omega arith)
destroy_from-areas vm (suc n) zero i classes l below above =
    rw (above i (omega arith)) (destroy_from-none n (suc i) classes (λ j a. above j (omega arith)))
destroy_from-areas vm (suc n) (suc d) i classes l below above =
    let (e, ne) = below i (omega arith) in
    let q : (vm i == 0) ≡ false = ground arith in
    rw (e, q)
      (ap (λ t. vm i ∷ t)
        (destroy_from-areas vm n d (suc i) classes (omega arith) (λ j a. below j (omega arith))
          (λ j a. above j (omega arith))))

-- Where all calls of the kernel succeed, `zs_create_pool` returns a pool in which every class `i` has
-- objects of `32 + 16 i` bytes, its index, the order for that size and its area, and is otherwise zero.
pub zs_create_pool-success :
    (vm : ℕ → ℕ)
    → ((j : ℕ) → j < size_classes → vm j ≢ 0)
    → (classes : ℕ → SizeClass) × (zs_create_pool true true vm ≡ (some classes, []))
      × ((i : ℕ) → i < size_classes → classes i ≡ made i (vm i) zeroed)
unfolding zs_create_pool
zs_create_pool-success vm all =
    let (done, v) = create_from-all vm 255 0 (λ i. zeroed) (none_made vm) all in
    ((create_from vm 255 0 (λ i. zeroed)).1, rw done refl, v.below)

-- Where `alloc_vm_area` fails first for class `k`, `zs_create_pool` returns NULL, and it has freed the
-- areas of all classes below `k`, in their order, and nothing else.
pub zs_create_pool-fault :
    (vm : ℕ → ℕ) (k : ℕ)
    → k < size_classes
    → ((j : ℕ) → j < k → vm j ≢ 0)
    → vm k ≡ 0
    → zs_create_pool true true vm ≡ (none, areas vm k 0)
unfolding zs_create_pool zs_destroy_pool
zs_create_pool-fault vm k lo all z =
    let classes = (create_from vm 255 0 (λ i. zeroed)).1 in
    let (done, v) =
      create_from-fault vm 255 0 k (λ i. zeroed) (none_made vm) (omega arith) lo all z in
    let area = λ (j : ℕ) (l : j < suc k). ap (λ (c : SizeClass). c.vm) (v.below j l) in
    rw done (
      ap (λ t. (none, t))
        (destroy_from-areas vm 255 k 0 classes (omega arith)
          (λ j l. (area j (omega arith), all j (omega arith)))
          (λ j l. elim (Bool-cases (j == k)) [
            | inl e ↦ let q : j ≡ k = ground arith in area j (omega arith) ∙ ap vm q ∙ z
            | inr n ↦ ap (λ (c : SizeClass). c.vm) (v.above j (ground arith))
          ])))
