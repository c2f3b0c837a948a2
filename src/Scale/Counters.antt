-- ===== src/Scale/Counters.antt =====
-- zram_scale: the sums of the counters of pages are those of the table.
use compcache.Common.{
  ℕ, ◌+◌, ◌-◌, ◌/◌, ◌%◌, ◌^◌, ◌<◌, ◌≡◌, ◌≢◌, refl, sym, ap, ◌∙◌, subst, inl, inr, Bool, true, false,
  not, ◌&&◌, some, ◌==◌, get_elem?, set, get_elem?-set_self, get_elem?-set_ne, some-inj, arith,
  Bool-cases,
}
use compcache.Table.Count.{of_bool, count, count-set}
use compcache.Scale.{Zram, zram_add_stat, zram_get_stat}
use compcache.Scale.Stats.{zram_get_stat-add}

-- An entry with a page, an entry of a zero page, and an entry with a page that is not compressed.
abbrev pub is_stored : ℕ → Bool
is_stored addr = not (addr / 4096 == 0)

abbrev pub is_zero : ℕ → Bool
is_zero addr = addr % 2 == 1

abbrev pub is_expanded : ℕ → Bool
is_expanded addr = not (addr / 4096 == 0) && addr % 4096 == 0

-- The entry of a zero page has no frame.
abbrev pub IsShape : ℕ → Type 0
IsShape addr = addr % 2 ≡ 1 → addr / 4096 ≡ 0

-- The sum over the CPUs of each of three counters is the number of entries of its kind, modulo 2^64.
pub record IsCounted (cpus : ℕ) (z : Zram) : Type 0 where
  pub stored : zram_get_stat cpus 7 z ≡ count is_stored z.table % 2 ^ 64
  pub zeros : zram_get_stat cpus 6 z ≡ count is_zero z.table % 2 ^ 64
  pub expanded : zram_get_stat cpus 8 z ≡ count is_expanded z.table % 2 ^ 64
  pub shapes : (i addr : ℕ) → get_elem? z.table i ≡ some addr → IsShape addr

-- The sum of a counter moves as the flag of the one entry that changed does.
abbrev pub Moves : (cpus idx : ℕ) → Zram → Zram → (old new : Bool) → Type 0
Moves cpus idx z z' old new =
    zram_get_stat cpus idx z'
    ≡ (zram_get_stat cpus idx z + of_bool new + (2 ^ 64 - of_bool old)) % 2 ^ 64

pub set-IsCounted :
    (cpus i old new : ℕ) (z z' : Zram)
    → IsCounted cpus z
    → get_elem? z.table i ≡ some old
    → z'.table ≡ set z.table i new
    → IsShape new
    → Moves cpus 7 z z' (is_stored old) (is_stored new)
    → Moves cpus 6 z z' (is_zero old) (is_zero new)
    → Moves cpus 8 z z' (is_expanded old) (is_expanded new)
    → IsCounted cpus z'
set-IsCounted cpus i old new z z' v e t shape a b c = record {
  stored = moved 7 is_stored v.stored a;
  zeros = moved 6 is_zero v.zeros b;
  expanded = moved 8 is_expanded v.expanded c;
  shapes = λ j s g. elim (Bool-cases (i == j)) [
    | inl same ↦
        let q : i ≡ j = ground arith in
        let r : some new ≡ some s =
          sym (get_elem?-set_self z.table i new old e)
          ∙ ap (get_elem? (set z.table i new)) q
          ∙ ap (λ table. get_elem? table j) (sym t)
          ∙ g in
        subst IsShape (some-inj r) shape
    | inr other ↦ v.shapes j s (
        sym (get_elem?-set_ne z.table new (ground arith))
        ∙ ap (λ table. get_elem? table j) (sym t)
        ∙ g)
  ];
}
  where
    moved :
        (idx : ℕ) (test : ℕ → Bool)
        → zram_get_stat cpus idx z ≡ count test z.table % 2 ^ 64
        → Moves cpus idx z z' (test old) (test new)
        → zram_get_stat cpus idx z' ≡ count test z'.table % 2 ^ 64
    moved idx test was step = rw t (ground (arith, count-set test z.table i old new e))

-- The sum of a counter, where the CPU has counted a value in it or in another one.
pub get_self :
    (cpus cpu idx val : ℕ) (z : Zram)
    → cpu < cpus
    → zram_get_stat cpus idx (zram_add_stat cpu idx val z)
      ≡ (zram_get_stat cpus idx z + val) % 2 ^ 64
get_self cpus cpu idx val z lt = (zram_get_stat-add cpus cpu idx val z lt).0

pub get_other :
    (cpus cpu idx val i : ℕ) (z : Zram)
    → cpu < cpus
    → i ≢ idx
    → zram_get_stat cpus i (zram_add_stat cpu idx val z) ≡ zram_get_stat cpus i z
get_other cpus cpu idx val i z lt ne = (zram_get_stat-add cpus cpu idx val z lt).1 i ne

-- Only the statistics of a device make the sums.
pub get_same :
    (cpus idx : ℕ) (z z' : Zram)
    → z'.stats ≡ z.stats
    → zram_get_stat cpus idx z' ≡ zram_get_stat cpus idx z
unfolding zram_get_stat
get_same cpus idx z z' e = rw e refl

-- The three ways in which a counter moves with an entry.
module _ (x : ℕ) (old new : Bool) {x' : ℕ} where
  pub stays :
      x < 2 ^ 64 → x' ≡ x → old ≡ new → x' ≡ (x + of_bool new + (2 ^ 64 - of_bool old)) % 2 ^ 64
  stays a b e = elim (Bool-cases new) [
    | inl p ↦ rw (e, p) (omega (arith, a, b))
    | inr p ↦ rw (e, p) (omega (arith, a, b))
  ]

  pub falls :
      x' ≡ (x + (2 ^ 64 - 1)) % 2 ^ 64
      → old ≡ true
      → new ≡ false
      → x' ≡ (x + of_bool new + (2 ^ 64 - of_bool old)) % 2 ^ 64
  falls b e f = rw (e, f) (omega (arith, b))

  pub grows :
      x' ≡ (x + 1) % 2 ^ 64
      → old ≡ false
      → new ≡ true
      → x' ≡ (x + of_bool new + (2 ^ 64 - of_bool old)) % 2 ^ 64
  grows b e f = rw (e, f) (omega (arith, b))
