-- ===== src/Table/Count.antt =====
-- The counters of `struct zram_stats` that count table entries.
use compcache.Common.{
  ℕ, zero, suc, ◌+◌, ◌%◌, ◌^◌, ◌≡◌, Bool, some, List, [], ◌∷◌, not, ◌==◌, ◌&&◌, if◌then◌else◌,
  get_elem?, set, get_elem?-set_self, get_elem?-set_ne, arith, Bool-cases, inl, inr, sym, ap, subst,
  ◌∙◌, ◌-◌, false,
}
use compcache.Table.{Slot, Stats}

abbrev pub of_bool : Bool → ℕ
of_bool b = if b then 1 else 0

-- How many entries pass a test.
unfoldable pub count {ℓ} : {A : Type ℓ} → (A → Bool) → List A → ℕ
count test [] = 0
count test (s ∷ slots) = of_bool (test s) + count test slots

-- Replacing an entry takes the old one out of the count and the new one in.
pub count-set {ℓ} :
    {A : Type ℓ} (test : A → Bool) (slots : List A) (i : ℕ) (old new : A)
    → get_elem? slots i ≡ some old
    → count test (set slots i new) + of_bool (test old) ≡ count test slots + of_bool (test new)
unfolding count
count-set test [] i old new e = cc
count-set test (s ∷ slots) zero old new e = ground arith
count-set test (s ∷ slots) (suc i) old new e = omega (arith, count-set test slots i old new e)

abbrev pub is_stored : Slot → Bool
is_stored s = not (s.page == 0)

abbrev pub is_zero_page : Slot → Bool
is_zero_page s = s.zero_filled

abbrev pub is_expanded : Slot → Bool
is_expanded s = s.uncompressed

-- An entry with a page is not flagged as zero-filled, nor one without a page as uncompressed.
abbrev pub IsShape : Slot → Type 0
IsShape s =
    ((is_stored s && is_zero_page s) ≡ false) × ((not (is_stored s) && is_expanded s) ≡ false)

-- Each of three counters is the number of entries of its kind modulo 2 ^ 32, and the flags of each
-- entry fit its page.
pub record IsCounted (table : List Slot) (stats : Stats) : Type 0 where
  pub stored : stats.pages_stored ≡ count is_stored table % 2 ^ 32
  pub zeros : stats.pages_zero ≡ count is_zero_page table % 2 ^ 32
  pub expanded : stats.pages_expand ≡ count is_expanded table % 2 ^ 32
  pub shapes : (i : ℕ) (s : Slot) → get_elem? table i ≡ some s → IsShape s

-- A counter moves as the flag of the one entry that changed does.
abbrev pub Moves : (before after : ℕ) → (old new : Bool) → Type 0
Moves before after old new = after ≡ (before + of_bool new + 2 ^ 32 - of_bool old) % 2 ^ 32

pub set-IsCounted :
    {table : List Slot} {stats : Stats} (i : ℕ) (old new : Slot) (after : Stats)
    → IsCounted table stats
    → get_elem? table i ≡ some old
    → IsShape new
    → Moves stats.pages_stored after.pages_stored (is_stored old) (is_stored new)
    → Moves stats.pages_zero after.pages_zero (is_zero_page old) (is_zero_page new)
    → Moves stats.pages_expand after.pages_expand (is_expanded old) (is_expanded new)
    → IsCounted (set table i new) after
set-IsCounted {table} {stats} i old new after v e shape a b c = record {
  stored = moved is_stored v.stored a;
  zeros = moved is_zero_page v.zeros b;
  expanded = moved is_expanded v.expanded c;
  shapes = λ j s g. elim (Bool-cases (i == j)) [
    | inl same ↦
        let q : i ≡ j = ground arith in
        let r : some new ≡ some s =
          sym (get_elem?-set_self table i new old e) ∙ ap (get_elem? (set table i new)) q ∙ g in
        let same_slot : new ≡ s = cc in subst IsShape same_slot shape
    | inr other ↦ v.shapes j s (sym (get_elem?-set_ne table new (ground arith)) ∙ g)
  ];
}
  where
    moved :
        (test : Slot → Bool) {before now : ℕ}
        → before ≡ count test table % 2 ^ 32
        → Moves before now (test old) (test new)
        → now ≡ count test (set table i new) % 2 ^ 32
    moved test was step = ground (arith, count-set test table i old new e)
