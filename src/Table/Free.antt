-- ===== src/Table/Free.antt =====
-- `zram_free_page` of zram_drv.c: the entry that it leaves, and the counters.
use compcache.Common.{
  ℕ, ◌≡◌, refl, sym, inl, inr, Bool, false, Option, none, some, ◌==◌, get_elem?, set, arith,
  Bool-cases, set-get_elem?, some-inj, subst,
}
use compcache.Pool.{Heap}
use compcache.Table.{Slot, Zram, drop_object, freed, free_slot, free_found, zram_free_page}
use compcache.Table.Count.{IsCounted, set-IsCounted}

-- An entry that holds nothing.
abbrev pub IsEmpty : Slot → Type 0
IsEmpty s = (s.page ≡ 0) × (s.zero_filled ≡ false) × (s.uncompressed ≡ false)

-- What a release of entry `i` leaves: the counters right, only that entry changed, to an empty one, and the device as initialised as it was.
pub record Released (z : Zram) (i : ℕ) (z' : Zram) : Type 0 where
  pub counted : IsCounted z'.table z'.stats
  pub slot : Slot
  pub empty : IsEmpty slot
  pub table : z'.table ≡ set z.table i slot
  pub done : z'.init_done ≡ z.init_done

module _ {z : Zram} (i : ℕ) (old : Slot) (v : IsCounted z.table z.stats)
    (e : get_elem? z.table i ≡ some old) where
  freed-Released :
      {z' : Zram} (clen : ℕ) (r : Option (Bool × Heap))
      → (old.page == 0) ≡ false
      → old.uncompressed ≡ false
      → freed i old clen r z ≡ some z'
      → Released z i z'
  unfolding freed drop_object
  freed-Released clen none n u d = cc
  freed-Released clen (some (gone, heap)) n u d = subst (Released z i) (some-inj d) (record {
    counted =
        set-IsCounted i old (record old { page = 0; offset = 0 }) _ v e (refl, u) (ground arith)
          (ground arith) (ground arith);
    slot = record old { page = 0; offset = 0 };
    empty = (refl, ground (arith, v.shapes i old e), u);
    table = refl;
    done = refl;
  })

  free_slot-Released : {z' : Zram} → free_slot i old z ≡ some z' → Released z i z'
  unfolding free_slot drop_object
  free_slot-Released {z'} d = elim (Bool-cases (old.page == 0)) [
    | inl p ↦ elim (Bool-cases old.zero_filled) [
      | inl f ↦ subst (Released z i) (some-inj (simp (p, f) at d)) (record {
        counted =
            set-IsCounted i old (record old { zero_filled = false }) _ v e
              (ground (arith, v.shapes i old e)) (ground arith) (ground arith) (ground arith);
        slot = record old { zero_filled = false };
        empty = (ground arith, refl, ground (arith, v.shapes i old e));
        table = refl;
        done = refl;
      })
      | inr f ↦ subst (Released z i) (some-inj (simp (p, f) at d)) (record {
        counted = v;
        slot = old;
        empty = (ground arith, f, ground (arith, v.shapes i old e));
        table = sym (set-get_elem? z.table i old e);
        done = refl;
      })
    ]
    | inr n ↦ elim (Bool-cases old.uncompressed) [
      | inl u ↦ subst (Released z i) (some-inj (simp (n, u) at d)) (record {
        counted =
            set-IsCounted i old (record old { page = 0; offset = 0; uncompressed = false }) _ v e
              (refl, refl) (ground arith) (ground arith) (ground arith);
        slot = record old { page = 0; offset = 0; uncompressed = false };
        empty = (refl, ground (arith, v.shapes i old e), refl);
        table = refl;
        done = refl;
      })
      | inr u ↦ freed-Released _ _ n u (simp (n, u) at d)
    ]
  ]

found-Released :
    {z z' : Zram} (i : ℕ) (o : Option Slot)
    → get_elem? z.table i ≡ o
    → IsCounted z.table z.stats
    → free_found i o z ≡ some z'
    → Released z i z'
found-Released i none e v d = cc
found-Released i (some old) e v d = free_slot-Released i old v e d

-- Where `zram_free_page` runs to its end, the counters of stored, zero-filled and uncompressed pages
-- stay right, the entry is left with no page and neither flag, and no other entry changes.
pub zram_free_page-Released :
    {z z' : Zram} (i : ℕ)
    → IsCounted z.table z.stats
    → zram_free_page z i ≡ some z'
    → Released z i z'
unfolding zram_free_page
zram_free_page-Released {z} i v d = found-Released i (get_elem? z.table i) refl v d
