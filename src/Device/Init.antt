-- ===== src/Device/Init.antt =====
-- `zram_init_device` of zram_drv.c: the state that it sets up, and what it does where memory is short.
use compcache.Common.{
  ℕ, zero, suc, ◌*◌, ◌/◌, ◌%◌, ◌^◌, ◌≤◌, ◌<◌, ◌≡◌, ◌⊎◌, refl, sym, subst, ◌∙◌, inl, inr, Bool, true,
  false, none, some, [], get_elem?, replicate, arith, Bool-cases,
}
use compcache.Common.Errno.{success}
use compcache.Pool.{Heap}
use compcache.Pool.Bitmap.{IsIndexed}
use compcache.Table.{Slot, Zram}
use compcache.Table.Count.{IsCounted, count}
use compcache.Xvmalloc.{xv_create_pool}
use compcache.Xvmalloc.Grow.{xv_create_pool-IsIndexed}
use compcache.Device.{
  Memory, no_stats, empty_slot, reset_slot, reset_slots, zram_set_disksize, zram_reset_device,
  init_table, zram_init_device,
}

-- The size that `zram_init_device` gives the disk.
abbrev pub sized : Memory → Zram → ℕ
sized m z = (zram_set_disksize z (m.ram_pages * 4096 % 2 ^ 64)).disksize

get_elem?-replicate : (n i : ℕ) (a s : Slot) → get_elem? (replicate n a) i ≡ some s → s ≡ a
get_elem?-replicate zero i a s e = cc
get_elem?-replicate (suc n) zero a s e = cc
get_elem?-replicate (suc n) (suc i) a s e = get_elem?-replicate n i a s e

count-replicate :
    (test : Slot → Bool) (n : ℕ) → test empty_slot ≡ false → count test (replicate n empty_slot) ≡ 0
unfolding count
count-replicate test zero e = refl
count-replicate test (suc n) e = ground (arith, count-replicate test n e)

pub empty_table-IsCounted : (n : ℕ) → IsCounted (replicate n empty_slot) no_stats
empty_table-IsCounted n = record {
  stored = rw (count-replicate _ n refl);
  zeros = rw (count-replicate _ n refl);
  expanded = rw (count-replicate _ n refl);
  shapes = λ i s e. rw (get_elem?-replicate n i empty_slot s e) (refl, refl);
}

-- What an initialised device is.
pub record IsReady (n : ℕ) (z : Zram) : Type 0 where
  pub done : z.init_done ≡ true
  pub pool : z.has_pool ≡ true
  pub table : z.table ≡ replicate n empty_slot
  pub size : z.disksize ≡ n * 4096
  pub capacity : z.capacity ≡ n * 8
  pub indexed : IsIndexed z.heap.pool
  pub counted : IsCounted z.table z.stats

sized-pages : (m : Memory) (z : Zram) → sized m z ≡ sized m z / 4096 * 4096
unfolding zram_set_disksize
sized-pages m z = omega arith

stats-sized : (z : Zram) (bytes : ℕ) → (zram_set_disksize z bytes).stats ≡ z.stats
unfolding zram_set_disksize
stats-sized z bytes = refl

-- The device that an initialisation leaves.
abbrev ready : Zram → Zram
ready a = record a {
  compress_workmem = true;
  compress_buffer = true;
  table = replicate (a.disksize / 4096) empty_slot;
  capacity = a.disksize / 512;
  has_pool = true;
  heap = record { pool = xv_create_pool; mem = a.heap.mem };
  init_done = true;
}

-- Where the kernel gives all the memory, `zram_init_device` of a device that is not initialised and
-- whose statistics are 0 succeeds: the disk has a whole number of pages, an empty table entry for
-- each, 8 sectors for each, an empty pool whose bitmaps agree with its lists, and the counters fit
-- the table.
pub zram_init_device-IsReady :
    (m : Memory) (z : Zram)
    → z.init_done ≡ false
    → z.stats ≡ no_stats
    → m.workmem ≡ true
    → m.buffer ≡ true
    → m.table ≡ true
    → m.pool ≡ true
    → (z' : Zram) × (zram_init_device m z ≡ some (success, z')) × IsReady (sized m z / 4096) z'
unfolding zram_init_device init_table
zram_init_device-IsReady m z d s w b t p =
    let a = zram_set_disksize z (m.ram_pages * 4096 % 2 ^ 64) in
    (
      ready a,
      simp (d, w, b, t, p),
      record {
        done = refl;
        pool = refl;
        table = refl;
        size = sized-pages m z;
        capacity = omega (arith, sized-pages m z);
        indexed = xv_create_pool-IsIndexed;
        counted =
            subst (λ stats. IsCounted (replicate (a.disksize / 4096) empty_slot) stats)
              (sym (stats-sized z _ ∙ s)) (empty_table-IsCounted (a.disksize / 4096));
      },
    )

table-sized : (z : Zram) (bytes : ℕ) → (zram_set_disksize z bytes).table ≡ z.table
unfolding zram_set_disksize
table-sized z bytes = refl

reset_slots-faults : (n : ℕ) (h : Heap) → 0 < n → reset_slots n 0 [] h ≡ none
unfolding reset_slots reset_slot
reset_slots-faults zero h p = absurd (omega arith)
reset_slots-faults (suc n) h p = refl

-- A reset of a device without a table reads outside it.
reset-faults : (z : Zram) → z.table ≡ [] → 4096 ≤ z.disksize → zram_reset_device z ≡ none
unfolding zram_reset_device
reset-faults z t big = simp (t, reset_slots-faults (z.disksize / 4096) z.heap (omega arith))

-- Where the working memory or the buffer of the compressor cannot be had, the cleanup of
-- `zram_init_device` reads the table, which is still NULL: for every device that is not initialised
-- and has no table, and whose disk gets a page or more, the call faults.
pub zram_init_device-faults :
    (m : Memory) (z : Zram)
    → z.init_done ≡ false
    → z.table ≡ []
    → 4096 ≤ sized m z
    → (m.workmem ≡ false) ⊎ (m.buffer ≡ false)
    → zram_init_device m z ≡ none
unfolding zram_init_device
zram_init_device-faults m z d t big short = elim (Bool-cases m.workmem) [
  | inr w ↦ simp (d, w) (simp (reset-faults _ (table-sized z _ ∙ t) big))
  | inl w ↦ elim short [
    | inl w' ↦ absurd (cc)
    | inr b ↦ simp (d, w, b) (simp (reset-faults _ (table-sized z _ ∙ t) big))
  ]
]
