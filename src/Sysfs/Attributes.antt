-- ===== src/Sysfs/Attributes.antt =====
-- The attributes of zram_sysfs.c against the device that they describe.
use compcache.Common.{
  ℕ, ◌*◌, ◌/◌, ◌%◌, ◌^◌, ◌≤◌, ◌<◌, ◌≡◌, refl, ap, sym, subst, some-inj, inl, inr, if◌then◌else◌,
  true, false, some, ◌==◌, arith, if-branches,
}
use compcache.Common.Errno.{Code, success}
use compcache.Table.{Zram}
use compcache.Table.Count.{IsCounted, count, is_stored}
use compcache.Device.{
  Memory, page_mask, no_stats, cleared, zram_set_disksize, zram_init_device, zram_reset_device,
}
use compcache.Device.Bind.{bind-eq-some}
use compcache.Device.Init.{IsReady, sized, zram_init_device-IsReady}
use compcache.Device.Reset.{reset-cleared}
use compcache.Sysfs.{
  disksize_store, reset_store, initstate_show, orig_data_size_show, mem_used_total_show,
}

-- Where the counters of a device fit its table, and fewer than 2 ^ 32 entries hold a page, the attribute
-- `orig_data_size` is 4096 bytes for each entry that holds a page.
pub orig_data_size_show-count :
    (z : Zram)
    → IsCounted z.table z.stats
    → count is_stored z.table < 2 ^ 32
    → orig_data_size_show z ≡ count is_stored z.table * 4096
unfolding orig_data_size_show
orig_data_size_show-count z v small = omega (arith, v.stored)

-- The device with a new size.
abbrev resized : ℕ → Zram → Zram
resized n z =
    let disksize = page_mask (n % 2 ^ 64) in
    record z { disksize = disksize; capacity = disksize / 512 }

disksize_store-resized :
    (n : ℕ) (z : Zram) → z.init_done ≡ false → disksize_store true n z ≡ (success, resized n z)
unfolding disksize_store
disksize_store-resized n z idle = simp idle

sized-resized :
    (m : Memory) (z : Zram) (n : ℕ)
    → 4096 ≤ n
    → n < 2 ^ 64
    → sized m (resized n z) / 4096 ≡ n / 4096
unfolding zram_set_disksize
sized-resized m z n lo hi = ground arith

-- A size of at least a page, below 2 ^ 64, that is written to `disksize` of a device that is not
-- initialised and whose statistics are 0 is, in whole pages, the size of the disk that
-- `zram_init_device` then sets up, where the kernel gives all the memory.
pub disksize_store-init :
    (m : Memory) (z : Zram) (n : ℕ)
    → z.init_done ≡ false
    → z.stats ≡ no_stats
    → 4096 ≤ n
    → n < 2 ^ 64
    → m.workmem ≡ true
    → m.buffer ≡ true
    → m.table ≡ true
    → m.pool ≡ true
    → let (c, w) = disksize_store true n z in
      (c ≡ success)
      × ((z' : Zram) × (zram_init_device m w ≡ some (success, z')) × IsReady (n / 4096) z')
disksize_store-init m z n idle stats lo hi a b c d =
    let (z', ran, is_ready) = zram_init_device-IsReady m (resized n z) idle stats a b c d in
    subst
      (λ (p : Code × Zram).
        (p.0 ≡ success)
        × ((z' : Zram) × (zram_init_device m p.1 ≡ some (success, z')) × IsReady (n / 4096) z'))
      (sym (disksize_store-resized n z idle))
      (refl, (z', ran, subst (λ k. IsReady k z') (sized-resized m z n lo hi) is_ready))

-- What the write to `reset` leaves.
abbrev IsIdle : Code × Zram → Type 0
IsIdle (c, z) = (c ≡ success) × (initstate_show z ≡ 0) × (mem_used_total_show z ≡ 0)

-- A write of a number other than 0 to `reset` of a device that is not held, where it does not fault,
-- succeeds, and then the attributes say that the device is not initialised and uses no memory.
pub reset_store-idle :
    (n : ℕ) (z : Zram) {c : Code} {z' : Zram}
    → 0 < n
    → reset_store 0 (some n) z ≡ some (c, z')
    → (c ≡ success) × (initstate_show z' ≡ 0) × (mem_used_total_show z' ≡ 0)
unfolding reset_store initstate_show mem_used_total_show cleared
reset_store-idle n z {c} {z'} lo d = elim (if-branches (n == 0) d) [
  | inl (zero_written, e) ↦ absurd (ground arith)
  | inr (_, e) ↦ elim (if-branches z.init_done e) [
    | inr (idle, f) ↦ subst IsIdle (some-inj f) (refl, rw idle, rw idle)
    | inl (_, f) ↦
        let (w, done, last) = bind-eq-some (zram_reset_device z) _ f in
        let (h, q) = reset-cleared z done in
        subst IsIdle (some-inj last) (
          refl,
          ap (λ (v : Zram). if v.init_done then 1 else 0) q,
          subst (λ (v : Zram). mem_used_total_show v ≡ 0) (sym q) refl,
        )
  ]
]
