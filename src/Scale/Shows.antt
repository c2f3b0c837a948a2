-- ===== src/Scale/Shows.antt =====
-- zram_scale: the statistics of a device that is not initialised, and those that a reset leaves behind.
use compcache.Common.{
  ℕ, suc, ◌*◌, ◌%◌, ◌^◌, ◌≡◌, refl, sym, ap, ◌∙◌, inl, inr, true, false, Option, none, some, List,
  [], ◌∷◌, map, replicate, some-inj, if-branches,
}
use compcache.Common.Errno.{Code, success, enomem}
use compcache.Pool.{Heap}
use compcache.Device.Bind.{bind-eq-some}
use compcache.Driver.{Answers}
use compcache.Scale.{zram_get_stat}
use compcache.Scale.Disk.{
  Disk, Memory, zram_reset_device, init_failed, init_stats, init_table, zram_init_device,
}
use compcache.Scale.Sysfs.{
  num_reads_show, num_writes_show, invalid_io_show, notify_free_show, discard_show, zero_pages_show,
  orig_data_size_show, compr_data_size_show,
}
use compcache.Scale.Driver.{create_device, zeroed}
use compcache.Scale.Lifetime.{Reaches, zram_reset_device-IsReset}
use compcache.Scale.Life.{life-IsReady}

-- What the attributes of the statistics show.
abbrev pub shown : ℕ → Disk → List (Option ℕ)
shown cpus d =
    num_reads_show cpus d
    ∷ (num_writes_show cpus d
        ∷ (invalid_io_show cpus d
            ∷ (notify_free_show cpus d
                ∷ (discard_show cpus d
                    ∷ (zero_pages_show cpus d
                        ∷ (orig_data_size_show cpus d ∷ (compr_data_size_show cpus d ∷ [])))))))

-- The sums over the CPUs, with the stored pages in bytes.
abbrev pub sums : ℕ → Disk → List ℕ
sums cpus d =
    let sum : ℕ → ℕ = λ idx. zram_get_stat cpus idx d.zram in
    sum 1 ∷ (sum 2 ∷ (sum 3 ∷ (sum 4 ∷ (sum 5 ∷ (sum 6 ∷ (sum 7 * 4096 % 2 ^ 64 ∷ (sum 0 ∷ [])))))))

-- In every state that a device reaches from the one in which `create_device` leaves it, the eight
-- attributes of statistics all read through a NULL pointer if the device is not initialised, and
-- show the sums over the CPUs if it is.
pub shown-faults :
    (cpus ram_pages id : ℕ) (a : Answers) (heap : Heap) {d : Disk}
    → Reaches (create_device ram_pages a id (zeroed heap)).1.drive d
    → (d.init_done ≡ false → shown cpus d ≡ replicate 8 none)
      × (d.init_done ≡ true → shown cpus d ≡ map some (sums cpus d))
unfolding num_reads_show num_writes_show invalid_io_show notify_free_show discard_show
    zero_pages_show orig_data_size_show compr_data_size_show
shown-faults cpus ram_pages id a heap r =
    let s = (life-IsReady ram_pages id a heap r).stats in
    (λ idle. rw (s ∙ idle) refl, λ done. rw (s ∙ done) refl)

areas-init_failed :
    (ram_pages cpu : ℕ) (d : Disk) {d' : Disk} {A : Type 0}
    → init_failed ram_pages cpu d ≡ some (success, d')
    → A
areas-init_failed ram_pages cpu d e =
    let (w, _, last) = bind-eq-some (zram_reset_device ram_pages cpu d) _ e in
    let q : enomem ≡ success = ap (λ (p : Code × Disk). p.0) (some-inj last) in absurd cc

areas-zram_init_device :
    (m : Memory) (cpu : ℕ) (d : Disk) {d' : Disk}
    → d.init_done ≡ false
    → zram_init_device m cpu d ≡ some (success, d')
    → d'.areas ≡ suc d.areas
unfolding zram_init_device init_table init_stats
areas-zram_init_device m cpu d idle e = elim (if-branches d.init_done e) [
  | inl (done, _) ↦ absurd cc
  | inr (_, f) ↦ elim (if-branches m.table f) [
    | inr (_, g) ↦ areas-init_failed m.ram_pages cpu _ g
    | inl (_, g) ↦ elim (if-branches m.stats g) [
      | inr (_, h) ↦ areas-init_failed m.ram_pages cpu _ h
      | inl (_, h) ↦ elim (if-branches m.pool h) [
        | inr (_, k) ↦ areas-init_failed m.ram_pages cpu _ k
        | inl (_, k) ↦ ap (λ (p : Code × Disk). p.1.areas) (sym (some-inj k))
      ]
    ]
  ]
]

-- Where a reset of a device runs to its end, the device has no pointer to statistics, and the kernel
-- holds as many per-CPU areas for it as before; where an initialisation follows and succeeds, the
-- kernel holds one more.
pub areas-reset :
    (ram_pages cpu : ℕ) (d : Disk) {d' : Disk}
    → zram_reset_device ram_pages cpu d ≡ some d'
    → (d'.has_stats ≡ false)
      × (d'.areas ≡ d.areas)
      × ((m : Memory) (cpu' : ℕ) (d'' : Disk)
          → zram_init_device m cpu' d' ≡ some (success, d'')
          → d''.areas ≡ suc d.areas)
areas-reset ram_pages cpu d e =
    let (idle, s, _, _, same) = zram_reset_device-IsReset ram_pages cpu d e in
    (s, same, λ m cpu' d'' f. areas-zram_init_device m cpu' _ idle f ∙ ap suc same)
