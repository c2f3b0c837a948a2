-- ===== src/Scale/Ready.antt =====
-- zram_scale: the requests of a device keep its pointers and its table fitting `init_done`.
use compcache.Common.{
  ℕ, zero, suc, ◌/◌, ◌≡◌, refl, ap, subst, inl, inr, Bool, true, not, some, length, replicate,
  some-inj, if-branches,
}
use compcache.Common.Errno.{Code}
use compcache.Device.Bind.{bind-eq-some}
use compcache.Driver.{is_success}
use compcache.Request.{Lzo, Bio, first_index}
use compcache.Scale.{read_segments, write_segments, discard_pages}
use compcache.Scale.Length.{discard_pages-IsAsLong, write_segments-IsAsLong}
use compcache.Scale.Disk.{
  Disk, Memory, inc_stat, zram_reset_device, init_failed, init_stats, init_table, zram_init_device,
}
use compcache.Scale.Handlers.{
  Served, is_invalid, stat_num_reads, stat_num_writes, stat_invalid_io, stat_discard, zram_read,
  write_ready, zram_write, zram_discard, valid_io_request, zram_make_request,
}
use compcache.Scale.Lifetime.{IsReady, with_zram-IsReady, inc_stat-IsReady, reset-IsReady}

length-replicate {ℓ} : {A : Type ℓ} (n : ℕ) (a : A) → length (replicate n a) ≡ n
length-replicate zero a = refl
length-replicate (suc n) a = ap suc (length-replicate n a)

init_failed-IsReady :
    (ram_pages cpu : ℕ) (d : Disk) {c : Code} {d' : Disk}
    → init_failed ram_pages cpu d ≡ some (c, d')
    → IsReady d'
init_failed-IsReady ram_pages cpu d e =
    let (w, done, last) = bind-eq-some (zram_reset_device ram_pages cpu d) _ e in
    subst IsReady (ap (λ (p : Code × Disk). p.1) (some-inj last))
      (reset-IsReady ram_pages cpu d done)

init_stats-IsReady :
    (m : Memory) (cpu : ℕ) (d : Disk) {c : Code} {d' : Disk}
    → d.has_table ≡ true
    → length d.zram.table ≡ d.disksize / 4096
    → init_stats m cpu d ≡ some (c, d')
    → IsReady d'
unfolding init_stats
init_stats-IsReady m cpu d t l e = elim (if-branches m.stats e) [
  | inr (_, f) ↦ init_failed-IsReady m.ram_pages cpu _ f
  | inl (_, f) ↦ elim (if-branches m.pool f) [
    | inr (_, g) ↦ init_failed-IsReady m.ram_pages cpu _ g
    | inl (_, g) ↦
        subst IsReady (ap (λ (p : Code × Disk). p.1) (some-inj g))
          (record { stats = refl; pool = refl; table = t; size = λ done. l })
  ]
]

zram_init_device-IsReady :
    (m : Memory) (cpu : ℕ) (d : Disk) {c : Code} {d' : Disk}
    → IsReady d
    → zram_init_device m cpu d ≡ some (c, d')
    → IsReady d'
unfolding zram_init_device init_table
zram_init_device-IsReady m cpu d v e = elim (if-branches d.init_done e) [
  | inl (_, f) ↦ subst IsReady (ap (λ (p : Code × Disk). p.1) (some-inj f)) v
  | inr (_, f) ↦ elim (if-branches m.table f) [
    | inr (_, g) ↦ init_failed-IsReady m.ram_pages cpu _ g
    | inl (_, g) ↦ init_stats-IsReady m cpu _ refl (length-replicate _ 0) g
  ]
]

served : {r s : Served} → some r ≡ some s → IsReady r.disk → IsReady s.disk
served e v = subst IsReady (ap (λ (r : Served). r.disk) (some-inj e)) v

module _ (lzo : Lzo) (buffers : Bool) (m : Memory) (cpu : ℕ) (b : Bio) where
  zram_read-IsReady :
      (d : Disk) {r : Served} → IsReady d → zram_read lzo cpu d b ≡ some r → IsReady r.disk
  unfolding zram_read
  zram_read-IsReady d v e = elim (if-branches (not d.init_done) e) [
    | inl (_, f) ↦ served f v
    | inr (_, f) ↦
        let (w, counted, rest) = bind-eq-some (inc_stat cpu stat_num_reads d) _ f in
        let (p, _, last) =
          bind-eq-some (read_segments lzo (first_index b) b.segments w.zram) _ rest in
        served last (inc_stat-IsReady cpu stat_num_reads d counted v)
  ]

  write_ready-IsReady :
      (d : Disk) {r : Served}
      → IsReady d
      → write_ready lzo buffers cpu d b ≡ some r
      → IsReady r.disk
  unfolding write_ready
  write_ready-IsReady d v e =
      let (w, counted, rest) = bind-eq-some (inc_stat cpu stat_num_writes d) _ e in
      let (p, written, last) =
        bind-eq-some (write_segments lzo buffers cpu (first_index b) b.segments w.zram) _ rest in
      served last (
        with_zram-IsReady (inc_stat-IsReady cpu stat_num_writes d counted v)
          (write_segments-IsAsLong lzo buffers cpu (first_index b) b.segments w.zram written))

  zram_write-IsReady :
      (d : Disk) {r : Served}
      → IsReady d
      → zram_write lzo buffers m cpu d b ≡ some r
      → IsReady r.disk
  unfolding zram_write
  zram_write-IsReady d v e = elim (if-branches d.init_done e) [
    | inl (_, f) ↦ write_ready-IsReady d v f
    | inr (_, f) ↦
        let (p, done, rest) = bind-eq-some (zram_init_device m cpu d) _ f in
        let w = zram_init_device-IsReady m cpu d v done in
        elim (if-branches (is_success p.0) rest) [
          | inl (_, g) ↦ write_ready-IsReady p.1 w g
          | inr (_, g) ↦ served g w
        ]
  ]

  zram_discard-IsReady :
      (d : Disk) {r : Served} → IsReady d → zram_discard cpu d b ≡ some r → IsReady r.disk
  unfolding zram_discard
  zram_discard-IsReady d v e = elim (if-branches (not d.init_done) e) [
    | inl (_, f) ↦ served f v
    | inr (_, f) ↦
        let (w, counted, rest) = bind-eq-some (inc_stat cpu stat_discard d) _ f in
        let (z, freed, last) =
          bind-eq-some (discard_pages cpu (b.size / 4096) (b.sector / 8) w.zram) _ rest in
        served last (
          with_zram-IsReady (inc_stat-IsReady cpu stat_discard d counted v)
            (discard_pages-IsAsLong cpu (b.size / 4096) (b.sector / 8) w.zram freed))
  ]

  valid_io_request-IsReady :
      (d : Disk) {ok : Bool} {d' : Disk}
      → IsReady d
      → valid_io_request cpu d b ≡ some (ok, d')
      → IsReady d'
  unfolding valid_io_request
  valid_io_request-IsReady d v e = elim (if-branches (is_invalid d b) e) [
    | inr (_, f) ↦ subst IsReady (ap (λ (p : Bool × Disk). p.1) (some-inj f)) v
    | inl (_, f) ↦ elim (if-branches d.init_done f) [
      | inr (_, g) ↦ subst IsReady (ap (λ (p : Bool × Disk). p.1) (some-inj g)) v
      | inl (_, g) ↦
          let (w, counted, last) = bind-eq-some (inc_stat cpu stat_invalid_io d) _ g in
          subst IsReady (ap (λ (p : Bool × Disk). p.1) (some-inj last))
            (inc_stat-IsReady cpu stat_invalid_io d counted v)
    ]
  ]

  pub zram_make_request-IsReady :
      (d : Disk) {r : Served}
      → IsReady d
      → zram_make_request lzo buffers m cpu d b ≡ some r
      → IsReady r.disk
  unfolding zram_make_request
  zram_make_request-IsReady d v e =
      let ((ok, w), valid, rest) = bind-eq-some (valid_io_request cpu d b) _ e in
      let u = valid_io_request-IsReady d v valid in
      elim (if-branches (not ok) rest) [
        | inl (_, f) ↦ served f u
        | inr (_, f) ↦ elim (if-branches b.is_discard f) [
          | inl (_, g) ↦ zram_discard-IsReady w u g
          | inr (_, g) ↦ elim (if-branches b.is_write g) [
            | inl (_, h) ↦ zram_write-IsReady w u h
            | inr (_, h) ↦ zram_read-IsReady w u h
          ]
        ]
      ]
