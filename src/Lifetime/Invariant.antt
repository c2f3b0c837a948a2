-- ===== src/Lifetime/Invariant.antt =====
-- The invariant of a device over its whole life: each step of `Step` keeps it.
use compcache.Common.{
  ℕ, zero, suc, ◌+◌, ◌%◌, ◌^◌, ◌≡◌, refl, ap, inl, inr, Bool, true, false, not, Option, none, some,
  List, ◌==◌, some-inj, subst, if-branches, arith,
}
use compcache.Common.Errno.{Code, success, enomem, einval, ebusy}
use compcache.Pool.{Heap}
use compcache.Table.{Zram, zram_free_page}
use compcache.Device.{Memory, zram_reset_device, zram_init_device}
use compcache.Device.Bind.{bind-eq-some}
use compcache.Device.Init.{empty_table-IsCounted}
use compcache.Request.{
  Lzo, Bio, Served, discard_pages, zram_discard, end_read, zram_read, read_segments, first_index,
}
use compcache.Write.{write_segments, write_ready, zram_write}
use compcache.Write.Outcome.{write_segments-Counted}
use compcache.Handler.{valid_io_request, zram_make_request, zram_slot_free_notify}
use compcache.Sysfs.{disksize_store, reset_store}
use compcache.Driver.{zeroed}
use compcache.Lifetime.{Step, request, notify, resize, reset, Reaches, here, onward}
use compcache.Lifetime.Requests.{init_done-write_segments}
use compcache.Lifetime.Setup.{
  IsConsistent, reset-IsConsistent, free-IsConsistent, restat, zram_init_device-IsConsistent,
  init_done-zram_init_device,
}

discard_pages-IsConsistent :
    (n i : ℕ) (z : Zram) {z' : Zram}
    → IsConsistent z
    → discard_pages n i z ≡ some z'
    → IsConsistent z'
unfolding discard_pages
discard_pages-IsConsistent zero i z v d = subst IsConsistent (some-inj d) v
discard_pages-IsConsistent (suc n) i z v d =
    let (w, one, rest) = bind-eq-some (zram_free_page z i) _ d in
    discard_pages-IsConsistent n ((i + 1) % 2 ^ 32) w (free-IsConsistent z i v one) rest

served-zram : {r s : Served} → some r ≡ some s → r.zram ≡ s.zram
served-zram e = ap (λ (r : Served). r.zram) (some-inj e)

zram_discard-IsConsistent :
    (z : Zram) (b : Bio) {r : Served}
    → IsConsistent z
    → zram_discard z b ≡ some r
    → IsConsistent r.zram
unfolding zram_discard
zram_discard-IsConsistent z b v d = elim (if-branches (not z.init_done) d) [
  | inl (idle, e) ↦ subst IsConsistent (served-zram e) (restat v refl refl refl refl refl)
  | inr (done, e) ↦
      let (w, pages, last) = bind-eq-some (discard_pages _ _ z) _ e in
      subst IsConsistent (served-zram last)
        (restat (discard_pages-IsConsistent _ _ z v pages) refl refl refl refl refl)
]

end_read-IsConsistent :
    (lzo : Lzo) (z : Zram) (p : Bool × List (List ℕ)) {r : Served}
    → IsConsistent z
    → end_read lzo z p ≡ some r
    → IsConsistent r.zram
unfolding end_read
end_read-IsConsistent lzo z (true, pages) v d = subst IsConsistent (served-zram d) v
end_read-IsConsistent lzo z (false, pages) v d =
    subst IsConsistent (served-zram d) (restat v refl refl refl refl refl)

zram_read-IsConsistent :
    (lzo : Lzo) (z : Zram) (b : Bio) {r : Served}
    → IsConsistent z
    → zram_read lzo z b ≡ some r
    → IsConsistent r.zram
unfolding zram_read
zram_read-IsConsistent lzo z b v d = elim (if-branches (not z.init_done) d) [
  | inl (idle, e) ↦ subst IsConsistent (served-zram e) v
  | inr (done, e) ↦
      let (p, pages, last) = bind-eq-some (read_segments lzo _ _ b.segments) _ e in
      end_read-IsConsistent lzo _ p (restat v refl refl refl refl refl) last
]

write_ready-IsConsistent :
    (lzo : Lzo) (b : Bio) (c : Code) (z : Zram) {r : Served}
    → IsConsistent z
    → (c ≡ success → z.init_done ≡ true)
    → write_ready lzo b (c, z) ≡ some r
    → IsConsistent r.zram
unfolding write_ready
write_ready-IsConsistent lzo b success z v i d =
    let z' = record z {
      stats = record (z.stats) { num_writes = (z.stats.num_writes + 1) % 2 ^ 64 };
    } in
    let v' : IsConsistent z' = restat v refl refl refl refl refl in
    let ((ok, w), pages, last) =
      bind-eq-some (write_segments lzo z' (first_index b) b.segments) _ d in
    let counted = write_segments-Counted lzo b.segments z' (first_index b) v'.counted pages in
    let same = init_done-write_segments lzo b.segments z' (first_index b) v'.counted pages in
    let ready = i refl in
    subst IsConsistent (served-zram last) (record { counted = counted; blank = λ e. absurd cc })
write_ready-IsConsistent lzo b enomem z v i d = subst IsConsistent (served-zram d) v
write_ready-IsConsistent lzo b einval z v i d = subst IsConsistent (served-zram d) v
write_ready-IsConsistent lzo b ebusy z v i d = subst IsConsistent (served-zram d) v

zram_write-IsConsistent :
    (lzo : Lzo) (m : Memory) (z : Zram) (b : Bio) {r : Served}
    → IsConsistent z
    → zram_write lzo m z b ≡ some r
    → IsConsistent r.zram
unfolding zram_write
zram_write-IsConsistent lzo m z b v d = elim (if-branches (not z.init_done) d) [
  | inl (idle, e) ↦
      let ((c, w), ran, last) = bind-eq-some (zram_init_device m z) _ e in
      write_ready-IsConsistent lzo b c w (zram_init_device-IsConsistent m z v ran)
        (init_done-zram_init_device m z ran) last
  | inr (done, e) ↦ write_ready-IsConsistent lzo b success z v (λ q. ground arith) e
]

zram_make_request-IsConsistent :
    (lzo : Lzo) (m : Memory) (z : Zram) (b : Bio) {r : Served}
    → IsConsistent z
    → zram_make_request lzo m z b ≡ some r
    → IsConsistent r.zram
unfolding zram_make_request
zram_make_request-IsConsistent lzo m z b v d = elim (if-branches (not (valid_io_request z b)) d) [
  | inl (_, e) ↦ subst IsConsistent (served-zram e) (restat v refl refl refl refl refl)
  | inr (_, e) ↦ elim (if-branches b.is_discard e) [
    | inl (_, f) ↦ zram_discard-IsConsistent z b v f
    | inr (_, f) ↦ elim (if-branches b.is_write f) [
      | inl (_, g) ↦ zram_write-IsConsistent lzo m z b v g
      | inr (_, g) ↦ zram_read-IsConsistent lzo z b v g
    ]
  ]
]

reset_store-IsConsistent :
    (holders : ℕ) (n : Option ℕ) (z : Zram) {c : Code} {z' : Zram}
    → IsConsistent z
    → reset_store holders n z ≡ some (c, z')
    → IsConsistent z'
unfolding reset_store
reset_store-IsConsistent holders none z v d = elim (if-branches (holders == 0) d) [
  | inl (_, e) ↦ subst IsConsistent (ap (λ (p : Code × Zram). p.1) (some-inj e)) v
  | inr (_, e) ↦ subst IsConsistent (ap (λ (p : Code × Zram). p.1) (some-inj e)) v
]
reset_store-IsConsistent holders (some n) z v d = elim (if-branches (holders == 0) d) [
  | inr (_, e) ↦ subst IsConsistent (ap (λ (p : Code × Zram). p.1) (some-inj e)) v
  | inl (_, e) ↦ elim (if-branches (n == 0) e) [
    | inl (_, f) ↦ subst IsConsistent (ap (λ (p : Code × Zram). p.1) (some-inj f)) v
    | inr (_, f) ↦ elim (if-branches z.init_done f) [
      | inr (_, g) ↦ subst IsConsistent (ap (λ (p : Code × Zram). p.1) (some-inj g)) v
      | inl (_, g) ↦
          let (w, done, last) = bind-eq-some (zram_reset_device z) _ g in
          subst IsConsistent (ap (λ (p : Code × Zram). p.1) (some-inj last))
            (reset-IsConsistent z done)
    ]
  ]
]

disksize_store-IsConsistent :
    (parsed : Bool) (n : ℕ) (z : Zram) {c : Code} {z' : Zram}
    → IsConsistent z
    → disksize_store parsed n z ≡ (c, z')
    → IsConsistent z'
unfolding disksize_store
disksize_store-IsConsistent parsed n z v d = elim (if-branches z.init_done d) [
  | inl (_, e) ↦ subst IsConsistent (ap (λ (p : Code × Zram). p.1) e) v
  | inr (_, e) ↦ elim (if-branches parsed e) [
    | inl (_, f) ↦
        subst IsConsistent (ap (λ (p : Code × Zram). p.1) f) (restat v refl refl refl refl refl)
    | inr (_, f) ↦
        subst IsConsistent (ap (λ (p : Code × Zram). p.1) f) (restat v refl refl refl refl refl)
  ]
]

-- Each step of a device, a request, a notice of a free slot, or a write to `disksize` or `reset`, keeps
-- the counters of stored, zero-filled and uncompressed pages right, and keeps a device that is
-- not initialised without a table.
pub Step-IsConsistent : (lzo : Lzo) {z z' : Zram} → Step lzo z z' → IsConsistent z → IsConsistent z'
unfolding zram_slot_free_notify
Step-IsConsistent lzo (request {z = z} m b d) v = zram_make_request-IsConsistent lzo m z b v d
Step-IsConsistent lzo (notify {z = z} i d) v =
    let (w, freed, last) = bind-eq-some (zram_free_page z i) _ d in
    subst IsConsistent (some-inj last)
      (restat (free-IsConsistent z i v freed) refl refl refl refl refl)
Step-IsConsistent lzo (resize {z = z} parsed n d) v = disksize_store-IsConsistent parsed n z v d
Step-IsConsistent lzo (reset {z = z} holders n d) v = reset_store-IsConsistent holders n z v d

-- In every state that a device reaches from the zeroed one in which `zram_init` allocates it, by
-- requests, notices and writes to its attributes in any order, and with any answers of the kernel's
-- allocators, the counters of stored, zero-filled and uncompressed pages are those of the table, modulo
-- 2 ^ 32.
pub Reaches-IsConsistent :
    (lzo : Lzo) (heap : Heap) {z : Zram} → Reaches lzo (zeroed heap).zram z → IsConsistent z
Reaches-IsConsistent lzo heap here = record { counted = empty_table-IsCounted 0; blank = λ e. refl }
Reaches-IsConsistent lzo heap (onward r s) =
    Step-IsConsistent lzo s (Reaches-IsConsistent lzo heap r)
