-- ===== src/Scale/Life.antt =====
-- zram_scale: in every state of a device, from its creation on, its pointers and its table fit `init_done`.
use compcache.Common.{
  ℕ, ◌≡◌, refl, ap, subst, inl, inr, Bool, Option, none, some, ◌==◌, some-inj, Bool-cases,
  if-branches,
}
use compcache.Common.Errno.{Code}
use compcache.Pool.{Heap}
use compcache.Device.Bind.{bind-eq-some}
use compcache.Driver.{Answers, is_success}
use compcache.Scale.Disk.{Disk, free_page, zram_reset_device}
use compcache.Scale.Handlers.{stat_notify_free, zram_slot_free_notify}
use compcache.Scale.Sysfs.{disksize_store, reset_store}
use compcache.Scale.Driver.{create_device, zeroed}
use compcache.Scale.Lifetime.{
  Step, request, notify, resize, reset, Reaches, here, onward, IsReady, inc_stat-IsReady,
  free_page-IsReady, reset-IsReady, idle-IsReady,
}
use compcache.Scale.Ready.{zram_make_request-IsReady}

coded : {c c' : Code} {d d' : Disk} → ◌≡◌ {A = Code × Disk} (c, d) (c', d') → IsReady d → IsReady d'
coded e v = subst IsReady (ap (λ (p : Code × Disk). p.1) e) v

disksize_store-IsReady :
    (parsed : Bool) (n : ℕ) (d : Disk) {c : Code} {d' : Disk}
    → IsReady d
    → disksize_store parsed n d ≡ (c, d')
    → IsReady d'
unfolding disksize_store
disksize_store-IsReady parsed n d v e = elim (if-branches d.init_done e) [
  | inl (_, f) ↦ coded f v
  | inr (idle, f) ↦ elim (if-branches parsed f) [
    | inl (_, g) ↦
        coded g
          (record { stats = v.stats; pool = v.pool; table = v.table; size = λ done. absurd cc })
    | inr (_, g) ↦
        coded g
          (record { stats = v.stats; pool = v.pool; table = v.table; size = λ done. absurd cc })
  ]
]

reset_store-IsReady :
    (ram_pages cpu holders : ℕ) (n : Option ℕ) (d : Disk) {c : Code} {d' : Disk}
    → IsReady d
    → reset_store ram_pages cpu holders n d ≡ some (c, d')
    → IsReady d'
unfolding reset_store
reset_store-IsReady ram_pages cpu holders none d v e = elim (if-branches (holders == 0) e) [
  | inl (_, f) ↦ coded (some-inj f) v
  | inr (_, f) ↦ coded (some-inj f) v
]
reset_store-IsReady ram_pages cpu holders (some n) d v e = elim (if-branches (holders == 0) e) [
  | inr (_, f) ↦ coded (some-inj f) v
  | inl (_, f) ↦ elim (if-branches (n == 0) f) [
    | inl (_, g) ↦ coded (some-inj g) v
    | inr (_, g) ↦ elim (if-branches d.init_done g) [
      | inr (_, h) ↦ coded (some-inj h) v
      | inl (_, h) ↦
          let (w, done, last) = bind-eq-some (zram_reset_device ram_pages cpu d) _ h in
          coded (some-inj last) (reset-IsReady ram_pages cpu d done)
    ]
  ]
]

Step-IsReady : {d d' : Disk} → Step d d' → IsReady d → IsReady d'
unfolding zram_slot_free_notify
Step-IsReady (request {d = d} lzo buffers m cpu b e) v =
    zram_make_request-IsReady lzo buffers m cpu b d v e
Step-IsReady (notify {d = d} cpu index e) v =
    let (w, freed, last) = bind-eq-some (free_page cpu index d) _ e in
    inc_stat-IsReady cpu stat_notify_free w last (free_page-IsReady cpu index d freed v)
Step-IsReady (resize {d = d} parsed n e) v = disksize_store-IsReady parsed n d v e
Step-IsReady (reset {d = d} ram_pages cpu holders n e) v =
    reset_store-IsReady ram_pages cpu holders n d v e

create_device-IsReady :
    (ram_pages id : ℕ) (a : Answers) (heap : Heap)
    → IsReady (create_device ram_pages a id (zeroed heap)).1.drive
unfolding create_device
create_device-IsReady ram_pages id a heap = elim (Bool-cases a.queue) [
  | inr q ↦ rw q (idle-IsReady _ refl refl refl refl)
  | inl q ↦ elim (Bool-cases a.disk) [
    | inr k ↦ rw (q, k) (idle-IsReady _ refl refl refl refl)
    | inl k ↦ elim (Bool-cases (is_success a.sysfs)) [
      | inl s ↦ rw (q, k, s) (idle-IsReady _ refl refl refl refl)
      | inr s ↦ rw (q, k, s) (idle-IsReady _ refl refl refl refl)
    ]
  ]
]

-- The states that a device reaches keep its pointers right.
pub Reaches-IsReady : {d d' : Disk} → Reaches d d' → IsReady d → IsReady d'
Reaches-IsReady here v = v
Reaches-IsReady (onward r s) v = Step-IsReady s (Reaches-IsReady r v)

-- In every state that a device reaches from the one in which `create_device` leaves it, by requests,
-- notices and writes to its attributes in any order, on any CPUs, and with any answers of the kernel's
-- allocators, the pointers to the statistics, the pool and the table are set exactly if the device is
-- initialised, and then the table has an entry for each page of the disk.
pub life-IsReady :
    (ram_pages id : ℕ) (a : Answers) (heap : Heap) {d : Disk}
    → Reaches (create_device ram_pages a id (zeroed heap)).1.drive d
    → IsReady d
life-IsReady ram_pages id a heap r = Reaches-IsReady r (create_device-IsReady ram_pages id a heap)
