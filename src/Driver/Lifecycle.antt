-- ===== src/Driver/Lifecycle.antt =====
-- `zram_init` and `zram_exit` of zram_drv.c: what the kernel still holds of the devices.
use compcache.Common.{
  ℕ, zero, suc, ◌≤◌, ◌<◌, ◌≡◌, ◌≢◌, refl, sym, ap, if◌then◌else◌, get_elem?, Bool, true, false,
  Option, none, some, List, [], ◌∷◌, ◌==◌, ltb, replicate, some-inj, subst, arith, Bool-cases, inl,
  inr,
}
use compcache.Common.Errno.{Code}
use compcache.Pool.{Heap}
use compcache.Table.{Zram}
use compcache.Device.{bind, zram_reset_device}
use compcache.Device.Bind.{bind-eq-some}
use compcache.Driver.{
  Dev, Loaded, is_success, Module, Answers, create_device, destroy_device, exit_device,
  exit_devices, zram_exit, zram_init, create_devices, load_devices, zeroed, destroy_below,
}

-- The kernel holds nothing of a device.
abbrev pub IsDown : Dev → Type 0
IsDown d = (d.sysfs ≡ false) × (d.disk_live ≡ false) × (d.queue_live ≡ false)

-- What the kernel holds of a device, the device points at.
abbrev IsHeld : Dev → Type 0
IsHeld d = (d.disk_live ≡ true → d.disk ≡ true) × (d.queue_live ≡ true → d.queue ≡ true)

abbrev pub All : (Dev → Type 0) → List Dev → Type 0
All P [] = Unit
All P (d ∷ ds) = P d × All P ds

destroy_device-IsDown : (d : Dev) → IsHeld d → IsDown (destroy_device d)
unfolding destroy_device
destroy_device-IsDown d held = (refl, ground arith, ground arith)

-- `create_device`, on each of its branches, leaves a device that points at all that the kernel holds.
create_device-IsHeld : (a : Answers) (id : ℕ) (d : Dev) → IsDown d → IsHeld (create_device a id d).1
unfolding create_device
create_device-IsHeld a id d (_, disk, queue) = elim (Bool-cases a.queue) [
  | inr q ↦ rw q ((λ e. absurd cc), (λ e. absurd cc))
  | inl q ↦ elim (Bool-cases a.disk) [
    | inr k ↦ rw (q, k) ((λ e. absurd cc), (λ e. refl))
    | inl k ↦ elim (Bool-cases (is_success a.sysfs)) [
      | inl s ↦ rw (q, k, s) ((λ e. refl), (λ e. refl))
      | inr s ↦ rw (q, k, s) ((λ e. refl), (λ e. refl))
    ]
  ]
]

IsHeld-of_down : (ds : List Dev) → All IsDown ds → All IsHeld ds
IsHeld-of_down [] v = tt
IsHeld-of_down (d ∷ ds) ((_, disk, queue), rest) =
    (((λ e. absurd cc), (λ e. absurd cc)), IsHeld-of_down ds rest)

create_devices-IsHeld :
    (answers : ℕ → Answers) (id : ℕ) (ds : List Dev)
    → All IsDown ds
    → All IsHeld (create_devices answers id ds).devices
unfolding create_devices
create_devices-IsHeld answers id [] v = tt
create_devices-IsHeld answers id (d ∷ ds) (v, rest) =
    elim (Bool-cases (is_success (create_device (answers id) id d).0)) [
      | inl ok ↦
          rw ok (
            create_device-IsHeld (answers id) id d v,
            create_devices-IsHeld answers (suc id) ds rest,
          )
      | inr bad ↦ rw bad (create_device-IsHeld (answers id) id d v, IsHeld-of_down ds rest)
    ]

zeroed-IsDown : (n : ℕ) (heap : Heap) → All IsDown (replicate n (zeroed heap))
zeroed-IsDown zero heap = tt
zeroed-IsDown (suc n) heap = ((refl, refl, refl), zeroed-IsDown n heap)

zram_init-IsHeld :
    (num_devices major : ℕ) (array : Bool) (heap : Heap) (answers : ℕ → Answers)
    → All IsHeld (zram_init num_devices major array heap answers).state.devices
unfolding zram_init load_devices
zram_init-IsHeld num_devices major array heap answers = elim (Bool-cases (ltb 32 num_devices)) [
  | inl many ↦ rw many tt
  | inr few ↦ elim (Bool-cases (major == 0)) [
    | inl bad ↦ rw (few, bad) tt
    | inr ok ↦ elim (Bool-cases array) [
      | inr a ↦ rw (few, ok, a) tt
      | inl a ↦ rw (few, ok, a) (loaded (if num_devices == 0 then 1 else num_devices))
    ]
  ]
]
  where
    loaded :
        (n : ℕ)
        → All IsHeld
            (load_devices n (create_devices answers 0 (replicate n (zeroed heap)))).state.devices
    loaded n =
        let c = create_devices answers 0 (replicate n (zeroed heap)) in
        elim (Bool-cases (is_success c.code)) [
          | inl ok ↦ rw ok (create_devices-IsHeld answers 0 _ (zeroed-IsDown n heap))
          | inr bad ↦ rw bad tt
        ]

-- A device that `exit_device` took down.
exit_device-IsDown : (d : Dev) {d' : Dev} → IsHeld d → exit_device d ≡ some d' → IsDown d'
unfolding exit_device
exit_device-IsDown d {d'} held e = elim (Bool-cases (destroy_device d).zram.init_done) [
  | inr idle ↦ subst IsDown (some-inj (rw idle at e)) (destroy_device-IsDown d held)
  | inl ready ↦ reset (zram_reset_device (destroy_device d).zram) (rw ready at e)
]
  where
    reset :
        (o : Option Zram)
        → bind o (λ z. some (record (destroy_device d) { zram = z })) ≡ some d'
        → IsDown d'
    reset none q = cc
    reset (some z) q = subst IsDown (some-inj q) (destroy_device-IsDown d held)

exit_devices-IsDown :
    (ds : List Dev) {out : List Dev} → All IsHeld ds → exit_devices ds ≡ some out → All IsDown out
unfolding exit_devices
exit_devices-IsDown [] v e = subst (All IsDown) (some-inj e) tt
exit_devices-IsDown (d ∷ ds) (v, rest) e =
    let (d', done, more) = bind-eq-some (exit_device d) _ e in
    let (ds', all_done, last) = bind-eq-some (exit_devices ds) _ more in
    subst (All IsDown) (some-inj last)
      (exit_device-IsDown d v done, exit_devices-IsDown ds rest all_done)

-- Where `zram_exit` runs to its end after `zram_init`, whatever the kernel answered while the module
-- was loaded, the kernel holds no sysfs group, no disk and no queue of a device of the array that is
-- freed, and the block device is not registered.
pub zram_exit-IsDown :
    (num_devices major : ℕ) (array : Bool) (heap : Heap) (answers : ℕ → Answers) {m : Module}
    {freed : List Dev}
    → zram_exit (zram_init num_devices major array heap answers).state ≡ some (m, freed)
    → All IsDown freed × (m.registered ≡ false)
unfolding zram_exit
zram_exit-IsDown num_devices major array heap answers e =
    let s = (zram_init num_devices major array heap answers).state in
    let (ds, done, last) = bind-eq-some (exit_devices s.devices) _ e in
    let p = some-inj last in
    (
      subst (All IsDown) (ap (λ (t : Module × List Dev). t.1) p) (
          exit_devices-IsDown s.devices (zram_init-IsHeld num_devices major array heap answers)
            done),
      sym (ap (λ (t : Module × List Dev). t.0.registered) p),
    )

-- What a failed load leaves of the first device.
abbrev IsLeaked : Loaded → Code → Type 0
IsLeaked r c =
    (r.code ≡ c)
    × ((d : Dev) × (get_elem? r.freed 0 ≡ some d) × (d.disk_live ≡ true) × (d.queue_live ≡ true))

load_devices-IsLeaked :
    (num n : ℕ) (heap : Heap) (answers : ℕ → Answers)
    → 0 < n
    → (answers 0).queue ≡ true
    → (answers 0).disk ≡ true
    → is_success ((answers 0).sysfs) ≡ false
    → IsLeaked
        (load_devices num (create_devices answers 0 (replicate n (zeroed heap))))
        ((answers 0).sysfs)
unfolding load_devices create_devices create_device destroy_below
load_devices-IsLeaked num zero heap answers h q k s = absurd (omega arith)
load_devices-IsLeaked num (suc n) heap answers h q k s =
    rw (q, k, s, s, s) (refl, (_, refl, refl, refl))

-- Where `num_devices` is at most 32, the block device is registered, the array is allocated, and
-- the first device gets its queue and its disk, but `sysfs_create_group` fails for it, `zram_init`
-- fails with that code, and frees the array while the kernel still holds the registered disk and
-- the queue of that device.
pub zram_init-leak :
    (num_devices major : ℕ) (heap : Heap) (answers : ℕ → Answers)
    → num_devices ≤ 32
    → major ≢ 0
    → (answers 0).queue ≡ true
    → (answers 0).disk ≡ true
    → is_success ((answers 0).sysfs) ≡ false
    → let r = zram_init num_devices major true heap answers in
      (r.code ≡ (answers 0).sysfs)
      × ((d : Dev) × (get_elem? r.freed 0 ≡ some d) × (d.disk_live ≡ true) × (d.queue_live ≡ true))
unfolding zram_init
zram_init-leak num_devices major heap answers n m q k s =
    let few : ltb 32 num_devices ≡ false = ground arith in
    let ok : (major == 0) ≡ false = ground arith in
    rw (few, ok)
      (load_devices-IsLeaked (if num_devices == 0 then 1 else num_devices)
        (if num_devices == 0 then 1 else num_devices) heap answers (ground arith) q k s)
