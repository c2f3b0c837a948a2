-- ===== src/Scale/Hotplug.antt =====
-- zram_scale: what the buffers of the CPUs and the notifier of CPU events leave behind.
use compcache.Common.{
  ℕ, zero, suc, ◌+◌, ◌≤◌, ◌≡◌, ◌⊎◌, refl, sym, ap, ◌∙◌, inl, inr, Bool, true, false, ◌&&◌, some,
  List, [], ◌∷◌, ltb, ◌==◌, some-inj, arith, Bool-cases,
}
use compcache.Common.Errno.{success}
use compcache.Device.Bind.{bind-eq-some}
use compcache.Driver.{is_success}
use compcache.Scale.Cpus.{
  cpu_up_prepare, cpu_dead, Cpus, Grants, cpu_prepare, cpu_release, zram_cpu_notify, has_buffers,
  prepare_cpus, cancel_cpus,
}
use compcache.Scale.Driver.{
  Dev, Created, Module, Kernel, init_devices, init_block, init_cpus, zram_init, exit_devices,
  zram_exit,
}

-- A CPU goes up and is dead again, `n` times.
abbrev pub cycles : Grants → ℕ → ℕ → Cpus → Cpus
cycles grants cpu zero c = c
cycles grants cpu (suc n) c =
    cycles grants cpu n
      (zram_cpu_notify grants cpu_dead cpu (zram_cpu_notify grants cpu_up_prepare cpu c))

-- Where a CPU without a buffer goes up and dies `n` times, and gets memory each time, the kernel holds `n`
-- more working memories for it and as many buffers as before.
pub workmems-cycles :
    (grants : Grants) (cpu n : ℕ) (c : Cpus)
    → grants cpu ≡ (true, true)
    → ((cycles grants cpu n c).workmems_held cpu ≡ c.workmems_held cpu + n)
      × ((cycles grants cpu n c).buffers_held cpu ≡ c.buffers_held cpu)
unfolding zram_cpu_notify cpu_prepare cpu_release
workmems-cycles grants cpu zero c e = (omega arith, refl)
workmems-cycles grants cpu (suc n) c e =
    let c' = zram_cpu_notify grants cpu_dead cpu (zram_cpu_notify grants cpu_up_prepare cpu c) in
    let self : (cpu == cpu) ≡ true = ground arith in
    let w : c'.workmems_held cpu ≡ c.workmems_held cpu + 1 = rw (self, e) refl in
    let b : c'.buffers_held cpu ≡ c.buffers_held cpu = rw (self, e) (omega arith) in
    let (x, y) = workmems-cycles grants cpu n c' e in (omega (arith, x, w), y ∙ b)

-- What `zram_cpu_notify` does at the end of `zram_init` and of `zram_exit` frees no working memory.
workmems-cancel :
    (grants : Grants) (cpus : List ℕ) (c : Cpus)
    → (cancel_cpus grants cpus c).workmems_held ≡ c.workmems_held
unfolding cancel_cpus zram_cpu_notify cpu_release
workmems-cancel grants [] c = refl
workmems-cancel grants (cpu ∷ cpus) c = workmems-cancel grants cpus (cpu_release cpu c)

workmems-prepare :
    (grants : Grants) (cpu x : ℕ) (c : Cpus)
    → c.workmems_held x ≤ (cpu_prepare grants cpu c).workmems_held x
unfolding cpu_prepare
workmems-prepare grants cpu x c = elim (Bool-cases (x == cpu)) [
  | inl e ↦ let q : x ≡ cpu = ground arith in ground arith
  | inr n ↦ rw n (omega arith)
]

workmems-prepare_cpus :
    (grants : Grants) (cpus : List ℕ) (x : ℕ) (c : Cpus)
    → c.workmems_held x ≤ (prepare_cpus grants cpus c).1.workmems_held x
unfolding prepare_cpus zram_cpu_notify
workmems-prepare_cpus grants [] x c = omega arith
workmems-prepare_cpus grants (cpu ∷ cpus) x c =
    let c' = cpu_prepare grants cpu c in
    let one = workmems-prepare grants cpu x c in
    let rest = workmems-prepare_cpus grants cpus x c' in
    elim (Bool-cases (has_buffers cpu c')) [ inl ok ↦ rw ok (omega arith) | inr bad ↦ rw bad one ]

-- A CPU of a list.
abbrev pub IsIn : ℕ → List ℕ → Type 0
IsIn x [] = ⊥
IsIn x (cpu ∷ cpus) = (x ≡ cpu) ⊎ IsIn x cpus

second : (a : Bool) {b : Bool} → (a && b) ≡ true → b ≡ true
second true e = e
second false e = absurd cc

prepared-holds :
    (grants : Grants) (cpus : List ℕ) (x : ℕ) (c : Cpus)
    → IsIn x cpus
    → (prepare_cpus grants cpus c).0 ≡ true
    → 1 ≤ (prepare_cpus grants cpus c).1.workmems_held x
unfolding prepare_cpus zram_cpu_notify cpu_prepare
prepared-holds grants [] x c i ok = absurd i
prepared-holds grants (cpu ∷ cpus) x c i ok =
    let c' = cpu_prepare grants cpu c in
    elim (Bool-cases (has_buffers cpu c')) [
      | inr bad ↦ absurd (let q = rw bad at ok in cc)
      | inl has ↦ elim i [
        | inr later ↦ rw has (prepared-holds grants cpus x c' later (rw has at ok))
        | inl e ↦
            let self : (cpu == cpu) ≡ true = ground arith in
            let both : (has_buffers cpu c') ≡ true = has in
            let got : (grants cpu).1 ≡ true = second _ (rw self at both) in
            let one : 1 ≤ c'.workmems_held cpu = rw (self, got) (omega arith) in
            rw (has, e) (omega (arith, one, workmems-prepare_cpus grants cpus cpu c'))
      ]
    ]

init_devices-success :
    (k : Kernel) (online : List ℕ) (m : Module) (c : Created)
    → (init_devices k online m c).0 ≡ success
    → (init_devices k online m c).1.cpus ≡ m.cpus
unfolding init_devices
init_devices-success k online m c e = elim (Bool-cases (is_success c.code)) [
  | inl ok ↦ rw ok refl
  | inr bad ↦ absurd (let q : c.code ≡ success = rw bad at e in let r = rw q at bad in cc)
]

init_block-success :
    (k : Kernel) (online : List ℕ) (m : Module)
    → (init_block k online m).0 ≡ success
    → (init_block k online m).1.cpus ≡ m.cpus
unfolding init_block
init_block-success k online m e = elim (Bool-cases (k.major == 0)) [
  | inl none_left ↦ absurd (let q = rw none_left at e in cc)
  | inr some_left ↦ elim (Bool-cases k.array) [
    | inr a ↦ absurd (let q = rw (some_left, a) at e in cc)
    | inl a ↦ simp (some_left, a) (init_devices-success k online _ _ (simp (some_left, a) at e))
  ]
]

-- What `zram_init` has done for the CPUs where it succeeds.
init_cpus-success :
    (k : Kernel) (online : List ℕ) (m : Module) (p : Bool × Cpus)
    → (init_cpus k online m p).0 ≡ success
    → (p.0 ≡ true) × ((init_cpus k online m p).1.cpus ≡ p.1)
unfolding init_cpus
init_cpus-success k online m (false, c) e = absurd cc
init_cpus-success k online m (true, c) e = (refl, init_block-success k online _ e)

zram_init-success :
    (k : Kernel) (online : List ℕ) (m : Module)
    → (zram_init k online m).0 ≡ success
    → ((prepare_cpus k.grants online m.cpus).0 ≡ true)
      × ((zram_init k online m).1.cpus ≡ (prepare_cpus k.grants online m.cpus).1)
unfolding zram_init
zram_init-success k online m e = elim (Bool-cases (ltb 32 m.num_devices)) [
  | inl many ↦ absurd (let q = rw many at e in cc)
  | inr few ↦ elim (Bool-cases (is_success k.notifier)) [
    | inr bad ↦
        absurd (let q : k.notifier ≡ success = rw (few, bad) at e in let r = rw q at bad in cc)
    | inl ok ↦
        rw (few, ok)
          (init_cpus-success k online (record m { notifier = true }) _ (rw (few, ok) at e))
  ]
]

-- Where `zram_init` succeeds and `zram_exit` later runs to its end, the kernel still holds the working
-- memory of every CPU that was online.
pub zram_exit-workmems :
    (k : Kernel) (online : List ℕ) (cpu : ℕ) (m : Module) {m' : Module} {ds : List Dev}
    → (zram_init k online m).0 ≡ success
    → zram_exit k online cpu (zram_init k online m).1 ≡ some (m', ds)
    → (x : ℕ) → IsIn x online
    → 1 ≤ m'.cpus.workmems_held x
unfolding zram_exit
zram_exit-workmems k online cpu m {m'} ok e x i =
    let s = (zram_init k online m).1 in
    let (ready, same) = zram_init-success k online m ok in
    let (ds', done, last) = bind-eq-some (exit_devices k.ram_pages cpu s.devices) _ e in
    let kept : m'.cpus.workmems_held ≡ s.cpus.workmems_held =
      sym (ap (λ (p : Module × List Dev). p.0.cpus.workmems_held) (some-inj last))
      ∙ workmems-cancel k.grants online s.cpus in
    rw (kept, same) (prepared-holds k.grants online x m.cpus i ready)

init_devices-notifier :
    (k : Kernel) (online : List ℕ) (m : Module) (c : Created)
    → (init_devices k online m c).1.notifier ≡ m.notifier
unfolding init_devices
init_devices-notifier k online m c = elim (Bool-cases (is_success c.code)) [
  | inl ok ↦ rw ok refl
  | inr bad ↦ rw bad refl
]

init_block-notifier :
    (k : Kernel) (online : List ℕ) (m : Module) → (init_block k online m).1.notifier ≡ m.notifier
unfolding init_block
init_block-notifier k online m = elim (Bool-cases (k.major == 0)) [
  | inl none_left ↦ rw none_left refl
  | inr some_left ↦ elim (Bool-cases k.array) [
    | inr a ↦ rw (some_left, a) refl
    | inl a ↦ simp (some_left, a) (init_devices-notifier k online _ _)
  ]
]

init_cpus-notifier :
    (k : Kernel) (online : List ℕ) (m : Module) (p : Bool × Cpus)
    → (init_cpus k online m p).1.notifier ≡ m.notifier
unfolding init_cpus
init_cpus-notifier k online m (false, c) = refl
init_cpus-notifier k online m (true, c) = init_block-notifier k online _

-- Where `num_devices` is at most 32 and the notifier of CPU events is registered, it still is when
-- `zram_init` returns, also with an error.
pub zram_init-notifier :
    (k : Kernel) (online : List ℕ) (m : Module)
    → m.num_devices ≤ 32
    → k.notifier ≡ success
    → (zram_init k online m).1.notifier ≡ true
unfolding zram_init
zram_init-notifier k online m few ok =
    let n : ltb 32 m.num_devices ≡ false = ground arith in
    rw (n, ap is_success ok)
      (init_cpus-notifier k online (record m { notifier = true })
        (prepare_cpus k.grants online m.cpus))
