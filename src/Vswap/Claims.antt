-- ===== src/Vswap/Claims.antt =====
-- virtio_vswap.c: the claim of the backing device, from the loading of the module to its unloading.
use compcache.Common.{
  ℕ, ◌+◌, ◌-◌, ◌/◌, ◌≡◌, ◌≢◌, ◌⊎◌, subst, refl, sym, ap, ◌∙◌, inl, inr, true, false, not, Option,
  none, some, ◌==◌, update, some-inj, Bool-cases, if-branches, arith,
}
use compcache.Device.Bind.{bind-eq-some}
use compcache.Vswap.{
  Ret, done, einval, errno, is_done, Mode, is_blk, is_reg, is_other, Backing, Vswap, bd_release,
  bad_param, setup_mode, setup_backing_device, free_backing, init_block, vswap_init, vswap_exit,
}

-- Every device is claimed as often as before, and none was released without a claim.
abbrev pub IsBalanced : Vswap → Vswap → Type 0
IsBalanced s s' = ((x : ℕ) → s'.claims x ≡ s.claims x) × (s'.over_released ≡ s.over_released)

-- The state after a claim of `bdev`.
abbrev pub IsClaimed : ℕ → Vswap → Vswap → Type 0
IsClaimed bdev s s' =
    (s'.backing_bdev ≡ bdev)
    × (s'.claims bdev ≡ s.claims bdev + 1)
    × ((x : ℕ) → x ≢ bdev → s'.claims x ≡ s.claims x)
    × (s'.over_released ≡ s.over_released)
    × (s'.open_files ≡ s.open_files + 1)

-- A release takes the claim back.
released :
    (bdev : ℕ) (s s' : Vswap)
    → bdev ≢ 0
    → IsClaimed bdev s s'
    → (s'' : Vswap) × (bd_release s'.backing_bdev s' ≡ some s'')
      × IsBalanced s s''
      × (s''.open_files ≡ s.open_files + 1)
unfolding bd_release
released bdev s s' ne (b, c, other, o, f) =
    let nz : (s'.backing_bdev == 0) ≡ false = ground arith in
    let held : (s'.claims s'.backing_bdev == 0) ≡ false = rw (b, c) (ground arith) in
    let counts : (x : ℕ)
        → update s'.claims s'.backing_bdev (s'.claims s'.backing_bdev - 1) x ≡ s.claims x =
      λ x. elim (Bool-cases (x == s'.backing_bdev)) [
        | inl y ↦
            let r : x ≡ bdev = ground arith in
            let c' : s'.claims s'.backing_bdev ≡ s.claims x + 1 = rw (b, r) c in
            rw y (omega (arith, c'))
        | inr n ↦ rw n (other x (ground arith))
      ] in
    (
      record s' { claims = update s'.claims s'.backing_bdev (s'.claims s'.backing_bdev - 1) },
      rw (nz, held) refl,
      (counts, o),
      f,
    )

-- What each part of `vswap_init` leaves of a fresh state, where the backing file is a block device.
module _ (b : Backing) (bdev_set : b.bdev ≢ 0) (blk : b.mode ≡ is_blk) (s : Vswap)
    (fresh : s.backing_bdev ≡ 0) where
  setup_failed :
      (t : Vswap) {r : Ret} {s' : Vswap}
      → t.backing_bdev ≡ 0
      → t.claims ≡ s.claims
      → t.over_released ≡ s.over_released
      → bad_param t ≡ some (r, s')
      → (is_done r ≡ false) × IsBalanced s s'
  setup_failed t {r} {s'} zero_bdev c o e =
      let n : (t.backing_bdev == 0) ≡ true = ground arith in
      let q : ◌≡◌ {A = Ret × Vswap} (einval, t) (r, s') = some-inj (rw n at e) in
      let p : r ≡ einval = ap (λ (x : Ret × Vswap). x.0) (sym q) in
      let t_same : s' ≡ t = ap (λ (x : Ret × Vswap). x.1) (sym q) in
      (
        ap is_done p,
        (
          λ x. ap (λ (u : Vswap). u.claims x) t_same ∙ ap (λ (f : ℕ → ℕ). f x) c,
          ap (λ (u : Vswap). u.over_released) t_same ∙ o,
        ),
      )

  setup-IsClaimed :
      {r : Ret} {s' : Vswap}
      → setup_backing_device b s ≡ some (r, s')
      → ((is_done r ≡ true) × IsClaimed b.bdev s s') ⊎ ((is_done r ≡ false) × IsBalanced s s')
  unfolding setup_backing_device setup_mode
  setup-IsClaimed {r} {s'} e = elim (if-branches (not b.given) e) [
    | inl (_, f) ↦ inr (setup_failed s fresh refl refl f)
    | inr (_, f) ↦ elim (if-branches (not b.opens) f) [
      | inl (_, g) ↦ inr (setup_failed s fresh refl refl g)
      | inr (_, g) ↦ elim (if-branches b.claimable (rw blk at g)) [
        | inr (_, h) ↦ inr (setup_failed _ refl refl refl h)
        | inl (_, h) ↦ inl (claimed (some-inj h))
      ]
    ]
  ]
    where
      claimed :
          ◌≡◌ {A = Ret × Vswap}
            (
              done,
              record s {
                backing_bdev = b.bdev;
                claims = update s.claims b.bdev (s.claims b.bdev + 1);
                open_files = s.open_files + 1;
                disk_size = b.i_size / 4096;
              },
            )
            (r, s')
          → (is_done r ≡ true) × IsClaimed b.bdev s s'
      claimed q =
          let self : (b.bdev == b.bdev) ≡ true = ground arith in
          subst (λ (p : Ret × Vswap). (is_done p.0 ≡ true) × IsClaimed b.bdev s p.1) q
            (
              refl,
              (
                refl,
                rw self refl,
                λ x n. let other : (x == b.bdev) ≡ false = ground arith in rw other refl,
                refl,
                refl,
              ),
            )

  -- What `vswap_init` gives back where it fails.
  freed_backing :
      (c : Ret) (t : Vswap) {r : Ret} {s' : Vswap}
      → IsClaimed b.bdev s t
      → is_done c ≡ false
      → free_backing c t ≡ some (r, s')
      → (is_done r ≡ false) × IsBalanced s s'
  freed_backing c t v bad e =
      let (u, given_back, balanced, _) = released b.bdev s t bdev_set v in
      let q : ◌≡◌ {A = Ret × Vswap} (c, u) _ = some-inj (rw given_back at e) in
      subst (λ (p : Ret × Vswap). (is_done p.0 ≡ false) × IsBalanced s p.1) q (bad, balanced)

  block_held :
      (major : Option ℕ) (registers : Ret) (t : Vswap) {r : Ret} {s' : Vswap}
      → IsClaimed b.bdev s t
      → init_block major registers t ≡ some (r, s')
      → ((is_done r ≡ true) × IsClaimed b.bdev s s') ⊎ ((is_done r ≡ false) × IsBalanced s s')
  unfolding init_block
  block_held none registers t v e = inr (freed_backing (errno 0) t v refl e)
  block_held (some major) registers t v e = elim (if-branches (is_done registers) e) [
    | inl (_, f) ↦ inl (
        subst (λ (p : Ret × Vswap). (is_done p.0 ≡ true) × IsClaimed b.bdev s p.1) (some-inj f)
          (refl, v))
    | inr (bad, f) ↦ inr (freed_backing registers _ v bad f)
  ]

  init_held :
      (major : Option ℕ) (registers : Ret) {r : Ret} {s' : Vswap}
      → vswap_init b major registers s ≡ some (r, s')
      → ((is_done r ≡ true) × IsClaimed b.bdev s s') ⊎ ((is_done r ≡ false) × IsBalanced s s')
  unfolding vswap_init
  init_held major registers e =
      let ((c, t), set_up, rest) = bind-eq-some (setup_backing_device b s) _ e in
      elim (setup-IsClaimed set_up) [
        | inl (ok, v) ↦ block_held major registers t v (rw ok at rest)
        | inr (bad, v) ↦ inr (
            subst (λ (p : Ret × Vswap). (is_done p.0 ≡ false) × IsBalanced s p.1)
              (some-inj (rw bad at rest)) (bad, v))
      ]

  -- Where the backing file is a block device and no backing device was set before: a failing `vswap_init`
  -- gives its claim back, and after a successful one `vswap_exit` runs to its end and gives it back, but
  -- the backing file stays open. No device is released without a claim.
  pub vswap_init-IsBalanced :
      (major : Option ℕ) (registers : Ret) {r : Ret} {s' : Vswap}
      → vswap_init b major registers s ≡ some (r, s')
      → (is_done r ≡ false → IsBalanced s s')
        × (is_done r ≡ true
            → (s'' : Vswap) × (vswap_exit s' ≡ some s'')
              × IsBalanced s s''
              × (s''.open_files ≡ s.open_files + 1))
  unfolding vswap_exit
  vswap_init-IsBalanced major registers {r} {s'} e = elim (init_held major registers e) [
    | inr (bad, v) ↦ ((λ q. v), (λ q. absurd cc))
    | inl (ok, v) ↦
        let (u, given_back, balanced, files) = released b.bdev s s' bdev_set v in
        (
          (λ q. absurd cc),
          (λ q. (record u { blkdev = false; driver = false }, rw given_back refl, balanced, files)),
        )
  ]

-- A file of `n` bytes that is given, opens and is not in use for swapping, on the device `bdev`.
abbrev pub file : Mode → (bdev n : ℕ) → Backing
file mode bdev n = record {
  given = true;
  opens = true;
  mode = mode;
  bdev = bdev;
  claimable = true;
  is_swapfile = false;
  i_size = n;
}

-- Where the backing file is given and opens, `register_blkdev` returns a number and
-- `register_virtio_driver` returns 0, no backing device was set before, and the device that the file
-- names is not NULL and not claimed: where the file is a regular one that is not in use for swapping,
-- `vswap_init` returns 0 and `vswap_exit` releases the device of its file system, which the module has
-- not claimed. Where it is neither a block device nor a regular file, `vswap_init` returns 0 without a
-- backing device, and `vswap_exit` releases NULL.
pub vswap_exit-unclaimed :
    (bdev n major : ℕ) (s : Vswap)
    → bdev ≢ 0
    → s.backing_bdev ≡ 0
    → s.claims bdev ≡ 0
    → ((s' s'' : Vswap) × (vswap_init (file is_reg bdev n) (some major) done s ≡ some (done, s'))
        × (vswap_exit s' ≡ some s'')
        × (s''.over_released ≡ s.over_released + 1))
      × ((s' : Vswap) × (vswap_init (file is_other bdev n) (some major) done s ≡ some (done, s'))
          × (vswap_exit s' ≡ none))
unfolding vswap_init vswap_exit setup_backing_device setup_mode init_block bd_release
vswap_exit-unclaimed bdev n major s ne fresh unclaimed =
    let a : (bdev == 0) ≡ false = ground arith in
    let c : (s.claims bdev == 0) ≡ true = ground arith in
    let z : (s.backing_bdev == 0) ≡ true = ground arith in
    (
      (
        record s {
          backing_bdev = bdev;
          disk_size = n / 4096;
          major = major;
          open_files = s.open_files + 1;
          blkdev = true;
          driver = true;
        },
        record s {
          backing_bdev = bdev;
          disk_size = n / 4096;
          major = major;
          open_files = s.open_files + 1;
          blkdev = false;
          driver = false;
          over_released = s.over_released + 1;
        },
        refl,
        rw (a, c) refl,
        refl,
      ),
      (
        record s {
          disk_size = n / 4096;
          major = major;
          open_files = s.open_files + 1;
          blkdev = true;
          driver = true;
        },
        refl,
        rw z refl,
      ),
    )
