-- ===== src/SrRelay/Load.antt =====
-- sr_relay.c: what its loading and unloading leave behind.
use compcache.Common.{
  ℕ, ◌+◌, ◌-◌, ◌/◌, ◌≡◌, ◌≢◌, refl, inl, inr, true, false, some, ◌==◌, update, arith, Bool-cases,
}
use compcache.Vswap.{is_blk}
use compcache.SrRelay.{
  done, einval, Sr, Kernel, release_backing, setup_mode, setup_backing_device, setup_sr_device,
  init_relay, init_device, sr_relay_init, sr_relay_exit,
}

-- The kernel refuses nothing, and the backing file is the block device `bdev`, of `n` bytes.
abbrev pub granted : (bdev n : ℕ) → Kernel
granted bdev n = record {
  cdata = true;
  cworkmem = true;
  given = true;
  opens = true;
  mode = is_blk;
  bdev = bdev;
  claimable = true;
  sets_blocksize = true;
  is_swapfile = false;
  i_size = n;
  disk = true;
  major = true;
  queue = true;
  relay = true;
  tfm = true;
}

-- The module's parameter is not given.
abbrev pub no_param : Kernel
no_param = record (granted 0 0) { given = false }

-- The claims and the block sizes of all devices are as before.
abbrev pub IsRestored : Sr → Sr → Type 0
IsRestored s s' =
    ((x : ℕ) → s'.claims x ≡ s.claims x)
    × ((x : ℕ) → s'.block_size x ≡ s.block_size x)
    × (s'.over_released ≡ s.over_released)

-- Where the kernel refuses nothing and the backing file is a block device, `sr_relay_init` succeeds, and
-- `sr_relay_exit` gives back the claim, the block size, the memory, the registration, the channel and
-- the transform, but not the disk and its queue. Where the module's parameter is missing and no backing
-- device was set before, `sr_relay_init` fails with -EINVAL and keeps both buffers of the compressor.
pub sr_relay_exit-left :
    (bdev n : ℕ) (s : Sr)
    → bdev ≢ 0
    → s.b_dev ≡ 0
    → ((s' s'' : Sr) × (sr_relay_init (granted bdev n) s ≡ some (done, s'))
        × (sr_relay_exit s' ≡ some s'')
        × IsRestored s s''
        × ((s''.cdata ≡ false)
            × (s''.cworkmem ≡ false)
            × (s''.registered ≡ false)
            × (s''.relay ≡ false)
            × (s''.tfm ≡ false))
        × (s''.disk ≡ true)
        × (s''.queue ≡ true))
      × ((s' : Sr) × (sr_relay_init no_param s ≡ some (einval, s'))
          × (s'.cdata ≡ true)
          × (s'.cworkmem ≡ true))
unfolding sr_relay_init sr_relay_exit release_backing setup_mode setup_backing_device
    setup_sr_device init_relay init_device
sr_relay_exit-left bdev n s ne fresh =
    let nz : (bdev == 0) ≡ false = ground arith in
    let z : (s.b_dev == 0) ≡ true = ground arith in
    let self : (bdev == bdev) ≡ true = ground arith in
    let held : (s.claims bdev + 1 == 0) ≡ false = ground arith in
    let s' : Sr = record s {
      cdata = true;
      cworkmem = true;
      b_dev = bdev;
      old_block_size = s.block_size bdev;
      disk_size = n / 4096;
      block_size = update s.block_size bdev 4096;
      claims = update s.claims bdev (s.claims bdev + 1);
      disk = true;
      registered = true;
      queue = true;
      added = true;
      relay = true;
      tfm = true;
    } in
    let s'' : Sr = record s' {
      block_size = update s'.block_size bdev (s.block_size bdev);
      claims = update s'.claims bdev (s'.claims bdev - 1);
      registered = false;
      added = false;
      relay = false;
      tfm = false;
      cdata = false;
      cworkmem = false;
    } in
    let claims : (x : ℕ) → s''.claims x ≡ s.claims x = λ x. elim (Bool-cases (x == bdev)) [
      | inl e ↦ let q : x ≡ bdev = ground arith in rw (e, self, q) (omega arith)
      | inr d ↦ rw d refl
    ] in
    let sizes : (x : ℕ) → s''.block_size x ≡ s.block_size x = λ x. elim (Bool-cases (x == bdev)) [
      | inl e ↦ let q : x ≡ bdev = ground arith in rw (e, q) refl
      | inr d ↦ rw d refl
    ] in
    (
      (
        s',
        s'',
        refl,
        rw (nz, self, held) refl,
        (claims, sizes, refl),
        (refl, refl, refl, refl, refl),
        refl,
        refl,
      ),
      (record s { cdata = true; cworkmem = true }, rw z refl, refl, refl),
    )
