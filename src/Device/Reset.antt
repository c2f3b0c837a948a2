-- ===== src/Device/Reset.antt =====
-- `zram_reset_device` of zram_drv.c, followed by a new initialisation.
use compcache.Common.{
  ℕ, ◌*◌, ◌/◌, ◌%◌, ◌^◌, ◌≡◌, refl, true, Option, none, some, some-inj, subst, sym, ap, ◌∙◌, arith,
}
use compcache.Common.Errno.{success}
use compcache.Pool.{Heap}
use compcache.Table.{Zram}
use compcache.Device.{
  Memory, bind, reset_slots, cleared, zram_set_disksize, zram_reset_device, zram_init_device,
}
use compcache.Device.Init.{IsReady, sized, zram_init_device-IsReady}

-- A reset that runs to its end leaves the device as `cleared` says.
pub reset-cleared :
    (z : Zram) {z' : Zram} → zram_reset_device z ≡ some z' → (h : Heap) × (z' ≡ cleared z h)
unfolding zram_reset_device
reset-cleared z {z'} d = after (reset_slots (z.disksize / 4096) 0 z.table z.heap) d
  where
    after :
        (o : Option Heap)
        → bind o (λ h. some (cleared z h)) ≡ some z'
        → (h : Heap) × (z' ≡ cleared z h)
    after none e = cc
    after (some h) e = (h, sym (some-inj e))

default_size :
    (m : Memory) (z : Zram) (h : Heap)
    → sized m (cleared z h) ≡ 25 * (m.ram_pages * 4096 % 2 ^ 64 / 100) % 2 ^ 64 / 4096 * 4096
unfolding zram_set_disksize cleared
default_size m z h = refl

-- A device that was reset can be initialised again where the kernel gives all the memory: it is then
-- an empty disk of a quarter of the RAM, in whole pages, with all statistics at 0, whatever it was
-- before.
pub reset-init :
    (m : Memory) (z : Zram) {z' : Zram}
    → zram_reset_device z ≡ some z'
    → m.workmem ≡ true
    → m.buffer ≡ true
    → m.table ≡ true
    → m.pool ≡ true
    → (w : Zram) × (zram_init_device m z' ≡ some (success, w))
      × IsReady (25 * (m.ram_pages * 4096 % 2 ^ 64 / 100) % 2 ^ 64 / 4096) w
unfolding cleared
reset-init m z {z'} d a b c e =
    let (h, q) = reset-cleared z d in
    let (w, ran, is_ready) = zram_init_device-IsReady m (cleared z h) refl refl a b c e in
    (
      w,
      ap (zram_init_device m) q ∙ ran,
      subst (λ n. IsReady n w) (ap (λ (s : ℕ). s / 4096) (default_size m z h) ∙ omega arith)
          is_ready,
    )
