-- ===== src/Vswap/Probe.antt =====
-- virtio_vswap.c: what the kernel holds of a virtio device.
use compcache.Common.{ℕ, ◌*◌, ◌%◌, ◌^◌, ◌≡◌, refl, inl, inr, true, false, Bool-cases}
use compcache.Vswap.{is_done, Dev, Answers, setup_vswap_device, vswap_probe, vswap_remove}

-- The kernel holds nothing of a device, or all of it.
abbrev pub IsFree : Dev → Type 0
IsFree d =
    (d.allocated ≡ false)
    × (d.vq ≡ false)
    × (d.disk ≡ false)
    × (d.queue ≡ false)
    × (d.added ≡ false)

abbrev pub IsLive : ℕ → Dev → Type 0
IsLive disk_size d =
    (d.allocated ≡ true)
    × (d.vq ≡ true)
    × (d.disk ≡ true)
    × (d.queue ≡ true)
    × (d.added ≡ true)
    × (d.capacity ≡ disk_size * 8 % 2 ^ 64)

-- Of a device of which the kernel holds nothing, `vswap_probe` either succeeds, and the kernel holds all
-- of it, with the capacity of the backing device, or fails, and the kernel holds nothing of it; after
-- `vswap_remove` it holds nothing again.
pub vswap_probe-IsLive :
    (a : Answers) (disk_size : ℕ) (d : Dev)
    → IsFree d
    → let p = vswap_probe a disk_size d in
      ((is_done p.0 ≡ true) → IsLive disk_size p.1)
      × ((is_done p.0 ≡ false) → IsFree p.1)
      × IsFree (vswap_remove p.1)
unfolding vswap_probe setup_vswap_device vswap_remove
vswap_probe-IsLive a disk_size d (m, v, k, q, l) = elim (Bool-cases a.alloc) [
  | inr x ↦ rw x ((λ e. absurd cc), (λ e. (m, v, k, q, l)), (refl, refl, refl, refl, refl))
  | inl x ↦ elim (Bool-cases (is_done a.find_vq)) [
    | inr y ↦
        rw (x, y) ((λ e. absurd cc), (λ e. (refl, v, k, q, l)), (refl, refl, refl, refl, refl))
    | inl y ↦ elim (Bool-cases a.disk) [
      | inr z ↦
          rw (x, y, z)
            ((λ e. absurd cc), (λ e. (refl, refl, k, q, l)), (refl, refl, refl, refl, refl))
      | inl z ↦ elim (Bool-cases a.queue) [
        | inr w ↦
            rw (x, y, z, w)
              ((λ e. absurd cc), (λ e. (refl, refl, refl, q, l)), (refl, refl, refl, refl, refl))
        | inl w ↦
            rw (x, y, z, w)
              (
                (λ e. (refl, refl, refl, refl, refl, refl)),
                (λ e. absurd cc),
                (refl, refl, refl, refl, refl),
              )
      ]
    ]
  ]
]
