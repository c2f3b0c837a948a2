-- ===== src/Vswap/Forward.antt =====
-- virtio_vswap.c: what the host is offered, and where a request goes.
use compcache.Common.{ℕ, ◌≡◌, refl, inl, inr, true, [], ◌∷◌, if◌then◌else◌, Bool-cases}
use compcache.Vswap.{
  Bio, out_hdr, bio_page, in_hdr, descriptor, Host, try_swap_to_host, forwarded, is_foreign,
  vswap_make_request,
}

-- The list of a request is its header, its page and the status, and the two counts are 3 together: the
-- host reads the page of a write and writes that of a read.
descriptor_lem :
    (b : Bio)
    → ((descriptor b).sg
        ≡ out_hdr (if b.is_write then 1 else 0) b.sector ∷ (bio_page ∷ (in_hdr 0 ∷ [])))
      × ((descriptor b).out ≡ (if b.is_write then 2 else 1))
      × ((descriptor b).in_ ≡ (if b.is_write then 1 else 2))
unfolding descriptor
descriptor_lem b = elim (Bool-cases b.is_write) [
  | inl w ↦ rw w (refl, refl, refl)
  | inr r ↦ rw r (refl, refl, refl)
]

-- Where `kzalloc` gives memory and the host acknowledges what it takes, `vswap_make_request` forwards every
-- request to the backing device, also the one that the host took: none is completed. What the host is
-- offered is the header with the direction and the sector, the page and the status, in this order, and
-- it is to read two of them for a write and one for a read.
pub vswap_make_request-forwarded :
    (backing_bdev : ℕ) (h : Host) (b : Bio)
    → h.alloc ≡ true
    → h.acks ≡ true
    → (vswap_make_request backing_bdev h b ≡ forwarded backing_bdev)
      × ((descriptor b).sg
          ≡ out_hdr (if b.is_write then 1 else 0) b.sector ∷ (bio_page ∷ (in_hdr 0 ∷ [])))
      × ((descriptor b).out ≡ (if b.is_write then 2 else 1))
      × ((descriptor b).in_ ≡ (if b.is_write then 1 else 2))
unfolding vswap_make_request try_swap_to_host
vswap_make_request-forwarded backing_bdev h b alloc acks =
    let (sg, out, in_) = descriptor_lem b in
    (
      elim (Bool-cases (is_foreign b)) [
        | inl f ↦ rw f refl
        | inr own ↦ elim (Bool-cases (h.add_buf (descriptor b))) [
          | inl takes ↦ simp (own, alloc, takes, acks)
          | inr full ↦ simp (own, alloc, full)
        ]
      ],
      sg,
      out,
      in_,
    )
