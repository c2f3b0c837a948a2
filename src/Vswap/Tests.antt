-- ===== src/Vswap/Tests.antt =====
-- The theorems on virtio_vswap.c at concrete answers of the kernel.
use compcache.Common.{◌≡◌, refl, true, false, some, none, [], ◌∷◌, arith}
use compcache.Vswap.{
  done, is_done, Bio, out_hdr, bio_page, in_hdr, descriptor, Host, forwarded, vswap_make_request,
  is_blk, is_reg, is_other, Vswap, setup_mode, setup_backing_device, init_block, vswap_init,
  vswap_exit, Dev, Answers, vswap_probe, vswap_remove,
}
use compcache.Vswap.Forward.{vswap_make_request-forwarded}
use compcache.Vswap.Probe.{IsFree, IsLive, vswap_probe-IsLive}
use compcache.Vswap.Claims.{file, IsBalanced, vswap_init-IsBalanced, vswap_exit-unclaimed}

-- A write of the second page.
abbrev page_out : Bio
page_out = record { sector = 8; vcnt = 1; size = 4096; offset = 0; is_write = true }

abbrev host : Host
host = record { alloc = true; add_buf = λ d. true; acks = true }

vswap_make_request-forwarded_example :
    (vswap_make_request 3 host page_out ≡ forwarded 3)
    × ((descriptor page_out).sg ≡ out_hdr 1 8 ∷ (bio_page ∷ (in_hdr 0 ∷ [])))
    × ((descriptor page_out).out ≡ 2)
    × ((descriptor page_out).in_ ≡ 1)
vswap_make_request-forwarded_example = vswap_make_request-forwarded 3 host page_out refl refl

abbrev fresh : Vswap
fresh = record {
  backing_bdev = 0;
  disk_size = 0;
  major = 0;
  open_files = 0;
  claims = λ bdev. 0;
  blkdev = false;
  driver = false;
  over_released = 0;
}

init_run : (s : Vswap) × (vswap_init (file is_blk 5 8192) (some 254) done fresh ≡ some (done, s))
unfolding vswap_init setup_backing_device setup_mode init_block
init_run = (_, refl)

vswap_init-IsBalanced_example :
    (is_done done ≡ false → IsBalanced fresh init_run.0)
    × (is_done done ≡ true
        → (s : Vswap) × (vswap_exit init_run.0 ≡ some s) × IsBalanced fresh s × (s.open_files ≡ 1))
vswap_init-IsBalanced_example =
    vswap_init-IsBalanced (file is_blk 5 8192) (omega arith) refl fresh refl (some 254) done
      init_run.1

vswap_exit-unclaimed_example :
    ((s' s'' : Vswap) × (vswap_init (file is_reg 5 8192) (some 254) done fresh ≡ some (done, s'))
      × (vswap_exit s' ≡ some s'')
      × (s''.over_released ≡ 1))
    × ((s' : Vswap) × (vswap_init (file is_other 5 8192) (some 254) done fresh ≡ some (done, s'))
        × (vswap_exit s' ≡ none))
vswap_exit-unclaimed_example = vswap_exit-unclaimed 5 8192 254 fresh (omega arith) refl refl

abbrev empty : Dev
empty = record {
  allocated = false;
  vq = false;
  disk = false;
  queue = false;
  added = false;
  capacity = 0;
}

-- The queue of the disk is not allocated.
abbrev no_queue : Answers
no_queue = record { alloc = true; find_vq = done; disk = true; queue = false }

vswap_probe-IsLive_example :
    let p = vswap_probe no_queue 2 empty in
    ((is_done p.0 ≡ true) → IsLive 2 p.1)
    × ((is_done p.0 ≡ false) → IsFree p.1)
    × IsFree (vswap_remove p.1)
vswap_probe-IsLive_example = vswap_probe-IsLive no_queue 2 empty (refl, refl, refl, refl, refl)
