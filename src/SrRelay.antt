-- ===== src/SrRelay.antt =====
-- sub-projects/swap_replay/sr_relay/sr_relay.c: the recorder of swap I/O, a block device that forwards
-- each request to a backing device and writes a record of each swap request to a relay channel. LZO, MD5
-- and the channel are the kernel's: what they do for a request is part of it. A record is what
-- libsr_parse.c reads. An access to NULL is `none`.
pub mod Recorded
pub mod Load
mod Tests
use compcache.Common.{
  ℕ, ◌+◌, ◌-◌, ◌*◌, ◌/◌, ◌%◌, ◌^◌, Bool, true, false, not, ◌||◌, ◌&&◌, Option, none, some, List, [],
  ◌∷◌, ◌++◌, ◌==◌, if◌then◌else◌, update,
}
use compcache.Block.{page_size}
use compcache.Device.{bind}
use compcache.Vswap.{Bio, is_foreign, Mode, is_blk, is_reg, is_other}

-- A request, the length to which LZO compresses its page, its MD5 hash (`none` if that fails), and
-- whether the channel is full when its record is written.
pub record Swap : Type 0 where
  pub bio : Bio
  pub clen : ℕ
  pub hash : Option ℕ
  pub full : Bool

-- `struct sr_info`
pub record SrInfo : Type 0 where
  pub page_rw : ℕ
  pub clen : ℕ
  pub hash : ℕ

-- `first_write_done` and `sr_info`.
pub record Recorder : Type 0 where
  pub first_write_done : Bool
  pub sr_info : SrInfo

-- `bio_data_dir`
abbrev pub data_dir : Bio → ℕ
data_dir b = if b.is_write then 1 else 0

-- A record that the channel takes, where `sr_subbuf_start_callback` does not find it full.
abbrev pub relay_write : Swap → Recorder → List SrInfo × Recorder
relay_write q s = (if q.full then [] else s.sr_info ∷ [], s)

abbrev pub hashed : Option ℕ → ℕ → ℕ
hashed none old = old
hashed (some h) old = h

-- What is recorded of a request. Every request is forwarded to the backing device.
unfoldable pub sr_make_request : Swap → Recorder → List SrInfo × Recorder
sr_make_request q s =
    if is_foreign q.bio
    then ([], s)
    else (let page_rw = (q.bio.sector / 8 * 2 + data_dir q.bio) % 2 ^ 32 in
        if q.bio.is_write
        then relay_write q (record {
          first_write_done = true;
          sr_info = record {
            page_rw = page_rw;
            clen = q.clen % 2 ^ 32;
            hash = hashed q.hash s.sr_info.hash;
          };
        })
        else (let s' = record s {
          sr_info = record { page_rw = page_rw; clen = 0; hash = s.sr_info.hash };
        } in
            if s.first_write_done then relay_write q s' else ([], s')))

-- The records of a sequence of requests.
unfoldable pub record_all : List Swap → Recorder → List SrInfo
record_all [] s = []
record_all (q ∷ requests) s = let (out, s') = sr_make_request q s in out ++ record_all requests s'

-- What a function returns: 0, or a negative error number.
pub data Ret : Type 0 where
  done : Ret
  enomem : Ret
  einval : Ret
  ebusy : Ret
  efault : Ret

abbrev pub is_done : Ret → Bool
is_done done = true
is_done r = false

-- `sr`, and what the kernel holds for the module: its memory, its claims of devices, their block sizes,
-- the disk with its registration and its queue, the channel, and the transform for MD5.
-- `over_released` is how often a device was released that was not claimed.
pub record Sr : Type 0 where
  pub cdata : Bool
  pub cworkmem : Bool
  pub b_dev : ℕ
  pub old_block_size : ℕ
  pub disk_size : ℕ
  pub block_size : ℕ → ℕ
  pub claims : ℕ → ℕ
  pub over_released : ℕ
  pub disk : Bool
  pub registered : Bool
  pub queue : Bool
  pub added : Bool
  pub relay : Bool
  pub tfm : Bool

-- The answers of the kernel to `sr_relay_init`; `bdev` is the device of the inode, 0 for NULL.
pub record Kernel : Type 0 where
  pub cdata : Bool
  pub cworkmem : Bool
  pub given : Bool
  pub opens : Bool
  pub mode : Mode
  pub bdev : ℕ
  pub claimable : Bool
  pub sets_blocksize : Bool
  pub is_swapfile : Bool
  pub i_size : ℕ
  pub disk : Bool
  pub major : Bool
  pub queue : Bool
  pub relay : Bool
  pub tfm : Bool

-- `set_blocksize(sr.b_dev, sr.old_block_size)` and `bd_release(sr.b_dev)`.
unfoldable pub release_backing : Sr → Option Sr
release_backing s =
    if s.b_dev == 0
    then none
    else (let s' = record s { block_size = update s.block_size s.b_dev s.old_block_size } in
        if s.claims s.b_dev == 0
        then some (record s' { over_released = s.over_released + 1 })
        else some (record s' { claims = update s.claims s.b_dev (s.claims s.b_dev - 1) }))

-- The label `bad_param`.
abbrev pub bad_param : Ret → Sr → Option (Ret × Sr)
bad_param r s = if s.b_dev == 0 then some (r, s) else bind (release_backing s) (λ s'. some (r, s'))

abbrev pub sized : Kernel → Sr → Option (Ret × Sr)
sized k s = some (done, record s { disk_size = k.i_size / page_size })

unfoldable pub setup_mode : Kernel → Mode → Sr → Option (Ret × Sr)
setup_mode k is_blk s =
    if not k.claimable
    then bad_param einval (record s { b_dev = 0 })
    else (let s' = record s {
      b_dev = k.bdev;
      claims = update s.claims k.bdev (s.claims k.bdev + 1);
      old_block_size = s.block_size k.bdev;
    } in
        if k.sets_blocksize
        then sized k (record s' { block_size = update s.block_size k.bdev page_size })
        else bad_param einval s')
setup_mode k is_reg s =
    let s' = record s { b_dev = k.bdev } in if k.is_swapfile then bad_param ebusy s' else sized k s'
setup_mode k is_other s = sized k s

unfoldable pub setup_backing_device : Kernel → Sr → Option (Ret × Sr)
setup_backing_device k s =
    if not (k.given && k.opens) then bad_param einval s else setup_mode k k.mode s

unfoldable pub setup_sr_device : Kernel → Sr → Ret × Sr
setup_sr_device k s =
    if not k.disk
    then (enomem, s)
    else (if not k.major
        then (efault, record s { disk = true })
        else (if not k.queue
            then (efault, record s { disk = true; registered = true })
            else (done, record s { disk = true; registered = true; queue = true; added = true })))

-- The label `fail_alloc`.
abbrev pub fail_alloc : Ret → Sr → Ret × Sr
fail_alloc r s = (r, record s { cdata = false; cworkmem = false })

-- The label `fail_sr_dev`.
abbrev pub fail_sr_dev : Ret → Sr → Option (Ret × Sr)
fail_sr_dev r s = bind (release_backing s) (λ s'. some (fail_alloc r s'))

-- The labels `fail_hash_init` and `fail_relay`.
abbrev pub fail_relay : Ret → Sr → Option (Ret × Sr)
fail_relay r s = fail_sr_dev r (record s { registered = false; added = false })

-- From `setup_sr_relay` on.
unfoldable pub init_relay : Kernel → Sr → Option (Ret × Sr)
init_relay k s =
    if not k.relay
    then fail_relay enomem s
    else (if not k.tfm
        then fail_relay enomem (record s { relay = true })
        else some (done, record s { relay = true; tfm = true }))

-- From `setup_sr_device` on.
unfoldable pub init_device : Kernel → Ret × Sr → Option (Ret × Sr)
init_device k (r, s) = if is_done r then init_relay k s else fail_sr_dev r s

unfoldable pub sr_relay_init : Kernel → Sr → Option (Ret × Sr)
sr_relay_init k s =
    let s' = record s { cdata = k.cdata; cworkmem = k.cworkmem } in
    if not (k.cdata && k.cworkmem)
    then some (fail_alloc enomem s')
    else bind (setup_backing_device k s')
        (λ r. if is_done r.0 then init_device k (setup_sr_device k r.1) else some r)

unfoldable pub sr_relay_exit : Sr → Option Sr
sr_relay_exit s = bind (release_backing s) (λ s'. some (record s' {
  registered = false;
  added = false;
  relay = false;
  tfm = false;
  cdata = false;
  cworkmem = false;
}))
