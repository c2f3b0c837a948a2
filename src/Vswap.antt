-- ===== src/Vswap.antt =====
-- sub-projects/vswap/virtio_vswap.c: a block device that offers swap requests to the host and forwards
-- them to a backing device. The state has the driver's globals and what the kernel holds for it; the
-- answers of the kernel are arguments. An access to NULL is `none`.
pub mod Forward
pub mod Claims
pub mod Probe
mod Tests
use compcache.Common.{
  ℕ, ◌+◌, ◌-◌, ◌*◌, ◌/◌, ◌%◌, ◌^◌, Bool, true, false, not, ◌||◌, Option, none, some, List, [], ◌∷◌,
  ◌==◌, if◌then◌else◌, set, replicate, update,
}
use compcache.Block.{page_size}
use compcache.Device.{bind}

-- What a function returns: 0, or a negative error number.
pub data Ret : Type 0 where
  done : Ret
  enomem : Ret
  einval : Ret
  efault : Ret
  errno : ℕ → Ret

abbrev pub is_done : Ret → Bool
is_done done = true
is_done r = false

-- The parts of `struct bio` that the driver reads; `offset` is that of the first page.
pub record Bio : Type 0 where
  pub sector : ℕ
  pub vcnt : ℕ
  pub size : ℕ
  pub offset : ℕ
  pub is_write : Bool

-- One entry of the scatter-gather list.
pub data Buffer : Type 0 where
  unset : Buffer
  out_hdr : (type sector : ℕ) → Buffer
  bio_page : Buffer
  in_hdr : (status : ℕ) → Buffer

-- What `add_buf` is given: the list, and how many of its entries the host reads and writes.
pub record Descriptor : Type 0 where
  pub sg : List Buffer
  pub out : ℕ
  pub in_ : ℕ

-- VIRTIO_VSWAP_T_IN
abbrev pub t_in : ℕ
t_in = 0

-- VIRTIO_VSWAP_T_OUT
abbrev pub t_out : ℕ
t_out = 1

-- The list points at the header, whose `type` is set before the list is handed over.
unfoldable pub descriptor : Bio → Descriptor
descriptor b =
    let type = if b.is_write then t_out else t_in in
    let with_header = set (replicate 3 unset) 0 (out_hdr type b.sector) in
    let with_page = set with_header 1 bio_page in
    let out = if b.is_write then 2 else 1 in
    let in_ = if b.is_write then 0 else 1 in
    record { sg = set with_page (out + in_) (in_hdr 0); out = out; in_ = in_ + 1 }

-- The kernel and the host: whether `kzalloc` gives memory, whether `add_buf` takes a descriptor, and
-- whether the host acknowledges it.
pub record Host : Type 0 where
  pub alloc : Bool
  pub add_buf : Descriptor → Bool
  pub acks : Bool

-- How a call ends: it returns, it uses a NULL pointer, or it waits for ever.
pub data Try : Type 0 where
  returned : Ret → Try
  oops : Try
  waits : Try

unfoldable pub try_swap_to_host : Host → Bio → Try
try_swap_to_host h b =
    if not h.alloc
    then oops
    else (if not (h.add_buf (descriptor b))
        then returned enomem
        else (if h.acks then returned enomem else waits))

-- How a request ends: it goes to a device, or it is completed here.
pub data Outcome : Type 0 where
  forwarded : (bdev : ℕ) → Outcome
  completed : Outcome
  oopsed : Outcome
  waiting : Outcome

-- Whether a request is not one of a whole page that begins at one.
unfoldable pub is_foreign : Bio → Bool
is_foreign b =
    not (b.sector % 8 == 0) || not (b.vcnt == 1) || not (b.size == page_size) || not (b.offset == 0)

abbrev pub ended : (backing_bdev : ℕ) → Try → Outcome
ended backing_bdev (returned r) = if is_done r then completed else forwarded backing_bdev
ended backing_bdev oops = oopsed
ended backing_bdev waits = waiting

unfoldable pub vswap_make_request : (backing_bdev : ℕ) → Host → Bio → Outcome
vswap_make_request backing_bdev h b =
    if is_foreign b then forwarded backing_bdev else ended backing_bdev (try_swap_to_host h b)

-- The mode of the inode of the backing file.
pub data Mode : Type 0 where
  is_blk : Mode
  is_reg : Mode
  is_other : Mode

-- What the module's parameter names: whether it is given, whether the file opens, and its inode: the
-- device (0 for NULL), whether that can be claimed, whether the file is in use for swapping, and the
-- size.
pub record Backing : Type 0 where
  pub given : Bool
  pub opens : Bool
  pub mode : Mode
  pub bdev : ℕ
  pub claimable : Bool
  pub is_swapfile : Bool
  pub i_size : ℕ

-- The globals, and what the kernel holds: open files, claims of each device, whether the block device
-- and the virtio driver are registered, and how often a device was released that was not claimed.
pub record Vswap : Type 0 where
  pub backing_bdev : ℕ
  pub disk_size : ℕ
  pub major : ℕ
  pub open_files : ℕ
  pub claims : ℕ → ℕ
  pub blkdev : Bool
  pub driver : Bool
  pub over_released : ℕ

-- `bd_release`
unfoldable pub bd_release : ℕ → Vswap → Option Vswap
bd_release bdev s =
    if bdev == 0
    then none
    else (if s.claims bdev == 0
        then some (record s { over_released = s.over_released + 1 })
        else some (record s { claims = update s.claims bdev (s.claims bdev - 1) }))

-- The label `bad_param`.
abbrev pub bad_param : Vswap → Option (Ret × Vswap)
bad_param s =
    if s.backing_bdev == 0
    then some (einval, s)
    else bind (bd_release s.backing_bdev s) (λ s'. some (einval, s'))

abbrev pub sized : Backing → Vswap → Option (Ret × Vswap)
sized b s = some (done, record s { disk_size = b.i_size / page_size })

unfoldable pub setup_mode : Backing → Mode → Vswap → Option (Ret × Vswap)
setup_mode b is_blk s =
    if b.claimable
    then sized b
        (record s { backing_bdev = b.bdev; claims = update s.claims b.bdev (s.claims b.bdev + 1) })
    else bad_param (record s { backing_bdev = 0 })
setup_mode b is_reg s =
    let s' = record s { backing_bdev = b.bdev } in
    if b.is_swapfile then bad_param s' else sized b s'
setup_mode b is_other s = sized b s

unfoldable pub setup_backing_device : Backing → Vswap → Option (Ret × Vswap)
setup_backing_device b s =
    if not b.given
    then bad_param s
    else (if not b.opens
        then bad_param s
        else setup_mode b b.mode (record s { open_files = s.open_files + 1 }))

-- The label `out_free_backing`.
abbrev pub free_backing : Ret → Vswap → Option (Ret × Vswap)
free_backing r s = bind (bd_release s.backing_bdev s) (λ s'. some (r, s'))

-- From `register_blkdev` on: `major` is what it returns, and `registers` what `register_virtio_driver`
-- returns.
unfoldable pub init_block : (major : Option ℕ) (registers : Ret) → Vswap → Option (Ret × Vswap)
init_block none registers s = free_backing (errno 0) s
init_block (some major) registers s =
    let s' = record s { major = major; blkdev = true } in
    if is_done registers
    then some (done, record s' { driver = true })
    else free_backing registers (record s' { blkdev = false })

unfoldable pub vswap_init : Backing → Option ℕ → Ret → Vswap → Option (Ret × Vswap)
vswap_init b major registers s =
    bind (setup_backing_device b s)
      (λ r. if is_done r.0 then init_block major registers r.1 else some r)

unfoldable pub vswap_exit : Vswap → Option Vswap
vswap_exit s =
    bind (bd_release s.backing_bdev s) (λ s'. some (record s' { blkdev = false; driver = false }))

-- What the kernel holds of one virtio device: the memory of `struct virtio_vswap`, the virtqueue, the
-- disk, its queue, and whether the disk is added.
pub record Dev : Type 0 where
  pub allocated : Bool
  pub vq : Bool
  pub disk : Bool
  pub queue : Bool
  pub added : Bool
  pub capacity : ℕ

-- What the kernel answers to `vswap_probe`.
pub record Answers : Type 0 where
  pub alloc : Bool
  pub find_vq : Ret
  pub disk : Bool
  pub queue : Bool

unfoldable pub setup_vswap_device : Answers → (disk_size : ℕ) → Dev → Ret × Dev
setup_vswap_device a disk_size d =
    if not a.disk
    then (enomem, d)
    else (if not a.queue then (efault, record d { disk = false }) else (
      done,
      record d { disk = true; queue = true; added = true; capacity = disk_size * 8 % 2 ^ 64 },
    ))

-- The labels `out_free_vq` and `out_free_vswap`, and the success.
abbrev pub probed : Ret × Dev → Ret × Dev
probed (r, d) = if is_done r then (r, d) else (r, record d { vq = false; allocated = false })

unfoldable pub vswap_probe : Answers → (disk_size : ℕ) → Dev → Ret × Dev
vswap_probe a disk_size d =
    if not a.alloc
    then (enomem, d)
    else (if is_done a.find_vq
        then probed (setup_vswap_device a disk_size (record d { allocated = true; vq = true }))
        else (a.find_vq, record d { allocated = false }))

unfoldable pub vswap_remove : Dev → Dev
vswap_remove d = record d {
  added = false;
  queue = false;
  disk = false;
  vq = false;
  allocated = false;
}
