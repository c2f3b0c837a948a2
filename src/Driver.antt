-- ===== src/Driver.antt =====
-- zram_drv.c: the devices of the module, from its loading to its unloading.
pub mod Lifecycle
mod Tests
use compcache.Common.{
  ℕ, zero, suc, ◌+◌, ◌-◌, Bool, true, false, Option, none, some, List, [], ◌∷◌, ltb, ◌==◌,
  if◌then◌else◌, get_elem?, set, replicate,
}
use compcache.Common.Errno.{Code, success, enomem, einval, ebusy}
use compcache.Pool.{Heap}
use compcache.Table.{Zram}
use compcache.Device.{bind, no_stats, zram_reset_device}
use compcache.Xvmalloc.{xv_create_pool}

-- One element of `devices`. `queue` and `disk` are its pointers, as the Boolean of their test; the
-- other three say what the kernel holds of the device: its queue, its registered disk, and its
-- sysfs group.
pub record Dev : Type 0 where
  pub zram : Zram
  pub queue : Bool
  pub disk : Bool
  pub queue_live : Bool
  pub disk_live : Bool
  pub sysfs : Bool
  pub first_minor : ℕ

-- The module's globals, and whether the block device is registered. `devices` is empty where
-- the array is not allocated.
pub record Module : Type 0 where
  pub num_devices : ℕ
  pub devices : List Dev
  pub registered : Bool

-- What the kernel answers to `create_device`: whether `blk_alloc_queue` and `alloc_disk` give memory,
-- and the code of `sysfs_create_group`.
pub record Answers : Type 0 where
  pub queue : Bool
  pub disk : Bool
  pub sysfs : Code

-- `max_num_devices`
abbrev pub max_num_devices : ℕ
max_num_devices = 32

abbrev pub is_success : Code → Bool
is_success success = true
is_success c = false

-- The result code, and the device after the call.
unfoldable pub create_device : Answers → ℕ → Dev → Code × Dev
create_device a device_id d =
    if a.queue
    then (if a.disk
        then (let added = record d {
          queue = true;
          queue_live = true;
          disk = true;
          disk_live = true;
          first_minor = device_id;
          zram = record (d.zram) { capacity = 0 };
        } in
            if is_success a.sysfs
            then (
              success,
              record added {
                sysfs = true;
                zram = record (d.zram) { capacity = 0; init_done = false };
              },
            )
            else (a.sysfs, added))
        else (enomem, record d { queue = true; queue_live = false; disk = false }))
    else (enomem, record d { queue = false })

unfoldable pub destroy_device : Dev → Dev
destroy_device d = record d {
  sysfs = false;
  disk_live = if d.disk then false else d.disk_live;
  queue_live = if d.queue then false else d.queue_live;
}

-- The loop of `zram_init`: devices are created until one fails. The result has the devices, and how
-- many were created before the one that failed.
pub record Created : Type 0 where
  pub code : Code
  pub dev_id : ℕ
  pub devices : List Dev

abbrev pub cons_created : Dev → Created → Created
cons_created d c = record c { devices = d ∷ c.devices }

unfoldable pub create_devices : (ℕ → Answers) → ℕ → List Dev → Created
create_devices answers dev_id [] = record { code = success; dev_id = dev_id; devices = [] }
create_devices answers dev_id (d ∷ ds) =
    let (c, d') = create_device (answers dev_id) dev_id d in
    let rest = create_devices answers (suc dev_id) ds in
    if is_success c
    then cons_created d' rest
    else record { code = c; dev_id = dev_id; devices = d' ∷ ds }

abbrev pub destroy_found : ℕ → Option Dev → List Dev → List Dev
destroy_found i none ds = ds
destroy_found i (some d) ds = set ds i (destroy_device d)

-- `while (dev_id) destroy_device(&devices[--dev_id])`
unfoldable pub destroy_below : ℕ → List Dev → List Dev
destroy_below zero ds = ds
destroy_below (suc n) ds = destroy_below n (destroy_found n (get_elem? ds n) ds)

-- A device of the zeroed array.
abbrev pub zeroed : Heap → Dev
zeroed heap = record {
  zram = record {
    has_pool = false;
    heap = heap;
    store = λ page offset. [];
    compress_workmem = false;
    compress_buffer = false;
    table = [];
    init_done = false;
    disksize = 0;
    capacity = 0;
    stats = no_stats;
  };
  queue = false;
  disk = false;
  queue_live = false;
  disk_live = false;
  sysfs = false;
  first_minor = 0;
}

-- What `zram_init` returns: its code, the module's globals, and the memory of the array when it was
-- freed, in which the kernel may still hold a disk.
pub record Loaded : Type 0 where
  pub code : Code
  pub state : Module
  pub freed : List Dev

abbrev pub load_failed : Code → ℕ → List Dev → Loaded
load_failed c n freed = record {
  code = c;
  state = record { num_devices = n; devices = []; registered = false };
  freed = freed;
}

-- Lines 726-741.
unfoldable pub load_devices : ℕ → Created → Loaded
load_devices n c =
    if is_success c.code
    then record {
      code = success;
      state = record { num_devices = n; devices = c.devices; registered = true };
      freed = [];
    }
    else load_failed c.code n (destroy_below c.dev_id c.devices)

-- `major` is what `register_blkdev` returns, 0 for an error, `array` whether `kzalloc` gives memory,
-- and `heap` the zeroed state of a pool.
unfoldable pub zram_init : (num_devices major : ℕ) → Bool → Heap → (ℕ → Answers) → Loaded
zram_init num_devices major array heap answers =
    if ltb max_num_devices num_devices
    then load_failed einval num_devices []
    else (if major == 0
        then load_failed ebusy num_devices []
        else (let n = if num_devices == 0 then 1 else num_devices in
            if array
            then load_devices n (create_devices answers 0 (replicate n (zeroed heap)))
            else load_failed enomem n []))

-- One round of the loop of `zram_exit`. `none` is a fault.
unfoldable pub exit_device : Dev → Option Dev
exit_device d =
    let d' = destroy_device d in
    if d'.zram.init_done
    then bind (zram_reset_device d'.zram) (λ z. some (record d' { zram = z }))
    else some d'

-- The loop, with the devices that are left: those that were taken down, as they are when the array is
-- freed.
unfoldable pub exit_devices : List Dev → Option (List Dev)
exit_devices [] = some []
exit_devices (d ∷ ds) = bind (exit_device d) (λ d'. bind (exit_devices ds) (λ ds'. some (d' ∷ ds')))

unfoldable pub zram_exit : Module → Option (Module × List Dev)
zram_exit m =
    bind (exit_devices m.devices) (λ ds. some (record m { devices = []; registered = false }, ds))
