-- ===== src/Scale/Driver.antt =====
-- zram_scale/zram_drv.c: the devices of the module, from its loading to its unloading.
use compcache.Common.{
  ℕ, zero, suc, ◌/◌, Bool, true, false, Option, none, some, List, [], ◌∷◌, ltb, ◌==◌, if◌then◌else◌,
  get_elem?, set, replicate,
}
use compcache.Common.Errno.{Code, success, enomem, einval, ebusy}
use compcache.Device.{bind, sector_size}
use compcache.Driver.{Answers, max_num_devices, is_success}
use compcache.Pool.{Heap}
use compcache.Scale.Cpus.{Cpus, Grants, prepare_cpus, cancel_cpus}
use compcache.Scale.Disk.{Disk, zram_default_disksize, zram_reset_device}

-- One element of `devices`. `queue` and `disk` are its pointers, as the Boolean of their test; the
-- other three say what the kernel holds of the device: its queue, its registered disk, and its
-- sysfs group.
pub record Dev : Type 0 where
  pub drive : Disk
  pub queue : Bool
  pub disk : Bool
  pub queue_live : Bool
  pub disk_live : Bool
  pub sysfs : Bool
  pub first_minor : ℕ

-- A device of the zeroed array, where `heap` is the zeroed state of a pool.
abbrev pub zeroed : Heap → Dev
zeroed heap = record {
  drive = record {
    zram = record {
      table = [];
      heap = heap;
      stats = λ cpu idx. 0;
      store = λ page offset. [];
      freed = [];
    };
    has_table = false;
    has_pool = false;
    has_stats = false;
    areas = 0;
    init_done = false;
    disksize = 0;
    capacity = 0;
  };
  queue = false;
  disk = false;
  queue_live = false;
  disk_live = false;
  sysfs = false;
  first_minor = 0;
}

unfoldable pub create_device : ℕ → Answers → ℕ → Dev → Code × Dev
create_device ram_pages a device_id d =
    if a.queue
    then (if a.disk
        then (let disksize = zram_default_disksize ram_pages in
            let added = record d {
              queue = true;
              queue_live = true;
              disk = true;
              disk_live = true;
              first_minor = device_id;
              drive = record (d.drive) { disksize = disksize; capacity = disksize / sector_size };
            } in
            if is_success a.sysfs
            then (
              success,
              record added { sysfs = true; drive = record (added.drive) { init_done = false } },
            )
            else (a.sysfs, added))
        else (enomem, record d { queue = true; queue_live = false; disk = false }))
    else (enomem, record d { queue = false })

unfoldable pub destroy_device : Dev → Dev
destroy_device d = record d {
  sysfs = false;
  disk_live = if d.disk then false else d.disk_live;
  queue_live = if d.queue then false else d.queue_live;
}

-- The loop of `zram_init` over the devices: the result code, how many were created before one failed,
-- and the devices.
pub record Created : Type 0 where
  pub code : Code
  pub dev_id : ℕ
  pub devices : List Dev

abbrev pub cons_created : Dev → Created → Created
cons_created d c = record c { devices = d ∷ c.devices }

unfoldable pub create_devices : ℕ → (ℕ → Answers) → ℕ → List Dev → Created
create_devices ram_pages answers dev_id [] = record {
  code = success;
  dev_id = dev_id;
  devices = [];
}
create_devices ram_pages answers dev_id (d ∷ ds) =
    let (c, d') = create_device ram_pages (answers dev_id) dev_id d in
    let rest = create_devices ram_pages answers (suc dev_id) ds in
    if is_success c
    then cons_created d' rest
    else record { code = c; dev_id = dev_id; devices = d' ∷ ds }

abbrev pub destroy_found : ℕ → Option Dev → List Dev → List Dev
destroy_found i none ds = ds
destroy_found i (some d) ds = set ds i (destroy_device d)

-- `while (dev_id) destroy_device(&devices[--dev_id])`
unfoldable pub destroy_below : ℕ → List Dev → List Dev
destroy_below zero ds = ds
destroy_below (suc n) ds = destroy_below n (destroy_found n (get_elem? ds n) ds)

-- The module's globals, and what the kernel has registered of it: the block device, and the notifier of
-- CPU events. `devices` is the array, empty where none is allocated.
pub record Module : Type 0 where
  pub num_devices : ℕ
  pub devices : List Dev
  pub registered : Bool
  pub notifier : Bool
  pub cpus : Cpus

-- What the kernel answers to `zram_init`: the result of `register_cpu_notifier` and of `register_blkdev`
-- (0 for an error), whether `kzalloc` gives the array, and the memory for the CPUs.
pub record Kernel : Type 0 where
  pub ram_pages : ℕ
  pub notifier : Code
  pub major : ℕ
  pub array : Bool
  pub grants : Grants
  pub answers : ℕ → Answers
  pub heap : Heap

module _ (k : Kernel) (online : List ℕ) where
  -- The label `out`.
  abbrev pub init_out : Code → Module → Code × Module
  init_out c m = (c, record m { cpus = cancel_cpus k.grants online m.cpus })

  abbrev pub unregister : Code → Module → Code × Module
  unregister c m = init_out c (record m { registered = false })

  -- From the loop over the devices on.
  unfoldable pub init_devices : Module → Created → Code × Module
  init_devices m c =
      if is_success c.code
      then (success, record m { devices = c.devices })
      else unregister c.code (record m { devices = destroy_below c.dev_id c.devices })

  -- From `register_blkdev` on.
  unfoldable pub init_block : Module → Code × Module
  init_block m =
      if k.major == 0
      then init_out ebusy m
      else (let n = if m.num_devices == 0 then 1 else m.num_devices in
          let m' = record m { registered = true; num_devices = n } in
          if k.array
          then init_devices m'
              (create_devices k.ram_pages k.answers 0 (replicate n (zeroed k.heap)))
          else unregister enomem m')

  -- From the loop over the online CPUs on.
  unfoldable pub init_cpus : Module → Bool × Cpus → Code × Module
  init_cpus m (ready, cpus) =
      let m' = record m { cpus = cpus } in if ready then init_block m' else init_out enomem m'

  unfoldable pub zram_init : Module → Code × Module
  zram_init m =
      if ltb max_num_devices m.num_devices
      then init_out einval m
      else (if is_success k.notifier
          then init_cpus (record m { notifier = true }) (prepare_cpus k.grants online m.cpus)
          else init_out k.notifier m)

-- One round of the loop of `zram_exit`. `none` is a fault.
unfoldable pub exit_device : (ram_pages cpu : ℕ) → Dev → Option Dev
exit_device ram_pages cpu d =
    let d' = destroy_device d in
    if d'.drive.init_done
    then bind (zram_reset_device ram_pages cpu d'.drive) (λ z. some (record d' { drive = z }))
    else some d'

-- The loop, with the devices that are left.
unfoldable pub exit_devices : (ram_pages cpu : ℕ) → List Dev → Option (List Dev)
exit_devices ram_pages cpu [] = some []
exit_devices ram_pages cpu (d ∷ ds) =
    bind (exit_device ram_pages cpu d)
      (λ d'. bind (exit_devices ram_pages cpu ds) (λ ds'. some (d' ∷ ds')))

-- The module when the array of devices is freed, and the devices of the array.
unfoldable pub zram_exit : Kernel → List ℕ → ℕ → Module → Option (Module × List Dev)
zram_exit k online cpu m = bind (exit_devices k.ram_pages cpu m.devices) (λ ds. some (
  record m {
    devices = [];
    registered = false;
    notifier = false;
    cpus = cancel_cpus k.grants online m.cpus;
  },
  ds,
))
