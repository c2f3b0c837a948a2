-- ===== src/Scale/Tests.antt =====
-- The theorems on zram_scale at a device with a table of three entries.
use compcache.Common.{
  ◌/◌, ◌∙◌, zero, suc, Bool, List, none, map, ◌≤◌, inr, some-inj, subst, sym, ℕ, ◌*◌, ◌%◌, ◌^◌, ◌≡◌,
  ◌≢◌, refl, inl, true, false, some, [], ◌∷◌, arith, replicate, get_elem?,
}
use compcache.Table.{page_zero_filled, zero_longs}
use compcache.Xvmalloc.{xv_create_pool}
use compcache.Common.Errno.{success}
use compcache.Request.{Lzo, Segment, Bio}
use compcache.Driver.{Answers}
use compcache.Scale.{Zram, zram_get_stat, write_page, write_segments}
use compcache.Scale.Entry.{write_page-lost}
use compcache.Scale.Skip.{write_segments-IsSole}
use compcache.Scale.Disk.{
  Disk, Memory, zram_default_disksize, free_page, reset_pages, zram_reset_device, zram_init_device,
  init_stats, init_table,
}
use compcache.Scale.Handlers.{Served, write_ready, zram_write, valid_io_request, zram_make_request}
use compcache.Scale.Sysfs.{disksize_store}
use compcache.Scale.Cpus.{Cpus, Grants, cpu_prepare, zram_cpu_notify, prepare_cpus}
use compcache.Scale.Driver.{
  Dev, Module, Kernel, zeroed, create_device, create_devices, destroy_device, init_devices,
  init_block, init_cpus, zram_init, exit_device, exit_devices, zram_exit,
}
use compcache.Scale.Hotplug.{zram_exit-workmems}
use compcache.Scale.Lifetime.{request, resize, Reaches, here, onward, IsReady}
use compcache.Scale.Life.{life-IsReady}
use compcache.Scale.Shows.{shown, sums, shown-faults}
use compcache.Table.Count.{count}
use compcache.Scale.{
  sum_stat, zram_is_zero_page, zram_find_obj, zram_free_page, free_entry, write_released,
}
use compcache.Scale.Counters.{IsCounted}
use compcache.Scale.Placed.{HasHeads}
use compcache.Scale.Written.{write_page-IsCounted}

-- Stored as it is.
abbrev plain : Lzo
plain = record { compress = λ bytes. (true, bytes); decompress = λ bytes. (true, bytes) }

abbrev device : Zram
device = record {
  table = 0 ∷ (1 ∷ (9 * 2 ^ 12 ∷ []));
  heap = record {
    pool = xv_create_pool;
    mem = λ page offset. record {
      size = 0;
      prev = 0;
      prev_page = 0;
      prev_offset = 0;
      next_page = 0;
      next_offset = 0;
    };
  };
  stats = λ cpu idx. 0;
  store = λ page offset. [];
  freed = [];
}

abbrev zeros : Segment
zeros = record { bytes = replicate 4096 0; fresh = 8 }

zeros-page_zero_filled : page_zero_filled zeros.bytes ≡ true
unfolding page_zero_filled zero_longs
zeros-page_zero_filled = refl

-- Two pages that differ in every byte.
abbrev filled : ℕ → Segment
filled b = record { bytes = replicate 4096 b; fresh = 8 }

filled_one : page_zero_filled (replicate 4096 1) ≡ false
unfolding page_zero_filled zero_longs
filled_one = refl

filled_two : page_zero_filled (replicate 4096 2) ≡ false
unfolding page_zero_filled zero_longs
filled_two = refl

write_page-lost_example :
    write_page plain true 0 0 (filled 1) device ≡ write_page plain true 0 0 (filled 2) device
write_page-lost_example =
    write_page-lost plain true 0 0 (filled 1) (filled 2) device (filled_one, refl, omega arith)
      (filled_two, refl, omega arith) refl

write_segments-IsSole_example :
    (z : Zram) × (write_segments plain true 0 0 (zeros ∷ (zeros ∷ [])) device ≡ some (true, z))
    × ((j : ℕ) → j ≢ 0 → get_elem? z.table j ≡ get_elem? device.table j)
write_segments-IsSole_example =
    write_segments-IsSole plain 0 0 (zeros ∷ (zeros ∷ [])) device (inl refl)
      (zeros-page_zero_filled, (zeros-page_zero_filled, tt))

abbrev idle_cpus : Cpus
idle_cpus = record {
  compress_buffer = λ cpu. false;
  compress_workmem = λ cpu. false;
  buffers_held = λ cpu. 0;
  workmems_held = λ cpu. 0;
}

abbrev granted : Grants
granted cpu = (true, true)

abbrev answers : Answers
answers = record { queue = true; disk = true; sysfs = success }

abbrev kernel : Kernel
kernel = record {
  ram_pages = 4000;
  notifier = success;
  major = 254;
  array = true;
  grants = granted;
  answers = λ i. answers;
  heap = device.heap;
}

abbrev unloaded : Module
unloaded = record {
  num_devices = 0;
  devices = [];
  registered = false;
  notifier = false;
  cpus = idle_cpus;
}

abbrev online : List ℕ
online = 0 ∷ (1 ∷ [])

loaded : (zram_init kernel online unloaded).0 ≡ success
unfolding zram_init init_cpus init_block init_devices prepare_cpus zram_cpu_notify cpu_prepare
    create_devices create_device
loaded = refl

exited :
    (m : Module) × (ds : List Dev) × (zram_exit kernel online 0 (zram_init kernel online unloaded).1
      ≡ some (m, ds))
unfolding zram_init init_cpus init_block init_devices prepare_cpus zram_cpu_notify cpu_prepare
    create_devices create_device zram_exit exit_devices exit_device destroy_device
exited = (_, _, refl)

zram_exit-workmems_example : 1 ≤ exited.0.cpus.workmems_held 1
zram_exit-workmems_example =
    zram_exit-workmems kernel online 0 unloaded loaded exited.2 1 (inr (inl refl))

abbrev no_block : Kernel
no_block = record kernel { major = 0 }

abbrev created : Disk
created = (create_device 4000 answers 0 (zeroed device.heap)).1.drive

abbrev sized : Disk
sized = (disksize_store true 8192 created).1

abbrev enough : Memory
enough = record { ram_pages = 4000; table = true; stats = true; pool = true }

abbrev write_nothing : Bio
write_nothing = record {
  sector = 8;
  size = 4096;
  is_discard = false;
  is_write = true;
  segments = [];
}

written : (r : Served) × (zram_make_request plain true enough 0 sized write_nothing ≡ some r)
unfolding zram_make_request valid_io_request zram_write write_ready zram_init_device init_table
    init_stats zram_default_disksize disksize_store create_device write_segments
written = (_, refl)

life : Reaches created written.0.disk
unfolding disksize_store create_device
life =
    onward (onward here (resize true 8192 refl))
      (request plain true enough 0 write_nothing written.1)

life-IsReady_example : IsReady written.0.disk
life-IsReady_example = life-IsReady 4000 0 answers device.heap life

shown-faults_example :
    (created.init_done ≡ false → shown 4 created ≡ replicate 8 none)
    × (created.init_done ≡ true → shown 4 created ≡ map some (sums 4 created))
shown-faults_example = shown-faults 4 4000 0 answers device.heap here

-- An initialised device with a table of two entries.
abbrev ready : Disk
ready = record {
  zram = record device { table = 0 ∷ (0 ∷ []) };
  has_table = true;
  has_pool = true;
  has_stats = true;
  areas = 1;
  init_done = true;
  disksize = 8192;
  capacity = 16;
}

again : (d : Disk) × (zram_reset_device 4000 0 ready ≡ some d)
unfolding zram_default_disksize zram_reset_device reset_pages free_page zram_free_page free_entry
    zram_is_zero_page zram_find_obj
again = (_, refl)

-- Every page is compressed to 20 bytes.
abbrev short : Lzo
short = record { compress = λ bytes. (true, replicate 20 7); decompress = λ bytes. (true, bytes) }

empty : (i a : ℕ) → get_elem? (0 ∷ (0 ∷ [])) i ≡ some a → a % 2 ≡ 1 → a / 4096 ≡ 0
empty zero a e o = let q : 0 ≡ a = some-inj e in omega arith
empty (suc zero) a e o = let q : 0 ≡ a = some-inj e in omega arith
empty (suc (suc i)) a e o = absurd cc

empty-IsCounted : IsCounted 4 ready.zram
unfolding zram_get_stat sum_stat count
empty-IsCounted = record {
  stored = refl;
  zeros = refl;
  expanded = refl;
  shapes = λ i a e. empty i a e;
}

heads : HasHeads ready.zram.heap.pool
unfolding xv_create_pool
heads i = (omega arith, omega arith, refl)

freed_same : zram_free_page 0 0 ready.zram ≡ some ready.zram
unfolding zram_free_page free_entry zram_is_zero_page zram_find_obj
freed_same = refl

page_written : (p : Bool × ℕ × Zram) × (write_page short true 0 0 (filled 1) ready.zram ≡ some p)
unfolding write_page write_released zram_free_page free_entry zram_is_zero_page zram_find_obj
    page_zero_filled zero_longs
page_written = (_, refl)

write_page-IsCounted_example : IsCounted 4 page_written.0.2
write_page-IsCounted_example =
    write_page-IsCounted 4 0 0 short true (filled 1) ready.zram (omega arith) (omega arith)
      empty-IsCounted
      (λ w e. subst (λ (z : Zram). HasHeads z.heap.pool) (some-inj (sym freed_same ∙ e)) heads)
      page_written.1
