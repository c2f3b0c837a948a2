-- ===== src/Driver/Tests.antt =====
-- The theorems on the module's life at concrete answers of the kernel.
use compcache.Common.{ℕ, ◌≡◌, refl, true, false, some, [], ◌∷◌, get_elem?, arith}
use compcache.Common.Errno.{success, enomem}
use compcache.Pool.{Heap, null_entry}
use compcache.Driver.{
  Dev, Module, Answers, zeroed, destroy_device, create_device, create_devices, load_devices,
  zram_init, exit_device, exit_devices, zram_exit,
}
use compcache.Driver.Lifecycle.{All, IsDown, zram_exit-IsDown, zram_init-leak}

abbrev heap : Heap
heap = record {
  pool = record {
    flbitmap = λ i. false;
    slbitmap = λ w i. false;
    freelist = λ i. null_entry;
    total_pages = 0;
  };
  mem = λ page offset. record {
    size = 0;
    prev = 0;
    prev_page = 0;
    prev_offset = 0;
    next_page = 0;
    next_offset = 0;
  };
}

abbrev all_given : ℕ → Answers
all_given i = record { queue = true; disk = true; sysfs = success }

abbrev no_group : ℕ → Answers
no_group i = record { queue = true; disk = true; sysfs = enomem }

abbrev unloaded : Module
unloaded = record { num_devices = 1; devices = []; registered = false }

-- The device of the array when the module is unloaded.
abbrev last_state : Dev
last_state = record (zeroed heap) { queue = true; disk = true }

exit_run : zram_exit (zram_init 0 254 true heap all_given).state ≡ some (unloaded, last_state ∷ [])
unfolding zram_exit zram_init load_devices create_devices create_device exit_devices exit_device
    destroy_device
exit_run = refl

zram_exit-IsDown_example : All IsDown (last_state ∷ []) × (unloaded.registered ≡ false)
zram_exit-IsDown_example = zram_exit-IsDown 0 254 true heap all_given exit_run

zram_init-leak_example :
    ((zram_init 1 254 true heap no_group).code ≡ enomem)
    × ((d : Dev) × (get_elem? (zram_init 1 254 true heap no_group).freed 0 ≡ some d)
        × (d.disk_live ≡ true)
        × (d.queue_live ≡ true))
zram_init-leak_example =
    zram_init-leak 1 254 heap no_group (omega arith) (ground arith) refl refl refl
