-- ===== src/Lifetime.antt =====
-- zram_drv.c and zram_sysfs.c: the life of one device, as the steps that the block layer and sysfs
-- make with it, in any order.
pub mod Requests
pub mod Setup
pub mod Invariant
mod Tests
use compcache.Common.{Bool, ℕ, Option, some, ◌≡◌}
use compcache.Common.Errno.{Code}
use compcache.Table.{Zram}
use compcache.Device.{Memory}
use compcache.Request.{Lzo, Bio, Served}
use compcache.Handler.{zram_make_request, zram_slot_free_notify}
use compcache.Sysfs.{disksize_store, reset_store}

module _ (lzo : Lzo) where
  -- One step of a device that does not fault: a block I/O request, a notice of a free swap slot, a write
  -- to `disksize` or to `reset`.
  pub data Step : Zram → Zram → Type 0 where
    request :
        {z : Zram} {r : Served} (m : Memory) (b : Bio)
        → zram_make_request lzo m z b ≡ some r
        → Step z r.zram
    notify : {z z' : Zram} (index : ℕ) → zram_slot_free_notify z index ≡ some z' → Step z z'
    resize :
        {z z' : Zram} {c : Code} (parsed : Bool) (n : ℕ)
        → disksize_store parsed n z ≡ (c, z')
        → Step z z'
    reset :
        {z z' : Zram} {c : Code} (holders : ℕ) (n : Option ℕ)
        → reset_store holders n z ≡ some (c, z')
        → Step z z'

  -- The states that are reached from a first one.
  pub data Reaches : Zram → Zram → Type 0 where
    here : {z : Zram} → Reaches z z
    onward : {z w z' : Zram} → Reaches z w → Step w z' → Reaches z z'
