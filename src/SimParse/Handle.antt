-- ===== src/SimParse/Handle.antt =====
-- The handle of libsimparse.c: which sequences of calls make it ready.
use compcache.Common.{ℕ, ◌≡◌, refl, true, false, Option, none, some, List}
use compcache.SimParse.{
  SimHandle, Replay, Event, parse_file, sim_get_handle, set_sim_callbacks,
  set_sim_callback_malloc_with_back_ref, sim_start,
}

-- A handle that is set up with `setSimCallbacks` and its three callbacks never becomes ready: `simStart`
-- returns -1 and replays nothing, whatever the file has.
pub sim_start-direct :
    (f : ℕ → ℕ → ℕ) (file : Option (List Event)) (r : Replay)
    → sim_start (set_sim_callbacks (sim_get_handle true true) (some f) true true).1 file r
      ≡ (false, r)
unfolding sim_start set_sim_callbacks sim_get_handle
sim_start-direct f none r = refl
sim_start-direct f (some events) r = refl

-- A handle that is set up with `setSimCallbacks` without `simMalloc`, and then with a `simMallocWithBackRef`,
-- replays the whole file.
pub sim_start-back_ref :
    (g : ℕ → ℕ → ℕ → ℕ) (events : List Event) (r : Replay)
    → (h : SimHandle) × (h.sim_malloc_with_back_ref ≡ some g)
      × (sim_start
            (set_sim_callback_malloc_with_back_ref
              (set_sim_callbacks (sim_get_handle true true) none true true).1
              (some g)).1
            (some events)
            r
          ≡ (true, parse_file h events r))
unfolding sim_start set_sim_callbacks sim_get_handle set_sim_callback_malloc_with_back_ref
sim_start-back_ref g events r = (_, refl, refl)
