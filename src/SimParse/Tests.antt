-- ===== src/SimParse/Tests.antt =====
-- Runs of a replay, and the theorems at concrete handles.
use compcache.Common.{◌+◌, ◌*◌, ◌≡◌, refl, true, false, none, some, [], ◌∷◌, arith}
use compcache.SimParse.{
  SimHandle, Replay, not_done, malloc, free, parse_file, event_step, event_malloc, event_free,
}
use compcache.SimParse.Balance.{IsPacked}

abbrev start : Replay
start = record {
  loc_table = λ i. 0;
  curr_alloc_count = 0;
  got = [];
  freed = [];
  table_freed = false;
  ended = 0;
}

-- A handle whose `simMalloc` returns the size and a thousand for each call before.
abbrev handle : SimHandle
handle = record {
  sim_file = [];
  sim_malloc = some (λ n size. size + 1000 * n);
  sim_malloc_with_back_ref = none;
  has_free = true;
  has_end = true;
  init_done = not_done;
}

start-IsPacked : IsPacked start
start-IsPacked = record { bounded = omega arith; packed = λ i lt. absurd (omega arith) }

freed_run : (parse_file handle (malloc 5 ∷ malloc 6 ∷ free 0 ∷ []) start).freed ≡ 5 ∷ []
unfolding parse_file event_step event_malloc event_free
freed_run = refl
