-- ===== src/SimParse.antt =====
-- sub-projects/alloc_stress/simprofile/libsimparse.c: the replay of an allocation profile against an
-- allocator's callbacks, and the handle that a program sets up for it.
--
-- A callback is the parameter that says what it returns; the calls of `simFree` are kept in order.
pub mod Balance
pub mod Handle
mod Tests
use compcache.Common.{
  ℕ, suc, ◌+◌, ◌-◌, ◌^◌, Bool, true, false, Option, none, some, List, [], ◌∷◌, ◌++◌, ◌==◌, leb,
  ◌||◌, not, if◌then◌else◌, update, length,
}

abbrev pub max_table_entries : ℕ
max_table_entries = 2 ^ 20

abbrev pub max_file_name_len : ℕ
max_file_name_len = 256

-- `initDone`: 0, INIT_STAGE_1 or INIT_STAGE_DONE.
pub data InitStage : Type 0 where
  not_done : InitStage
  stage_1 : InitStage
  stage_done : InitStage

-- `struct simHandle`. A callback is what its `n`-th call returns, for a size and the index of its entry,
-- so that two calls may give two locations.
pub record SimHandle : Type 0 where
  pub sim_file : List ℕ
  pub sim_malloc : Option ((n size : ℕ) → ℕ)
  pub sim_malloc_with_back_ref : Option ((n size back_ref : ℕ) → ℕ)
  pub has_free : Bool
  pub has_end : Bool
  pub init_done : InitStage

-- The globals `locTable` and `currAllocCount`, the locations that the calls of `simMalloc` or
-- `simMallocWithBackRef` returned and those that `simFree` was called with, the last one first, whether the table itself was freed, and how often `simEnd` was called.
pub record Replay : Type 0 where
  pub loc_table : ℕ → ℕ
  pub curr_alloc_count : ℕ
  pub got : List ℕ
  pub freed : List ℕ
  pub table_freed : Bool
  pub ended : ℕ

-- The location is stored at the end of the table.
abbrev pub store : ℕ → Replay → Replay
store loc r = record r { loc_table = update r.loc_table r.curr_alloc_count loc; got = loc ∷ r.got }

-- The first callback that is set is called.
abbrev pub malloc_with : Option (ℕ → ℕ → ℕ) → Option (ℕ → ℕ → ℕ → ℕ) → ℕ → Replay → Replay
malloc_with (some f) g size r = store (f (length r.got) size) r
malloc_with none (some g) size r = store (g (length r.got) size r.curr_alloc_count) r
malloc_with none none size r = r

unfoldable pub event_malloc : SimHandle → ℕ → Replay → Replay
event_malloc h size r =
    if r.curr_alloc_count == max_table_entries
    then r
    else (let r' = malloc_with h.sim_malloc h.sim_malloc_with_back_ref size r in
        if r'.loc_table r'.curr_alloc_count == 0
        then r'
        else record r' { curr_alloc_count = r'.curr_alloc_count + 1 })

-- An index outside the table, which the C function does not check, is a cell of its own here.
unfoldable pub event_free : ℕ → Replay → Replay
event_free index r =
    if r.curr_alloc_count == 0
    then r
    else (let last = r.curr_alloc_count - 1 in
        record r {
          freed = r.loc_table index ∷ r.freed;
          curr_alloc_count = last;
          loc_table = update (update r.loc_table index (r.loc_table last)) last 0;
        })

-- A line of the profile, as `sscanf` reads it: `M` or another letter, and a number.
pub data Event : Type 0 where
  malloc : ℕ → Event
  free : ℕ → Event

unfoldable pub event_step : SimHandle → Event → Replay → Replay
event_step h (malloc size) r = event_malloc h size r
event_step h (free index) r = event_free index r

-- `ParseFile`, over the lines of the file.
unfoldable pub parse_file : SimHandle → List Event → Replay → Replay
parse_file h [] r = record r { ended = r.ended + 1 }
parse_file h (e ∷ events) r = parse_file h events (event_step h e r)

-- `memory` is whether `calloc` gives memory, and `table` whether `posix_memalign` does.
unfoldable pub sim_get_handle : (memory table : Bool) → Option SimHandle
sim_get_handle memory table =
    if memory
    then (if table
        then some (record {
          sim_file = [];
          sim_malloc = none;
          sim_malloc_with_back_ref = none;
          has_free = false;
          has_end = false;
          init_done = not_done;
        })
        else none)
    else none

-- The Boolean is false where the C function returns -1.
unfoldable pub set_sim_file : ℕ → List ℕ → SimHandle → Bool × SimHandle
set_sim_file len fname h =
    if leb max_file_name_len len then (false, h) else (true, record h { sim_file = fname })

abbrev pub is_none {ℓ} : {A : Type ℓ} → Option A → Bool
is_none none = true
is_none (some a) = false

unfoldable pub set_sim_callbacks :
    Option SimHandle → Option (ℕ → ℕ → ℕ) → (sim_free sim_end : Bool) → Bool × Option SimHandle
set_sim_callbacks none sim_malloc sim_free sim_end = (false, none)
set_sim_callbacks (some h) sim_malloc sim_free sim_end =
    if not sim_free || not sim_end then (false, some h) else (
      true,
      some (record h {
        sim_malloc = sim_malloc;
        has_free = true;
        has_end = true;
        init_done = if is_none sim_malloc then stage_1 else h.init_done;
      }),
    )

abbrev pub next_stage : InitStage → InitStage
next_stage stage_1 = stage_done
next_stage s = s

unfoldable pub set_sim_callback_malloc_with_back_ref :
    Option SimHandle → Option (ℕ → ℕ → ℕ → ℕ) → Bool × Option SimHandle
set_sim_callback_malloc_with_back_ref none f = (false, none)
set_sim_callback_malloc_with_back_ref (some h) f =
    (true, some (record h { sim_malloc_with_back_ref = f; init_done = next_stage h.init_done }))

abbrev pub is_ready : InitStage → Bool
is_ready stage_done = true
is_ready s = false

-- `file` is what `fopen` and `fgets` give: no file, or the events of its lines.
unfoldable pub sim_start : Option SimHandle → Option (List Event) → Replay → Bool × Replay
sim_start none file r = (false, r)
sim_start (some h) none r =
    if is_ready h.init_done then (false, record r { table_freed = true }) else (false, r)
sim_start (some h) (some events) r =
    if is_ready h.init_done then (true, parse_file h events r) else (false, r)
