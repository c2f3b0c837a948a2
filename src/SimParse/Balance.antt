-- ===== src/SimParse/Balance.antt =====
-- The table of libsimparse.c over a replay: it stays in its bounds and has no hole.
use compcache.Common.{ℕ, ◌+◌, ◌-◌, ◌^◌, ◌≤◌, ◌<◌, ◌≡◌, ◌≢◌, refl, ap, ◌∙◌, List, [], ◌∷◌, arith}
use compcache.SimParse.{
  SimHandle, Replay, Event, malloc, free, event_malloc, event_free, event_step, parse_file,
}

-- The first `curr_alloc_count` entries of the table are locations, and it has room for them.
pub record IsPacked (r : Replay) : Type 0 where
  pub bounded : r.curr_alloc_count ≤ 2 ^ 20
  pub packed : (i : ℕ) → i < r.curr_alloc_count → r.loc_table i ≢ 0

event_malloc-IsPacked :
    (h : SimHandle) (size : ℕ) (r : Replay) → IsPacked r → IsPacked (event_malloc h size r)
unfolding event_malloc
event_malloc-IsPacked h size r v = record {
  bounded = ground (arith, v.bounded);
  packed = λ i lt e. ground (arith, v.bounded, v.packed i);
}

event_free-IsPacked : (index : ℕ) (r : Replay) → IsPacked r → IsPacked (event_free index r)
unfolding event_free
event_free-IsPacked index r v = record {
  bounded = ground (arith, v.bounded);
  packed = λ i lt e. ground (arith, v.packed i, v.packed (r.curr_alloc_count - 1));
}

step-IsPacked : (h : SimHandle) (e : Event) (r : Replay) → IsPacked r → IsPacked (event_step h e r)
unfolding event_step
step-IsPacked h (malloc size) r v = event_malloc-IsPacked h size r v
step-IsPacked h (free index) r v = event_free-IsPacked index r v

step-ended : (h : SimHandle) (e : Event) (r : Replay) → (event_step h e r).ended ≡ r.ended
unfolding event_step event_malloc event_free
step-ended h (malloc size) r = ground arith
step-ended h (free index) r = ground arith

-- From a table whose locations in use are at most `MAX_TABLE_ENTRIES` and not NULL, a replay of any
-- profile keeps them so, and calls `simEnd` once.
pub parse_file-IsPacked :
    (h : SimHandle) (events : List Event) (r : Replay)
    → IsPacked r
    → IsPacked (parse_file h events r) × ((parse_file h events r).ended ≡ r.ended + 1)
unfolding parse_file
parse_file-IsPacked h [] r v = (record { bounded = v.bounded; packed = v.packed }, refl)
parse_file-IsPacked h (e ∷ events) r v =
    let (p, n) = parse_file-IsPacked h events (event_step h e r) (step-IsPacked h e r v) in
    (p, n ∙ ap (λ (k : ℕ). k + 1) (step-ended h e r))
