-- ===== src/GenProfile/Tests.antt =====
-- The theorems on randgen.c at a sequence of numbers.
use compcache.Common.{
  ℕ, ◌+◌, ◌*◌, ◌%◌, ◌^◌, ◌≡◌, ◌<◌, Option, List, ◌==◌, inl, inr, Bool-cases, refl, some, none, [],
  ◌∷◌, true, arith,
}
use compcache.SimParse.{SimHandle, Replay, Event, malloc, free, stage_done}
use compcache.GenProfile.{
  generate, random_events, random_event, free_events, event_alloc, event_free, random_ranged,
  random_limit, flip,
}
use compcache.GenProfile.Replayed.{IsFreed, generate-parse_file}
use compcache.GenProfile.Known.{parse_sizes, round, take_line, known_sizes}
use compcache.GenProfile.Known
use compcache.GenProfile.Ends.{known_sizes-parse_file}

abbrev rand : ℕ → ℕ
rand i = (1500000000 + i * 1103515245) % 2 ^ 31

-- Three rounds.
printed : generate rand 3 ≡ malloc 667 ∷ (free 0 ∷ [])
unfolding generate random_events random_event free_events event_alloc event_free random_ranged
    random_limit flip
printed = refl

abbrev handle : SimHandle
handle = record {
  sim_file = [];
  sim_malloc = some (λ n size. size + 1000 * n + 1);
  sim_malloc_with_back_ref = none;
  has_free = true;
  has_end = true;
  init_done = stage_done;
}

abbrev start : Replay
start = record {
  loc_table = λ i. 0;
  curr_alloc_count = 0;
  got = [];
  freed = [];
  table_freed = true;
  ended = 0;
}

generate-parse_file_example : IsFreed handle (generate rand 3) start
generate-parse_file_example =
    generate-parse_file rand 3 handle start (λ i. omega arith) (λ n size e. omega (arith, e)) refl
      refl refl

-- A coin that comes up tails and heads in turn.
abbrev coin : ℕ → ℕ
coin i = i % 2 * 1500000000

-- The second line has no number, and the third one is too large.
abbrev file : List (Option ℕ)
file = some 100 ∷ (none ∷ (some 2049 ∷ []))

-- The line without a number repeats the size; a `free` takes two numbers of `rand`.
known_run : known_sizes coin 10 file 0 ≡ some (malloc 100 ∷ (free 0 ∷ (malloc 100 ∷ (free 0 ∷ []))))
unfolding known_sizes parse_sizes round take_line Known.event_alloc event_free free_events
    random_limit flip
known_run = refl

keeps : (i : ℕ) → (d : ℕ) × (2 ^ 30 < coin (d + i))
keeps i = elim (Bool-cases (i % 2 == 0)) [
  | inl even ↦ (1, ground (arith, even))
  | inr odd ↦ (0, ground (arith, odd))
]

known_sizes-parse_file_example :
    (fuel : ℕ) × (events : List Event) × (known_sizes coin fuel file 0 ≡ some events)
    × IsFreed handle events start
known_sizes-parse_file_example =
    known_sizes-parse_file coin file 0 handle start keeps (λ n size e. omega (arith, e)) refl refl
      refl
