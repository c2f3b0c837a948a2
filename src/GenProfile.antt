-- ===== src/GenProfile.antt =====
-- sub-projects/alloc_stress/genprofile/randgen.c: the generator of random allocation profiles. The
-- numbers that `rand` returns are the parameter `rand`, with RAND_MAX = 2^31 - 1 as in glibc, where the
-- doubles of the program are exact. A printed line is the event that libsimparse.c reads from it.
pub mod Profile
pub mod Held
pub mod Replayed
pub mod Known
pub mod Ends
mod Tests
use compcache.Common.{
  ℕ, zero, suc, ◌+◌, ◌-◌, ◌*◌, ◌/◌, ◌%◌, ◌^◌, Bool, List, [], ◌∷◌, ◌++◌, ltb, ◌==◌, if◌then◌else◌,
}
use compcache.SimParse.{Event, malloc, free}

abbrev pub max_alloc_count : ℕ
max_alloc_count = 2 ^ 16

pub record Range : Type 0 where
  pub min : ℕ
  pub max : ℕ

-- The ranges from MIN to MAX and from PREFER_MIN to PREFER_MAX.
abbrev pub full_range : Range
full_range = record { min = 32; max = 2048 }

abbrev pub prefer_range : Range
prefer_range = record { min = 580; max = 700 }

-- `currAllocCount`, and how many numbers `rand` has returned.
pub record Gen : Type 0 where
  pub curr_alloc_count : ℕ
  pub used : ℕ

abbrev pub next : Gen → Gen
next g = record g { used = suc g.used }

module _ (rand : ℕ → ℕ) where
  -- Whether `rand() / (RAND_MAX + 1.0)` is above `num / den`.
  unfoldable pub flip : (num den : ℕ) → Gen → Bool × Gen
  flip num den g = (ltb (num * 2 ^ 31) (rand g.used * den), next g)

  unfoldable pub random_limit : ℕ → Gen → ℕ × Gen
  random_limit max g = (rand g.used % max, next g)

  unfoldable pub random_ranged : Range → Range → (num den : ℕ) → Gen → ℕ × Gen
  random_ranged r p num den g =
      let (full, g') = flip num den g in
      let s = if full then r else p in (rand g'.used * (s.max - s.min) / 2 ^ 31 + s.min, next g')

  unfoldable pub event_alloc : Gen → Gen × List Event
  event_alloc g =
      if g.curr_alloc_count == max_alloc_count
      then (g, [])
      else (let (size, g') = random_ranged full_range prefer_range 8 10 g in
          (record g' { curr_alloc_count = g.curr_alloc_count + 1 }, malloc size ∷ []))

  unfoldable pub event_free : Gen → Gen × List Event
  event_free g =
      if g.curr_alloc_count == 0
      then (g, [])
      else (let (index, g') = random_limit g.curr_alloc_count g in
          (record g' { curr_alloc_count = g.curr_alloc_count - 1 }, free index ∷ []))

  -- One round of the first loop of `main`.
  unfoldable pub random_event : Gen → Gen × List Event
  random_event g = let (heads, g') = flip 1 2 g in if heads then event_alloc g' else event_free g'

  -- `n` rounds of the first loop, and of the second one.
  unfoldable pub random_events : ℕ → Gen → Gen × List Event
  random_events zero g = (g, [])
  random_events (suc n) g =
      let (g', out) = random_event g in let (g'', rest) = random_events n g' in (g'', out ++ rest)

  unfoldable pub free_events : ℕ → Gen → Gen × List Event
  free_events zero g = (g, [])
  free_events (suc n) g =
      let (g', out) = event_free g in let (g'', rest) = free_events n g' in (g'', out ++ rest)

  -- What `main` prints, with `n` rounds of the first loop.
  unfoldable pub generate : ℕ → List Event
  generate n =
      let (g, out) = random_events n (record { curr_alloc_count = 0; used = 0 }) in
      out ++ (free_events g.curr_alloc_count g).1

  unfoldable pub main : List Event
  main = generate 1000000
