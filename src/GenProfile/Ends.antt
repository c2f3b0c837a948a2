-- ===== src/GenProfile/Ends.antt =====
-- knownsizes.c: its loop ends if `Flip` gives heads again and again, and what it prints is a profile
-- that libsimparse.c replays.
use compcache.Common.{
  ℕ, zero, suc, ◌+◌, ◌-◌, ◌*◌, ◌^◌, ◌<◌, ◌≤◌, ◌≡◌, refl, subst, inl, inr, Option, some, List, [],
  ◌∷◌, ◌++◌, ltb, leb, ◌==◌, true, false, arith, Bool-cases,
}
use compcache.SimParse.{SimHandle, Replay, Event}
use compcache.GenProfile.{Gen, next, flip, random_limit, event_free, free_events}
use compcache.GenProfile.Known.{
  event_alloc, Round, ended, going, scan, take_line, round, parse_sizes, known_sizes,
}
use compcache.GenProfile.Profile.{
  IsProfile-append, IsStep, event_free-IsStep, free_events-IsProfile,
}
use compcache.GenProfile.Replayed.{Allocates, IsFreed, profile-parse_file}

abbrev pub IsKnownSize : ℕ → Type 0
IsKnownSize size = size ≤ 2048

-- From any number of `rand` on, one gives heads.
abbrev pub KeepsFlipping : (ℕ → ℕ) → Type 0
KeepsFlipping rand = (i : ℕ) → (d : ℕ) × (2 ^ 30 < rand (d + i))

abbrev IsKnownStep : Gen → Gen × List Event → Type 0
IsKnownStep = IsStep (2 ^ 20) IsKnownSize

event_alloc-IsStep :
    (size : ℕ) (g : Gen)
    → size ≤ 2048
    → g.curr_alloc_count ≤ 2 ^ 20
    → IsKnownStep g (event_alloc size g)
unfolding event_alloc
event_alloc-IsStep size g small le = elim (Bool-cases (g.curr_alloc_count == 2 ^ 20)) [
  | inl full ↦ rw full (refl, le)
  | inr room ↦ rw room ((ground arith, small, refl), ground arith)
]

module _ (rand : ℕ → ℕ) where
  -- With enough fuel the loop ends, having printed a profile.
  abbrev Ends : List (Option ℕ) → ℕ → Gen → Type 0
  Ends lines size g =
      (fuel : ℕ) × (end : Gen × List Event) × (parse_sizes rand fuel lines size g ≡ some end)
      × IsKnownStep g end

  -- What a round leads to.
  abbrev Leads : Gen → Round → Type 0
  Leads g (ended g') = IsKnownStep g (g', [])
  Leads g (going lines size g' out) = IsKnownStep g (g', out) × Ends lines size g'

  round-Ends :
      (lines : List (Option ℕ)) (size : ℕ) (g : Gen) (r : Round)
      → round rand lines size g ≡ r
      → Leads g r
      → Ends lines size g
  unfolding parse_sizes
  round-Ends lines size g (ended g') e s = (1, (g', []), rw (parse_sizes, e) refl, s)
  round-Ends lines size g (going lines' size' g' out) e
        ((p, le), (fuel, (g'', rest), done, (q, le'))) =
      (
        suc fuel,
        (g'', out ++ rest),
        rw (parse_sizes, e, done) refl,
        (IsProfile-append (2 ^ 20) IsKnownSize out rest _ _ _ p q, le'),
      )

  -- The loop ends on what is left of the lines behind the first.
  abbrev RestEnds : List (Option ℕ) → Type 0
  RestEnds [] = Unit
  RestEnds (line ∷ rest) = (size : ℕ) (g : Gen) → g.curr_alloc_count ≤ 2 ^ 20 → Ends rest size g

  -- Heads in the first round: the loop takes a line.
  heads-Ends :
      (lines : List (Option ℕ)) (size : ℕ) (g : Gen)
      → g.curr_alloc_count ≤ 2 ^ 20
      → 2 ^ 30 < rand g.used
      → RestEnds lines
      → Ends lines size g
  unfolding round flip take_line
  heads-Ends [] size g le heads ends =
      let h : ltb (1 * 2 ^ 31) (rand g.used * 2) ≡ true = ground (arith, heads) in
      round-Ends [] size g (ended (next g)) (rw h refl) (refl, le)
  heads-Ends (line ∷ rest) size g le heads ends =
      let h : ltb (1 * 2 ^ 31) (rand g.used * 2) ≡ true = ground (arith, heads) in
      elim (Bool-cases (leb (scan line size) 2048)) [
        | inl small ↦
            let (g', out) = event_alloc (scan line size) (next g) in
            let s = event_alloc-IsStep (scan line size) (next g) (ground (arith, small)) le in
            round-Ends (line ∷ rest) size g (going rest (scan line size) g' out)
              (rw (h, small) refl) (s, ends (scan line size) g' s.1)
        | inr large ↦
            round-Ends (line ∷ rest) size g (going rest (scan line size) (next g) [])
              (rw (h, large) refl) ((refl, le), ends (scan line size) (next g) le)
      ]

  -- Tails in the first round: the loop frees.
  tails-Ends :
      (lines : List (Option ℕ)) (size : ℕ) (g : Gen)
      → g.curr_alloc_count ≤ 2 ^ 20
      → ltb (1 * 2 ^ 31) (rand g.used * 2) ≡ false
      → Ends lines size (event_free rand (next g)).0
      → Ends lines size g
  unfolding round flip
  tails-Ends lines size g le tails ends =
      let (g', out) = event_free rand (next g) in
      round-Ends lines size g (going lines size g' out) (rw tails refl)
        (event_free-IsStep rand (2 ^ 20) IsKnownSize (next g) le, ends)

  module _ (flipping : KeepsFlipping rand) where
    -- With nothing in use each round of tails is one number nearer to heads.
    none-Ends :
        (lines : List (Option ℕ)) (size d : ℕ) (g : Gen)
        → g.curr_alloc_count ≡ 0
        → 2 ^ 30 < rand (d + g.used)
        → RestEnds lines
        → Ends lines size g
    unfolding event_free
    none-Ends lines size zero g e heads ends =
        let same : 0 + g.used ≡ g.used = omega arith in
        heads-Ends lines size g (omega (arith, e)) (subst (λ i. 2 ^ 30 < rand i) same heads) ends
    none-Ends lines size (suc d) g e heads ends =
        elim (Bool-cases (ltb (1 * 2 ^ 31) (rand g.used * 2))) [
          | inl h ↦ heads-Ends lines size g (omega (arith, e)) (ground (arith, h)) ends
          | inr t ↦
              let same : d + suc g.used ≡ suc d + g.used = omega arith in
              let z : (g.curr_alloc_count == 0) ≡ true = ground (arith, e) in
              tails-Ends lines size g (omega (arith, e)) t
                (rw z (none-Ends lines size d (next g) e (rw same heads) ends))
        ]

    -- Each round of tails with blocks in use frees one of them.
    count-Ends :
        (lines : List (Option ℕ)) (size c : ℕ) (g : Gen)
        → g.curr_alloc_count ≡ c
        → c ≤ 2 ^ 20
        → RestEnds lines
        → Ends lines size g
    unfolding event_free random_limit
    count-Ends lines size zero g e le ends =
        let (d, heads) = flipping g.used in none-Ends lines size d g e heads ends
    count-Ends lines size (suc c) g e le ends =
        elim (Bool-cases (ltb (1 * 2 ^ 31) (rand g.used * 2))) [
          | inl h ↦ heads-Ends lines size g (omega (arith, e, le)) (ground (arith, h)) ends
          | inr t ↦
              let nz : (g.curr_alloc_count == 0) ≡ false = ground (arith, e) in
              let g' : Gen = record {
                curr_alloc_count = g.curr_alloc_count - 1;
                used = suc (suc g.used);
              } in
              tails-Ends lines size g (omega (arith, e, le)) t
                (rw nz (count-Ends lines size c g' (omega (arith, e)) (omega (arith, le)) ends))
        ]

    parse_sizes-Ends :
        (lines : List (Option ℕ)) (size : ℕ) (g : Gen)
        → g.curr_alloc_count ≤ 2 ^ 20
        → Ends lines size g
    parse_sizes-Ends [] size g le = count-Ends [] size g.curr_alloc_count g refl le tt
    parse_sizes-Ends (line ∷ lines) size g le =
        count-Ends (line ∷ lines) size g.curr_alloc_count g refl le (parse_sizes-Ends lines)

-- If from any number on `rand` gives one above 2^30, then the loop of knownsizes.c ends on every file,
-- with enough fuel. A replay by libsimparse.c of what is printed, from an empty table and with a callback
-- that never returns NULL and may return any location else at each call, gets a location for each `malloc`
-- of the profile, ends with no location in use, and has called `simFree` with each location as often as
-- the callback returned it, and never with NULL.
pub known_sizes-parse_file :
    (rand : ℕ → ℕ) (lines : List (Option ℕ)) (size : ℕ) (h : SimHandle) (r : Replay)
    → KeepsFlipping rand
    → Allocates h
    → r.curr_alloc_count ≡ 0
    → r.got ≡ []
    → r.freed ≡ []
    → (fuel : ℕ) × (events : List Event) × (known_sizes rand fuel lines size ≡ some events)
      × IsFreed h events r
unfolding known_sizes
known_sizes-parse_file rand lines size h r flipping allocates empty none_got none_freed =
    let start : Gen = record { curr_alloc_count = 0; used = 0 } in
    let (fuel, (g, out), done, (p, le)) =
      parse_sizes-Ends rand flipping lines size start (omega arith) in
    let events = out ++ (free_events rand g.curr_alloc_count g).1 in
    (
      fuel,
      events,
      rw done refl,
      profile-parse_file h allocates (2 ^ 20) IsKnownSize events r (omega arith)
          (IsProfile-append (2 ^ 20) IsKnownSize out _ 0 _ 0 p
            (free_events-IsProfile rand (2 ^ 20) IsKnownSize _ g refl))
          empty none_got none_freed,
    )
