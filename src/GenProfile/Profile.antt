-- ===== src/GenProfile/Profile.antt =====
-- randgen.c: what it prints is a profile, in which each `free` has an index in use.
use compcache.Common.{
  ℕ, zero, suc, ◌+◌, ◌-◌, ◌*◌, ◌^◌, ◌≤◌, ◌<◌, ◌≡◌, refl, sym, subst, inl, inr, false, List, [], ◌∷◌,
  ◌++◌, ltb, ◌==◌, arith, Bool-cases,
}
use compcache.SimParse.{Event, malloc, free}
use compcache.GenProfile.{
  Gen, flip, random_limit, random_ranged, event_alloc, event_free, random_event, random_events,
  free_events, generate,
}

-- The events take `c` locations in use to `d`: never more than `limit`, each size as it should be, and each
-- index that of a location in use.
abbrev pub IsProfile : (limit : ℕ) (IsSize : ℕ → Type 0) → ℕ → List Event → ℕ → Type 0
IsProfile limit IsSize c [] d = c ≡ d
IsProfile limit IsSize c (malloc size ∷ events) d =
    (c < limit) × IsSize size × IsProfile limit IsSize (c + 1) events d
IsProfile limit IsSize c (free index ∷ events) d =
    (index < c) × IsProfile limit IsSize (c - 1) events d

pub IsProfile-append :
    (limit : ℕ) (IsSize : ℕ → Type 0) (xs ys : List Event) (c d e : ℕ)
    → IsProfile limit IsSize c xs d
    → IsProfile limit IsSize d ys e
    → IsProfile limit IsSize c (xs ++ ys) e
IsProfile-append limit IsSize [] ys c d e p q = subst (λ x. IsProfile limit IsSize x ys e) (sym p) q
IsProfile-append limit IsSize (malloc size ∷ xs) ys c d e (a, b, p) q =
    (a, b, IsProfile-append limit IsSize xs ys (c + 1) d e p q)
IsProfile-append limit IsSize (free index ∷ xs) ys c d e (a, p) q =
    (a, IsProfile-append limit IsSize xs ys (c - 1) d e p q)

-- The sizes of randgen.c.
abbrev pub IsRandomSize : ℕ → Type 0
IsRandomSize size = (32 ≤ size) × (size < 2048)

-- What a step of a generator prints and leaves.
abbrev pub IsStep : (limit : ℕ) (IsSize : ℕ → Type 0) → Gen → Gen × List Event → Type 0
IsStep limit IsSize g (g', out) =
    IsProfile limit IsSize g.curr_alloc_count out g'.curr_alloc_count
    × (g'.curr_alloc_count ≤ limit)

module _ (rand : ℕ → ℕ) (limit : ℕ) (IsSize : ℕ → Type 0) where
  pub event_free-IsStep :
      (g : Gen) → g.curr_alloc_count ≤ limit → IsStep limit IsSize g (event_free rand g)
  unfolding event_free random_limit
  event_free-IsStep g le = elim (Bool-cases (g.curr_alloc_count == 0)) [
    | inl z ↦ rw z (refl, le)
    | inr n ↦ rw n ((ground arith, refl), omega arith)
  ]

  -- The second loop frees all that is in use.
  pub free_events-IsProfile :
      (n : ℕ) (g : Gen)
      → g.curr_alloc_count ≡ n
      → IsProfile limit IsSize n (free_events rand n g).1 0
  unfolding free_events event_free random_limit
  free_events-IsProfile zero g e = refl
  free_events-IsProfile (suc n) g e =
      let nz : (g.curr_alloc_count == 0) ≡ false = ground arith in
      let less : suc n - 1 ≡ n = omega arith in
      let g' : Gen = record { curr_alloc_count = g.curr_alloc_count - 1; used = suc g.used } in
      let left : g'.curr_alloc_count ≡ n = omega (arith, e) in
      rw nz (
        ground arith,
        subst (λ m. IsProfile limit IsSize m (free_events rand n g').1 0) (sym less)
            (free_events-IsProfile n g' left),
      )

module _ (rand : ℕ → ℕ) (small : (i : ℕ) → rand i < 2 ^ 31) where
  event_alloc-IsStep :
      (g : Gen) → g.curr_alloc_count ≤ 2 ^ 16 → IsStep (2 ^ 16) IsRandomSize g (event_alloc rand g)
  unfolding event_alloc random_ranged flip
  event_alloc-IsStep g le = elim (Bool-cases (g.curr_alloc_count == 2 ^ 16)) [
    | inl full ↦ rw full (refl, le)
    | inr room ↦
        let lt : g.curr_alloc_count < 2 ^ 16 = ground arith in
        let r = small (suc g.used) in
        elim (Bool-cases (ltb (8 * 2 ^ 31) (rand g.used * 10))) [
          | inl h ↦ rw (room, h) ((lt, (omega arith, omega (arith, r)), refl), omega (arith, lt))
          | inr t ↦ rw (room, t) ((lt, (omega arith, omega (arith, r)), refl), omega (arith, lt))
        ]
  ]

  random_event-IsStep :
      (g : Gen) → g.curr_alloc_count ≤ 2 ^ 16 → IsStep (2 ^ 16) IsRandomSize g (random_event rand g)
  unfolding random_event flip
  random_event-IsStep g le = elim (Bool-cases (ltb (1 * 2 ^ 31) (rand g.used * 2))) [
    | inl h ↦ rw h (event_alloc-IsStep _ le)
    | inr t ↦ rw t (event_free-IsStep rand (2 ^ 16) IsRandomSize _ le)
  ]

  random_events-IsStep :
      (n : ℕ) (g : Gen)
      → g.curr_alloc_count ≤ 2 ^ 16
      → IsStep (2 ^ 16) IsRandomSize g (random_events rand n g)
  unfolding random_events
  random_events-IsStep zero g le = (refl, le)
  random_events-IsStep (suc n) g le =
      let (p, le') = random_event-IsStep g le in
      let (q, le'') = random_events-IsStep n (random_event rand g).0 le' in
      (IsProfile-append (2 ^ 16) IsRandomSize (random_event rand g).1 _ _ _ _ p q, le'')

  -- Whatever `rand` returns up to RAND_MAX, the generated profile begins and ends with nothing in use, has
  -- at most 2^16 locations in use, sizes from 32 to 2047, and frees only an index in use.
  pub generate-IsProfile : (n : ℕ) → IsProfile (2 ^ 16) IsRandomSize 0 (generate rand n) 0
  unfolding generate
  generate-IsProfile n =
      let start : Gen = record { curr_alloc_count = 0; used = 0 } in
      let (p, le) = random_events-IsStep n start (omega arith) in
      IsProfile-append (2 ^ 16) IsRandomSize (random_events rand n start).1 _ _ _ _ p
        (free_events-IsProfile rand (2 ^ 16) IsRandomSize _ (random_events rand n start).0 refl)
