-- ===== src/GenProfile/Known.antt =====
-- sub-projects/alloc_stress/genprofile/knownsizes.c: a profile with the sizes of a file, mixed with
-- random frees. What the file has in common with randgen.c (`Flip`, `randomLimit`, `EventFree`) is that
-- of GenProfile. A line is what `sscanf` reads of it, if it reads a number.
use compcache.Common.{
  ℕ, zero, suc, ◌+◌, ◌/◌, ◌^◌, Option, none, some, List, [], ◌∷◌, ◌++◌, leb, ◌==◌, if◌then◌else◌,
}
use compcache.SimParse.{Event, malloc}
use compcache.GenProfile.{Gen, flip, event_free, free_events}

abbrev pub max_size : ℕ
max_size = 4096 / 2

unfoldable pub event_alloc : ℕ → Gen → Gen × List Event
event_alloc size g =
    if g.curr_alloc_count == 2 ^ 20
    then (g, [])
    else (record g { curr_alloc_count = g.curr_alloc_count + 1 }, malloc size ∷ [])

-- A round of the loop of `ParseFile`: it ends the loop, or goes on with the lines left and `size`.
pub data Round : Type 0 where
  ended : Gen → Round
  going : (lines : List (Option ℕ)) (size : ℕ) (g : Gen) (out : List Event) → Round

-- `sscanf` leaves `size` as it is if the line has no number.
abbrev pub scan : Option ℕ → ℕ → ℕ
scan none size = size
scan (some n) size = n

unfoldable pub take_line : List (Option ℕ) → ℕ → Gen → Round
take_line [] size g = ended g
take_line (line ∷ lines) size g =
    let size' = scan line size in
    let (g', out) = if leb size' max_size then event_alloc size' g else (g, []) in
    going lines size' g' out

-- `out` is printed before the rest.
abbrev pub printed : List Event → Option (Gen × List Event) → Option (Gen × List Event)
printed out none = none
printed out (some (g, rest)) = some (g, out ++ rest)

module _ (rand : ℕ → ℕ) where
  unfoldable pub round : List (Option ℕ) → ℕ → Gen → Round
  round lines size g =
      let (heads, g') = flip rand 1 2 g in
      if heads
      then take_line lines size g'
      else (let (g'', out) = event_free rand g' in going lines size g'' out)

  -- At most `fuel` rounds; `none` if the loop has not ended by then.
  unfoldable pub parse_sizes : ℕ → List (Option ℕ) → ℕ → Gen → Option (Gen × List Event)
  parse_sizes zero lines size g = none
  parse_sizes (suc fuel) lines size g = elim (round lines size g) [
    | ended g' ↦ some (g', [])
    | going lines' size' g' out ↦ printed out (parse_sizes fuel lines' size' g')
  ]

  -- What follows the loop.
  abbrev free_rest : Option (Gen × List Event) → Option (List Event)
  free_rest none = none
  free_rest (some (g, out)) = some (out ++ (free_events rand g.curr_alloc_count g).1)

  -- What `main` prints for a file that it can open.
  unfoldable pub known_sizes : ℕ → List (Option ℕ) → ℕ → Option (List Event)
  known_sizes fuel lines size =
      free_rest (parse_sizes fuel lines size (record { curr_alloc_count = 0; used = 0 }))
