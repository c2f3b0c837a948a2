-- ===== src/GenProfile/Replayed.antt =====
-- randgen.c with libsimparse.c: the replay of a generated profile.
use compcache.Common.{
  ℕ, zero, suc, ◌+◌, ◌-◌, ◌^◌, ◌<◌, ◌≤◌, ◌≡◌, ◌≢◌, refl, sym, ap, subst, true, false, List, [], ◌∷◌,
  ◌==◌, length, arith, Option, some, none,
}
use compcache.Table.Count.{count}
use compcache.SimParse.{
  SimHandle, Replay, Event, malloc, free, store, malloc_with, event_malloc, event_free, event_step,
  parse_file,
}
use compcache.GenProfile.{generate}
use compcache.GenProfile.Held.{held, held-add, held-remove}
use compcache.GenProfile.Profile.{IsProfile, IsRandomSize, generate-IsProfile}

-- How many events of a profile allocate.
abbrev pub mallocs : List Event → ℕ
mallocs [] = 0
mallocs (malloc size ∷ events) = suc (mallocs events)
mallocs (free index ∷ events) = mallocs events

-- A location is in the list only if it is not NULL.
abbrev pub AllSet : List ℕ → Type 0
AllSet [] = Unit
AllSet (loc ∷ locs) = (loc ≢ 0) × AllSet locs

-- The callback never returns NULL.
abbrev pub NeverNull : Option (ℕ → ℕ → ℕ) → Option (ℕ → ℕ → ℕ → ℕ) → Type 0
NeverNull (some f) g = (n size : ℕ) → f n size ≢ 0
NeverNull none (some g) = (n size back_ref : ℕ) → g n size back_ref ≢ 0
NeverNull none none = ⊥

abbrev pub Allocates : SimHandle → Type 0
Allocates h = NeverNull h.sim_malloc h.sim_malloc_with_back_ref

-- How often a location is in a list.
abbrev pub times : ℕ → List ℕ → ℕ
times x locs = count (λ loc. loc == x) locs

-- The replay of the events leaves nothing in use. It gets a location for each `malloc`, and frees each
-- location as often as it got it, and never NULL.
abbrev pub IsFreed : SimHandle → List Event → Replay → Type 0
IsFreed h events r =
    let end = parse_file h events r in
    (end.curr_alloc_count ≡ 0)
    × (length end.got ≡ mallocs events)
    × ((x : ℕ) → times x end.freed ≡ times x end.got)
    × AllSet end.freed

-- The state of a replay with `c` locations in use, after `n` allocations.
record IsAt (c n : ℕ) (r : Replay) : Type 0 where
  in_use : r.curr_alloc_count ≡ c
  set : (i : ℕ) → i < c → r.loc_table i ≢ 0
  freed : AllSet r.freed
  got : length r.got ≡ n
  balance : (x : ℕ) → times x r.freed + held x r.loc_table c ≡ times x r.got

stored :
    (f : Option (ℕ → ℕ → ℕ)) (g : Option (ℕ → ℕ → ℕ → ℕ)) (size : ℕ) (r : Replay)
    → NeverNull f g
    → (loc : ℕ) × (loc ≢ 0) × (malloc_with f g size r ≡ store loc r)
stored (some f) g size r ne = (f (length r.got) size, ne (length r.got) size, refl)
stored none (some g) size r ne =
    (g (length r.got) size r.curr_alloc_count, ne (length r.got) size r.curr_alloc_count, refl)
stored none none size r ne = absurd ne

module _ (h : SimHandle) (allocates : Allocates h) where
  stored-IsAt :
      (c n size loc : ℕ) (r : Replay)
      → loc ≢ 0
      → malloc_with h.sim_malloc h.sim_malloc_with_back_ref size r ≡ store loc r
      → c < 2 ^ 20
      → IsAt c n r
      → IsAt (c + 1) (suc n) (event_malloc h size r)
  unfolding event_malloc count
  stored-IsAt c n size loc r real e lt v =
      let room : (r.curr_alloc_count == 2 ^ 20) ≡ false = ground (arith, v.in_use) in
      let got : (loc == 0) ≡ false = ground (arith, real) in
      let self : (r.curr_alloc_count == r.curr_alloc_count) ≡ true = ground arith in
      let one : c + 1 ≡ suc c = omega arith in
      rw (room, e, self, got)
        (record {
          in_use = ap (λ k. k + 1) v.in_use;
          set = λ i l e. ground (arith, v.in_use, v.set i, real);
          freed = v.freed;
          got = ap suc v.got;
          balance =
              λ x. rw (v.in_use, one, held-add x r.loc_table loc c) (omega (arith, v.balance x));
        })

  malloc-IsAt :
      (c n size : ℕ) (r : Replay)
      → c < 2 ^ 20
      → IsAt c n r
      → IsAt (c + 1) (suc n) (event_malloc h size r)
  malloc-IsAt c n size r =
      let (loc, real, e) = stored h.sim_malloc h.sim_malloc_with_back_ref size r allocates in
      stored-IsAt c n size loc r real e

  free-IsAt :
      (c n index : ℕ) (r : Replay) → index < c → IsAt c n r → IsAt (c - 1) n (event_free index r)
  unfolding event_free count
  free-IsAt zero n index r lt v = absurd (omega arith)
  free-IsAt (suc c) n index r lt v =
      let busy : (r.curr_alloc_count == 0) ≡ false = ground (arith, v.in_use) in
      let less : suc c - 1 ≡ c = omega arith in
      rw (busy, v.in_use, less)
        (record {
          in_use = refl;
          set = λ i l e. ground (arith, v.set i, v.set c, v.set index);
          freed = (v.set index lt, v.freed);
          got = v.got;
          balance = λ x. omega (arith, v.balance x, held-remove x r.loc_table index c lt);
        })

  replay-IsAt :
      (limit : ℕ) (IsSize : ℕ → Type 0) (events : List Event) (c n d : ℕ) (r : Replay)
      → limit ≤ 2 ^ 20
      → IsProfile limit IsSize c events d
      → IsAt c n r
      → IsAt d (n + mallocs events) (parse_file h events r)
  unfolding parse_file event_step
  replay-IsAt limit IsSize [] c n d r le p v =
      let same : n + 0 ≡ n = omega arith in
      rw same (
        subst (λ e. IsAt e n (record r { ended = r.ended + 1 })) p
          (record {
            in_use = v.in_use;
            set = v.set;
            freed = v.freed;
            got = v.got;
            balance = v.balance;
          }))
  replay-IsAt limit IsSize (malloc size ∷ events) c n d r le (lt, _, p) v =
      let same : n + suc (mallocs events) ≡ suc n + mallocs events = omega arith in
      rw same (
        replay-IsAt limit IsSize events (c + 1) (suc n) d (event_malloc h size r) le p
          (malloc-IsAt c n size r (omega (arith, lt, le)) v))
  replay-IsAt limit IsSize (free index ∷ events) c n d r le (lt, p) v =
      replay-IsAt limit IsSize events (c - 1) n d (event_free index r) le p
        (free-IsAt c n index r lt v)

  -- From an empty table the replay of a profile frees all that it gets.
  pub profile-parse_file :
      (limit : ℕ) (IsSize : ℕ → Type 0) (events : List Event) (r : Replay)
      → limit ≤ 2 ^ 20
      → IsProfile limit IsSize 0 events 0
      → r.curr_alloc_count ≡ 0
      → r.got ≡ []
      → r.freed ≡ []
      → IsFreed h events r
  unfolding held count
  profile-parse_file limit IsSize events r le p empty none_got none_freed =
      let none : length r.got ≡ 0 = ap length none_got in
      let start : IsAt 0 0 r = record {
        in_use = empty;
        set = λ i l. absurd (omega arith);
        freed = subst AllSet (sym none_freed) tt;
        got = none;
        balance = λ x. rw (none_freed, none_got) refl;
      } in
      let v = replay-IsAt limit IsSize events 0 0 0 r le p start in
      (v.in_use, omega (arith, v.got), λ x. omega (arith, v.balance x), v.freed)

-- A replay by libsimparse.c of what randgen.c prints, from an empty table, with numbers of `rand` below
-- 2^31 and with a callback that never returns NULL and may return any location else at each call: it gets
-- a location for each `malloc` of the profile, ends with no location in use, and has called `simFree` with
-- each location as often as the callback returned it, and never with NULL.
pub generate-parse_file :
    (rand : ℕ → ℕ) (n : ℕ) (h : SimHandle) (r : Replay)
    → ((i : ℕ) → rand i < 2 ^ 31)
    → Allocates h
    → r.curr_alloc_count ≡ 0
    → r.got ≡ []
    → r.freed ≡ []
    → IsFreed h (generate rand n) r
generate-parse_file rand n h r small allocates =
    profile-parse_file h allocates (2 ^ 16) IsRandomSize (generate rand n) r (omega arith)
      (generate-IsProfile rand small n)
