-- ===== src/SrRelay/Recorded.antt =====
-- sr_relay.c with libsr_parse.c: what is recorded of a sequence of requests, and its replay.
use compcache.Common.{
  ℕ, ◌+◌, ◌*◌, ◌/◌, ◌%◌, ◌^◌, ◌<◌, ◌≡◌, refl, inl, inr, Bool, true, false, not, ◌&&◌, List, [], ◌∷◌,
  map, if◌then◌else◌, arith, Bool-cases,
}
use compcache.Table.Count.{of_bool, count}
use compcache.Vswap.{is_foreign}
use compcache.SrParse.{Histo, Record, info, event_read, event_write, replay_event, parse_file}
use compcache.SrRelay.{Swap, SrInfo, Recorder, hashed, sr_make_request, record_all}

-- The record as libsr_parse.c reads it.
abbrev pub to_record : SrInfo → Record
to_record i = info i.page_rw i.clen

abbrev pub is_swap_write : Swap → Bool
is_swap_write q = not (is_foreign q.bio) && q.bio.is_write

-- The reads of swap requests, where the first write was before or not.
abbrev pub reads : Bool → List Swap → ℕ
reads started [] = 0
reads started (q ∷ requests) =
    if is_foreign q.bio
    then reads started requests
    else (if q.bio.is_write then reads true requests else of_bool started + reads started requests)

-- The channel has room for each record.
abbrev pub HasRoom : List Swap → Type 0
HasRoom [] = Unit
HasRoom (q ∷ requests) = (q.full ≡ false) × HasRoom requests

-- What a replay has counted, and whether it comes to its end.
abbrev IsReplayed : List Swap → Bool → Histo → Bool × Histo → Type 0
IsReplayed requests started h (ended, h') =
    (ended ≡ true)
    × (h'.total_writes % 2 ^ 64 ≡ (h.total_writes + count is_swap_write requests) % 2 ^ 64)
    × (h'.total_reads % 2 ^ 64 ≡ (h.total_reads + reads started requests) % 2 ^ 64)

direction : (sector dir : ℕ) → dir < 2 → (sector / 8 * 2 + dir) % 2 ^ 32 % 2 ≡ dir
direction sector dir small = omega arith

replay-write :
    (page_rw clen : ℕ) (h : Histo)
    → page_rw % 2 ≡ 1
    → let h' = replay_event page_rw clen h in
      (h'.total_writes ≡ (h.total_writes + 1) % 2 ^ 64) × (h'.total_reads ≡ h.total_reads)
unfolding replay_event event_read event_write
replay-write page_rw clen h odd = (ground arith, ground arith)

replay-read :
    (page_rw clen : ℕ) (h : Histo)
    → page_rw % 2 ≡ 0
    → let h' = replay_event page_rw clen h in
      (h'.total_reads ≡ (h.total_reads + 1) % 2 ^ 64) × (h'.total_writes ≡ h.total_writes)
unfolding replay_event event_read event_write
replay-read page_rw clen h even = (ground arith, ground arith)

-- Where the channel has room for every record, a replay by libsr_parse.c of what was recorded of a sequence
-- of requests comes to its end, and counts, modulo 2^64, each write of a swap request, and each read of
-- one behind the first write; no other request is recorded.
pub record_all-IsReplayed :
    (requests : List Swap) (s : Recorder) (h : Histo)
    → HasRoom requests
    → IsReplayed requests s.first_write_done h
        (parse_file (map to_record (record_all requests s)) h)
unfolding record_all sr_make_request parse_file count
record_all-IsReplayed [] s h room = (refl, omega arith, omega arith)
record_all-IsReplayed (q ∷ requests) s h (room, rest) = elim (Bool-cases (is_foreign q.bio)) [
  | inl f ↦ let (a, b, c) = record_all-IsReplayed requests s h rest in rw f (a, omega (arith, b), c)
  | inr own ↦ elim (Bool-cases q.bio.is_write) [
    | inl w ↦
        let page_rw = (q.bio.sector / 8 * 2 + 1) % 2 ^ 32 in
        let clen = q.clen % 2 ^ 32 in
        let s' : Recorder = record {
          first_write_done = true;
          sr_info = record { page_rw = page_rw; clen = clen; hash = hashed q.hash s.sr_info.hash };
        } in
        let (x, y) = replay-write page_rw clen h (direction q.bio.sector 1 (omega arith)) in
        let (a, b, c) = record_all-IsReplayed requests s' (replay_event page_rw clen h) rest in
        rw (own, w, room) (a, omega (arith, b, x), omega (arith, c, y))
    | inr r ↦
        let page_rw = (q.bio.sector / 8 * 2 + 0) % 2 ^ 32 in
        let s' : Bool → Recorder = λ started. record {
          first_write_done = started;
          sr_info = record { page_rw = page_rw; clen = 0; hash = s.sr_info.hash };
        } in
        elim (Bool-cases s.first_write_done) [
          | inl started ↦
              let (x, y) = replay-read page_rw 0 h (direction q.bio.sector 0 (omega arith)) in
              let (a, b, c) =
                record_all-IsReplayed requests (s' true) (replay_event page_rw 0 h) rest in
              simp (own, r, room, started) (a, omega (arith, b, y), omega (arith, c, x))
          | inr early ↦
              let (a, b, c) = record_all-IsReplayed requests (s' false) h rest in
              simp (own, r, early) (a, omega (arith, b), omega (arith, c))
        ]
  ]
]
