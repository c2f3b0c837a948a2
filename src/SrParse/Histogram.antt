-- ===== src/SrParse/Histogram.antt =====
-- The histogram of sr_data_histo.c: the bucket of a length, and what a replay counts.
use compcache.Common.{ℕ, suc, ◌+◌, ◌*◌, ◌%◌, ◌^◌, ◌≤◌, ◌≡◌, refl, false, List, [], ◌∷◌, ◌++◌, arith}
use compcache.SrParse.{
  Histo, Record, info, partial, failed, event_read, bucket_of, event_write, replay_event,
  parse_file,
}

-- The bucket of a compressed length of at most a page is the least one whose length, 16 bytes a bucket,
-- is not below it, and it is one of the 257 buckets.
pub bucket_of-least :
    (len : ℕ)
    → len ≤ 4096
    → (len ≤ bucket_of len * 16)
      × ((b : ℕ) → len ≤ b * 16 → bucket_of len ≤ b)
      × (bucket_of len ≤ 256)
unfolding bucket_of
bucket_of-least len small = (ground arith, (λ b h. ground arith), ground arith)

-- How many records of a list are whole.
abbrev pub whole : List Record → ℕ
whole [] = 0
whole (info page_rw clen ∷ records) = suc (whole records)
whole (partial ∷ records) = 0
whole (failed ∷ records) = 0

replay_event-total :
    (rw clen : ℕ) (h : Histo)
    → ((replay_event rw clen h).total_reads + (replay_event rw clen h).total_writes) % 2 ^ 64
      ≡ (h.total_reads + h.total_writes + 1) % 2 ^ 64
unfolding replay_event event_read event_write
replay_event-total rw clen h = ground arith

-- A replay counts each whole record in front of the first failed read once, as a read or a write.
pub parse_file-total :
    (records : List Record) (h : Histo)
    → ((parse_file records h).1.total_reads + (parse_file records h).1.total_writes) % 2 ^ 64
      ≡ (h.total_reads + h.total_writes + whole records) % 2 ^ 64
unfolding parse_file
parse_file-total [] h = omega arith
parse_file-total (info page_rw clen ∷ records) h = omega (
  arith,
  parse_file-total records (replay_event page_rw clen h),
  replay_event-total page_rw clen h,
)
parse_file-total (partial ∷ records) h = omega arith
parse_file-total (failed ∷ records) h = omega arith

-- A replay that meets a partial read does not call the end callback, at whatever record it
-- meets it.
pub parse_file-cut :
    (before after : List Record) (h : Histo)
    → (parse_file (before ++ (partial ∷ after)) h).0 ≡ false
unfolding parse_file
parse_file-cut [] after h = refl
parse_file-cut (info page_rw clen ∷ before) after h =
    parse_file-cut before after (replay_event page_rw clen h)
parse_file-cut (partial ∷ before) after h = refl
parse_file-cut (failed ∷ before) after h = refl
