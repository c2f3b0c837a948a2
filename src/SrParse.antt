-- ===== src/SrParse.antt =====
-- sub-projects/swap_replay/sr_parse: the replay of recorded swap I/O of libsr_parse.c, with the
-- callbacks of sr_data_histo.c, which count the compressed sizes.
pub mod Histogram
mod Tests
use compcache.Common.{
  ℕ, zero, suc, ◌+◌, ◌*◌, ◌/◌, ◌%◌, ◌^◌, Bool, true, false, not, Option, none, some, List, [], ◌∷◌,
  ◌==◌, ltb, leb, if◌then◌else◌, update,
}

abbrev pub page_size : ℕ
page_size = 4096

abbrev pub histo_step : ℕ
histo_step = 16

-- `MAX_CLEN / HISTO_STEP`
abbrev pub histo_max : ℕ
histo_max = 256

-- The counters of sr_data_histo.c, as `unsigned long`s. `printed` counts the lines that raw mode
-- prints.
pub record Histo : Type 0 where
  pub raw : Bool
  pub histo_clen : ℕ → ℕ
  pub total_reads : ℕ
  pub total_writes : ℕ
  pub printed : ℕ

-- What `read` returns: a `struct sr_info` with its `page_rw` and `clen`, part of one, or an error; the
-- end of the file is the end of the list.
pub data Record : Type 0 where
  info : (page_rw clen : ℕ) → Record
  partial : Record
  failed : Record

abbrev pub succ64 : ℕ → ℕ
succ64 n = (n + 1) % 2 ^ 64

unfoldable pub event_read : ℕ → Histo → Histo
event_read index h = record h {
  total_reads = succ64 h.total_reads;
  printed = if h.raw then suc h.printed else h.printed;
}

-- The bucket of a length.
unfoldable pub bucket_of : ℕ → ℕ
bucket_of len =
    let bucket = len / histo_step + (if len % histo_step == 0 then 0 else 1) in
    if ltb histo_max bucket then histo_max else bucket

unfoldable pub event_write : (index len : ℕ) → Histo → Histo
event_write index len h =
    let counted = record h { total_writes = succ64 h.total_writes } in
    if h.raw
    then record counted { printed = suc h.printed }
    else (let bucket = bucket_of len in
        record counted { histo_clen = update h.histo_clen bucket (succ64 (h.histo_clen bucket)) })

-- The record's read or write bit, and its page.
unfoldable pub replay_event : (page_rw clen : ℕ) → Histo → Histo
replay_event page_rw clen h =
    if page_rw % 2 == 0 then event_read (page_rw / 2) h else event_write (page_rw / 2) clen h

-- `parse_file`: the counters, and whether the end callback is called.
unfoldable pub parse_file : List Record → Histo → Bool × Histo
parse_file [] h = (true, h)
parse_file (info page_rw clen ∷ records) h = parse_file records (replay_event page_rw clen h)
parse_file (partial ∷ records) h = (false, h)
parse_file (failed ∷ records) h = (false, h)

-- The loop of `dump_histo` over the `n` buckets from `bucket` on.
unfoldable pub sum_good : ℕ → ℕ → (ℕ → ℕ) → ℕ → ℕ
sum_good zero bucket histo good_compress = good_compress
sum_good (suc n) bucket histo good_compress = sum_good n (suc bucket) histo (
    if leb (bucket * histo_step) (page_size / 2)
    then (good_compress + histo bucket) % 2 ^ 64
    else good_compress)

-- What `dump_histo` prints behind the buckets: the share of pages that compress to half or less, in
-- percent, and the pages in the last bucket. `none` is the division by zero.
unfoldable pub dump_histo : Histo → Option (ℕ × ℕ)
dump_histo h =
    if h.total_writes == 0
    then none
    else some (
      sum_good histo_max 0 h.histo_clen 0 * 100 % 2 ^ 64 / h.total_writes,
      h.histo_clen histo_max,
    )

abbrev pub dumped : Option (ℕ × ℕ) → Option (Option (ℕ × ℕ))
dumped none = none
dumped (some p) = some (some p)

-- The result of the end callback, with what it prints outside raw mode; `none` is a fault.
unfoldable pub event_replay_end : Histo → Option (Option (ℕ × ℕ))
event_replay_end h = if h.raw then some none else dumped (dump_histo h)

-- `struct sr_handle`
pub record SrHandle : Type 0 where
  pub sr_file : List ℕ
  pub has_callbacks : Bool
  pub init_done : Bool

-- `memory` is whether `calloc` gives memory.
unfoldable pub sr_gethandle : Bool → Option SrHandle
sr_gethandle false = none
sr_gethandle true = some (record { sr_file = []; has_callbacks = false; init_done = false })

-- The Boolean is false where the C function returns -1.
unfoldable pub set_sr_file : ℕ → List ℕ → SrHandle → Bool × SrHandle
set_sr_file len fname h = if leb 256 len then (false, h) else (true, record h { sr_file = fname })

-- `given` is whether the three callbacks are not NULL.
unfoldable pub set_sr_callbacks : Bool → Option SrHandle → Bool × Option SrHandle
set_sr_callbacks given none = (false, none)
set_sr_callbacks given (some h) =
    if not given
    then (false, some h)
    else (true, some (record h { has_callbacks = true; init_done = true }))

-- `fd_nonzero` is the test of what `open` returned, and `records` what the reads from it return. The
-- result has what the parse returned, where it ran.
unfoldable pub sr_start :
    Bool → List Record → Option SrHandle → Histo → Bool × Option (Bool × Histo)
sr_start fd_nonzero records none h = (false, none)
sr_start fd_nonzero records (some handle) h =
    if not handle.init_done
    then (false, none)
    else (if fd_nonzero then (true, some (parse_file records h)) else (false, none))
