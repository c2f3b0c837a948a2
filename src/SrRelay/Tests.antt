-- ===== src/SrRelay/Tests.antt =====
-- The theorems on sr_relay.c at concrete requests and answers of the kernel.
use compcache.Common.{
  ℕ, ◌+◌, ◌*◌, ◌%◌, ◌^◌, ◌≡◌, refl, Bool, true, false, some, [], ◌∷◌, map, arith,
}
use compcache.Table.Count.{count}
use compcache.Vswap.{is_foreign}
use compcache.SrParse.{Histo, parse_file}
use compcache.SrRelay.{
  Swap, Recorder, sr_make_request, record_all, done, einval, Sr, sr_relay_init, sr_relay_exit,
}
use compcache.SrRelay.Recorded.{to_record, is_swap_write, reads, record_all-IsReplayed}
use compcache.SrRelay.Load.{granted, no_param, IsRestored, sr_relay_exit-left}

-- A request for the page `page`, which compresses to 700 bytes.
abbrev swap : (page : ℕ) (is_write : Bool) → Swap
swap page is_write = record {
  bio = record { sector = page * 8; vcnt = 1; size = 4096; offset = 0; is_write = is_write };
  clen = 700;
  hash = some 5;
  full = false;
}

abbrev fresh : Recorder
fresh = record { first_write_done = false; sr_info = record { page_rw = 0; clen = 0; hash = 0 } }

abbrev start : Histo
start = record { raw = false; histo_clen = λ i. 0; total_reads = 0; total_writes = 0; printed = 0 }

-- The read in front of the first write is not recorded.
recorded :
    map to_record (record_all (swap 3 false ∷ (swap 3 true ∷ (swap 3 false ∷ []))) fresh)
    ≡ map to_record (
        record { page_rw = 7; clen = 700; hash = 5 }
        ∷ (record { page_rw = 6; clen = 0; hash = 5 } ∷ []))
unfolding record_all sr_make_request is_foreign
recorded = refl

record_all-IsReplayed_example :
    let requests = swap 3 false ∷ (swap 3 true ∷ (swap 3 false ∷ [])) in
    let p = parse_file (map to_record (record_all requests fresh)) start in
    (p.0 ≡ true)
    × (p.1.total_writes % 2 ^ 64 ≡ (0 + count is_swap_write requests) % 2 ^ 64)
    × (p.1.total_reads % 2 ^ 64 ≡ (0 + reads false requests) % 2 ^ 64)
record_all-IsReplayed_example =
    record_all-IsReplayed (swap 3 false ∷ (swap 3 true ∷ (swap 3 false ∷ []))) fresh start
      (refl, (refl, (refl, tt)))

abbrev unloaded : Sr
unloaded = record {
  cdata = false;
  cworkmem = false;
  b_dev = 0;
  old_block_size = 0;
  disk_size = 0;
  block_size = λ bdev. 1024;
  claims = λ bdev. 0;
  over_released = 0;
  disk = false;
  registered = false;
  queue = false;
  added = false;
  relay = false;
  tfm = false;
}

sr_relay_exit-left_example :
    ((s' s'' : Sr) × (sr_relay_init (granted 5 8192) unloaded ≡ some (done, s'))
      × (sr_relay_exit s' ≡ some s'')
      × IsRestored unloaded s''
      × ((s''.cdata ≡ false)
          × (s''.cworkmem ≡ false)
          × (s''.registered ≡ false)
          × (s''.relay ≡ false)
          × (s''.tfm ≡ false))
      × (s''.disk ≡ true)
      × (s''.queue ≡ true))
    × ((s' : Sr) × (sr_relay_init no_param unloaded ≡ some (einval, s'))
        × (s'.cdata ≡ true)
        × (s'.cworkmem ≡ true))
sr_relay_exit-left_example = sr_relay_exit-left 5 8192 unloaded (omega arith) refl
