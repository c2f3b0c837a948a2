-- ===== src/SrParse/Tests.antt =====
-- Runs of the histogram, and the theorems at concrete replays.
use compcache.Common.{ℕ, ◌*◌, ◌≤◌, ◌≡◌, refl, false, [], ◌∷◌, arith}
use compcache.SrParse.{Histo, info, partial, bucket_of, parse_file}
use compcache.SrParse.Histogram.{bucket_of-least}

abbrev start : Histo
start = record { raw = false; histo_clen = λ i. 0; total_reads = 0; total_writes = 0; printed = 0 }

bucket_of-least_example :
    (100 ≤ bucket_of 100 * 16)
    × ((b : ℕ) → 100 ≤ b * 16 → bucket_of 100 ≤ b)
    × (bucket_of 100 ≤ 256)
bucket_of-least_example = bucket_of-least 100 (omega arith)

-- A page that is read and one that is written, and a partial read: the end callback is not called.
replay_cut : (parse_file (info 2 100 ∷ (info 3 5000 ∷ (partial ∷ []))) start).0 ≡ false
unfolding parse_file
replay_cut = refl
