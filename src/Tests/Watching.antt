-- ===== src/Tests/Watching.antt =====
-- The theorems on gaps and metrics at sample slots.
use solana_realtime_indexer.Prelude.{
  ℕ, ◌+◌, ◌*◌, ◌/◌, ◌≡◌, refl, List, [], ◌∷◌, map, ◌⊎◌, arith, true,
}
use solana_realtime_indexer.Metrics.{zeroed}
use solana_realtime_indexer.Metrics.Histogram.{new, bucket_edges_us, summary}
use solana_realtime_indexer.Metrics.Percentiles.{IsRank, summary-IsRank}
use solana_realtime_indexer.Metrics.Exposition.Counted.{truncated, observe_all}
use solana_realtime_indexer.Gaps.{Disconnection, Watch, Sight, Ledger, check_slots, gap_recorder}
use solana_realtime_indexer.Gaps.Watermark.{IsPassed, IsEnclosed, watermark_covers}
use solana_realtime_indexer.Gaps.Recorder.{Recorded, message_range, answered, gap_recorder_records}
use solana_realtime_indexer.Tests.{empty_db}

abbrev watch : Watch
watch = record { watermark = 100; metrics = zeroed; sent = [] }

abbrev sight : ℕ → Sight
sight slot = record { slot = slot; now = 5; taken = true }

-- A small step, a jump and a late slot.
abbrev seen : List Sight
seen = sight 120 ∷ sight 300 ∷ sight 290 ∷ []

watermark_covers_example : IsPassed 200 seen ⊎ IsEnclosed 200 (check_slots true seen watch).sent
watermark_covers_example =
    watermark_covers 200 seen watch
      ((refl, omega arith), ((refl, omega arith), ((refl, omega arith), tt))) (omega arith)
      (omega arith) (omega arith) (omega arith)

abbrev outage : Disconnection
outage = record {
  source = "grpc";
  disconnect_time = 1;
  last_slot_before_disconnect = 120;
  first_slot_after_reconnect = 300;
  missed_slots = 180;
}

-- The same range again, from the watermark.
abbrev echoed : Disconnection
echoed = record outage { source = "watermark" }

abbrev ledger : Ledger ℕ
ledger = record { db = empty_db; metrics = zeroed }

gap_recorder_records_example :
    Recorded ledger
      (map message_range (outage ∷ echoed ∷ []))
      (gap_recorder (map answered (outage ∷ echoed ∷ [])) ledger)
gap_recorder_records_example = gap_recorder_records (outage ∷ echoed ∷ []) ledger tt

-- Three durations up to 500 microseconds, one of 20 milliseconds and one past the last edge.
abbrev observed : List ℕ
observed = 20 ∷ 500 ∷ 3 ∷ 20_000 ∷ 90_000_000 ∷ []

-- Rounded up.
abbrev hundredths : ℕ → ℕ → ℕ
hundredths count percent = (count * percent + 99) / 100

summary-IsRank_example :
    let s = summary hundredths (observe_all observed new) in
    let us = truncated observed in
    (s.count ≡ 5)
    × IsRank 3 us bucket_edges_us s.p50_upper
    × IsRank 5 us bucket_edges_us s.p95_upper
    × IsRank 5 us bucket_edges_us s.p99_upper
summary-IsRank_example = summary-IsRank hundredths observed (omega arith) (omega arith)
