-- ===== src/Tests/Healing.antt =====
-- The theorem on missed slots and their recovery, at a jump of the slot number.
use solana_realtime_indexer.Prelude.{ℕ, ◌⊎◌, ◌∷◌, [], List, map, true, refl, arith}
use solana_realtime_indexer.Metrics.{zeroed}
use solana_realtime_indexer.Db.Result.{served}
use solana_realtime_indexer.Gaps.{Watch, Sight, Ledger, check_slots, gap_recorder}
use solana_realtime_indexer.Gaps.Watermark.{IsPassed}
use solana_realtime_indexer.Gaps.Recorder.{answered}
use solana_realtime_indexer.Recover.Healing.{Heals, watermark-Heals}
use solana_realtime_indexer.Tests.{empty_db, brings, Brought, brings-IsFetcher}

abbrev running : Watch
running = record { watermark = 100; metrics = zeroed; sent = [] }

abbrev noticed : ℕ → Sight
noticed slot = record { slot = slot; now = 5; taken = true }

-- A small step, a jump and a late slot.
abbrev jumping : List Sight
jumping = noticed 120 ∷ noticed 300 ∷ noticed 290 ∷ []

abbrev before : Ledger ℕ
before = record { db = empty_db; metrics = zeroed }

watermark-Heals_example :
    IsPassed 200 jumping
    ⊎ Heals
        (λ _ _. served)
        brings
        9
        Brought
        brings-IsFetcher
        served
        200
        before.db.stream_gaps
        (gap_recorder (map answered (check_slots true jumping running).sent) before)
watermark-Heals_example =
    watermark-Heals (λ _ _. served) brings 9 Brought brings-IsFetcher served 200 jumping running
      before refl tt ((refl, omega arith), ((refl, omega arith), ((refl, omega arith), tt)))
      (omega arith) (omega arith) (omega arith) (omega arith)
