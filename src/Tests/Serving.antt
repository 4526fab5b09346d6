-- ===== src/Tests/Serving.antt =====
-- The theorems on the query API, the text for Prometheus and the exit code at sample rows.
use solana_realtime_indexer.Prelude.{
  ℕ, ◌%◌, ◌≡◌, ◌↔◌, refl, ◌=?◌, true, String, List, [], ◌∷◌, ◌++◌, map, pos, none, some, length,
  u64_mod, arith, if◌then◌else◌, ◌==◌, string_eq,
}
use solana_realtime_indexer.Db.Schema.{RepairedTrade, Db}
use solana_realtime_indexer.Db.Result.{served}
use solana_realtime_indexer.Api.{json, recent, by_token, trade_from}
use solana_realtime_indexer.Api.Newest.{IsNewest, IsOfMint, recent-IsNewest}
use solana_realtime_indexer.Metrics.Histogram.{new, bucket_edges_us}
use solana_realtime_indexer.Metrics.Exposition.{histogram, histogram_text}
use solana_realtime_indexer.Metrics.Exposition.Counted.{
  count_le, truncated, observe_all, total, histogram-Counted,
}
use solana_realtime_indexer.Commands.{Environment, Task, Returned, verify, main}
use solana_realtime_indexer.Commands.Exit.{returned_of, IsConnected, IsSameAs, main-verify_iff}
use solana_realtime_indexer.Identity.{EventId}
use solana_realtime_indexer.Verify.Run
use solana_realtime_indexer.Tests.{empty_db, small_trade, event_at}

abbrev sold : ℕ → RepairedTrade
sold slot = record {
  signature = "sig";
  absolute_path = 1 ∷ [];
  event_ordinal = pos 0;
  slot = pos slot;
  block_time = none;
  program = "pumpfun";
  trade = small_trade;
}

abbrev traded : Db ℕ
traded = record empty_db { trades = sold 5 ∷ sold 9 ∷ sold 7 ∷ [] }

abbrev show : ℕ → String
show n = if n == 0 then "0" else "more"

recent-IsNewest_example :
    ((page : List RepairedTrade) × IsNewest (some (pos 2)) page traded.trades
      × (recent show served (some (pos 2)) traded ≡ some (json (map (trade_from show) page))))
    × ((page : List RepairedTrade) × (ts : List RepairedTrade) × IsOfMint "token" ts traded.trades
        × IsNewest (some (pos 2)) page ts
        × (by_token show served "token" (some (pos 2)) traded
            ≡ some (json (map (trade_from show) page))))
recent-IsNewest_example = recent-IsNewest show "token" (some (pos 2)) traded

-- One in the first bucket, one on an edge, one past the last edge.
abbrev durations : List ℕ
durations = 20 ∷ 25_000 ∷ 90_000_000 ∷ []

histogram-Counted_example :
    histogram show show "indexer_flush_seconds" "time to commit one batch"
      (observe_all durations new)
    ≡ histogram_text show show "indexer_flush_seconds" "time to commit one batch"
        (map (λ edge. count_le edge (truncated durations)) bucket_edges_us ++ length durations ∷ [])
        (total durations % u64_mod)
        (length durations)
histogram-Counted_example =
    histogram-Counted show show "indexer_flush_seconds" "time to commit one batch" durations
      (omega arith)

abbrev here : Environment
here = record {
  var = λ name. if name =? "DATABASE_URL" then some "postgres://localhost/indexer" else none;
  connects = λ _. true;
}

abbrev stored_one : Db ℕ
stored_one = record empty_db { events = event_at "a" 10 ∷ [] }

abbrev captured : List EventId
captured = record { signature = "a"; absolute_path = 1 ∷ []; event_ordinal = 0 } ∷ []

abbrev verified : Task → Returned
verified _ = returned_of (Run.run_verify (some captured) served stored_one)

main-verify_iff_example :
    (main here verified (verify "capture.jsonl") ≡ 0)
    ↔ (IsConnected here × IsSameAs captured stored_one)
main-verify_iff_example = main-verify_iff here verified "capture.jsonl" captured stored_one refl
