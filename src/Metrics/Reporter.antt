-- ===== src/Metrics/Reporter.antt =====
-- `spawn_reporter` (src/metrics.rs): the numbers of its lines.
use solana_realtime_indexer.Prelude.{ℕ, ◌+◌, ◌-◌, ◌%◌, List, [], ◌∷◌, u64_mod}
use solana_realtime_indexer.Metrics.{Metrics, commit_lag_slots}

-- `get`.
abbrev pub load : ℕ → ℕ
load counter = counter

-- One line; `since_last` is what the rate is a tenth of.
pub record Stats : Type 0 where
  pub decoded : ℕ
  pub since_last : ℕ
  pub cache_hits : ℕ
  pub cache_misses : ℕ
  pub lookups : ℕ
  pub lookup_errors : ℕ
  pub lookups_dropped : ℕ
  pub skipped_failed : ℕ
  pub replay_skipped : ℕ
  pub db_errors : ℕ
  pub dead_letters : ℕ
  pub gaps : ℕ
  pub lag : ℕ
  pub trades : ℕ
  pub unoriented : ℕ

abbrev pub stats_line : ℕ → Metrics → Stats
stats_line last_decoded m = record {
  decoded = load m.events_decoded;
  since_last = (load m.events_decoded + u64_mod - last_decoded) % u64_mod;
  cache_hits = load m.pool_cache_hits;
  cache_misses = load m.pool_cache_misses;
  lookups = load m.pool_lookups;
  lookup_errors = load m.pool_lookup_errors;
  lookups_dropped = load m.lookups_dropped;
  skipped_failed = load m.skipped_failed;
  replay_skipped = load m.replay_skipped;
  db_errors = load m.db_write_errors;
  dead_letters = load m.dead_letters;
  gaps = load m.gap_detected;
  lag = commit_lag_slots m;
  trades = load m.trades_written;
  unoriented = load m.unoriented;
}

-- The loop, over the counters as they are at each tick of the timer.
unfoldable pub reporter : ℕ → List Metrics → List Stats
unfolding commit_lag_slots
reporter last_decoded [] = []
reporter last_decoded (m ∷ ms) = stats_line last_decoded m ∷ reporter (load m.events_decoded) ms
