-- ===== src/Metrics.antt =====
-- src/metrics.rs: the process-wide counters as one record that the code passes on. A counter is an
-- `AtomicU64`, so it wraps; a duration is a number of microseconds.
pub mod Histogram
pub mod Percentiles
pub mod Exposition
pub mod Reporter
use solana_realtime_indexer.Prelude.{
  ℕ, ◌+◌, ◌-◌, ◌%◌, max, List, [], ◌∷◌, ==_iff, ◌==◌, if◌then◌else◌, u64_mod,
}
use Histogram.{new}

pub record Metrics : Type 0 where
  pub events_decoded : ℕ
  pub skipped_failed : ℕ
  pub pool_cache_hits : ℕ
  pub pool_cache_misses : ℕ
  pub pool_lookups : ℕ
  pub pool_lookup_errors : ℕ
  pub lookups_dropped : ℕ
  pub replay_skipped : ℕ
  pub db_write_errors : ℕ
  pub dead_letters : ℕ
  pub gap_detected : ℕ
  pub head_slot : ℕ
  pub committed_slot : ℕ
  pub trades_written : ℕ
  pub unoriented : ℕ
  pub oriented_normal : ℕ
  pub oriented_inverted : ℕ
  pub decode_time : Histogram.Histogram
  pub flush_time : Histogram.Histogram
  pub receive_to_committed : Histogram.Histogram

abbrev pub zeroed : Metrics
zeroed = record {
  events_decoded = 0;
  skipped_failed = 0;
  pool_cache_hits = 0;
  pool_cache_misses = 0;
  pool_lookups = 0;
  pool_lookup_errors = 0;
  lookups_dropped = 0;
  replay_skipped = 0;
  db_write_errors = 0;
  dead_letters = 0;
  gap_detected = 0;
  head_slot = 0;
  committed_slot = 0;
  trades_written = 0;
  unoriented = 0;
  oriented_normal = 0;
  oriented_inverted = 0;
  decode_time = new;
  flush_time = new;
  receive_to_committed = new;
}

-- `fetch_add(1)` wraps around.
unfoldable pub inc : ℕ → ℕ
inc n = (n + 1) % u64_mod

unfoldable pub set_head_slot : ℕ → Metrics → Metrics
set_head_slot slot m = record m { head_slot = max m.head_slot slot }

unfoldable pub set_committed_slot : ℕ → Metrics → Metrics
set_committed_slot slot m = record m { committed_slot = max m.committed_slot slot }

unfoldable pub commit_lag_slots : Metrics → ℕ
commit_lag_slots m = if m.committed_slot == 0 then 0 else m.head_slot - m.committed_slot
