-- ===== src/Bench.antt =====
-- src/bench.rs: the paced replay, its statistics and the verdict on a run. A duration is a number of
-- microseconds.
pub mod Salted
pub mod Paced
pub mod Run
pub mod Verdict
use solana_realtime_indexer.Prelude.{
  ℕ, zero, suc, ◌+◌, ◌-◌, ◌*◌, ◌/◌, ◌%◌, ◌<◌, max, List, [], ◌∷◌, ◌++◌, Bool, true, false, ◌||◌,
  not, Option, none, some, ltb, leb, ◌==◌, u64_mod, length, unwrap_or, if◌then◌else◌, String, ◌⊎◌,
  inl, inr,
}
use Prim.Native.Nat.{bit_xor}
use solana_realtime_indexer.Metrics.{Metrics}
use solana_realtime_indexer.Metrics.Histogram.{sum}

pub record BenchStats : Type 0 where
  pub sent : ℕ
  pub elapsed_us : ℕ
  pub max_schedule_lag_us : ℕ
  pub max_channel_send_wait_us : ℕ

-- `u64::try_from(..).unwrap_or(u64::MAX)`.
unfoldable pub duration_us : ℕ → ℕ
duration_us us = if ltb us u64_mod then us else u64_mod - 1

unfoldable pub finish : ℕ → ℕ → BenchStats → BenchStats
unfolding duration_us
finish sent elapsed s = record s { sent = sent; elapsed_us = duration_us elapsed }

unfoldable pub record_schedule_lag : ℕ → BenchStats → BenchStats
unfolding duration_us
record_schedule_lag elapsed s = record s {
  max_schedule_lag_us = max s.max_schedule_lag_us (duration_us elapsed);
}

unfoldable pub record_channel_send_wait : ℕ → BenchStats → BenchStats
unfolding duration_us
record_channel_send_wait elapsed s = record s {
  max_channel_send_wait_us = max s.max_channel_send_wait_us (duration_us elapsed);
}

-- `to_le_bytes` of a number of that many bytes.
unfoldable pub to_le_bytes : ℕ → ℕ → List ℕ
to_le_bytes zero n = []
to_le_bytes (suc k) n = (n % 256) ∷ to_le_bytes k (n / 256)

-- The loop over `zip`, which ends with the mask.
unfoldable pub xor_bytes : List ℕ → List ℕ → List ℕ
xor_bytes [] mask = []
xor_bytes (b ∷ bs) [] = b ∷ bs
xor_bytes (b ∷ bs) (m ∷ ms) = bit_xor b m ∷ xor_bytes bs ms

-- `Signature`: its bytes, and the conversion from bytes.
pub record SignatureType (S : Type 0) : Type 0 where
  pub as_ref : S → List ℕ
  pub try_from : List ℕ → Option S

-- `Update`, where only a transaction is told apart, by its signature and the rest of it.
pub data Update (S R : Type 0) : Type 0 where
  transaction : S → R → Update S R
  other : R → Update S R

module _ {S : Type 0} (sig : SignatureType S) where
  unfoldable pub masked_bytes : ℕ → ℕ → S → List ℕ
  unfolding to_le_bytes xor_bytes
  masked_bytes salt index signature =
      xor_bytes (sig.as_ref signature) (to_le_bytes 8 ((salt + index) % u64_mod))

  -- The signature of the bytes, or the old one if they are none.
  unfoldable pub salted : ℕ → ℕ → S → S
  unfolding masked_bytes
  salted salt index signature =
      unwrap_or signature (sig.try_from (masked_bytes salt index signature))

  unfoldable pub make_signature_unique : {R : Type 0} → ℕ → ℕ → Update S R → Update S R
  unfolding salted
  make_signature_unique salt index (transaction signature rest) =
      transaction (salted salt index signature) rest
  make_signature_unique salt index (other rest) = other rest

-- One update at the forwarder: what the clock says and whether the receiver takes it.
pub record Turn (S R : Type 0) : Type 0 where
  pub update : Update S R
  pub cancelled : Bool
  pub taken : Bool
  pub waited : ℕ
  pub lag : ℕ

-- The forwarder's locals: the statistics, how many have been sent, and which.
pub record Forward (S R : Type 0) : Type 0 where
  pub stats : BenchStats
  pub sent : ℕ
  pub updates : List (Update S R)

module _ {S R : Type 0} (sig : SignatureType S) (salt : ℕ) where
  -- The `while let` of the forwarder, over the updates that it receives.
  unfoldable pub forward : List (Turn S R) → Forward S R → Forward S R
  unfolding make_signature_unique record_channel_send_wait record_schedule_lag
  forward [] f = f
  forward (t ∷ ts) f =
      if t.cancelled
      then f
      else if t.taken
      then forward ts (record {
        stats = record_schedule_lag t.lag (record_channel_send_wait t.waited f.stats);
        sent = (f.sent + 1) % u64_mod;
        updates = f.updates ++ make_signature_unique sig salt f.sent t.update ∷ [];
      })
      else f

-- The errors with which `run_benchmark` refuses to start.
pub data Refusal : Type 0 where
  rate_zero repeat_zero count_overflow no_database_url : Refusal

-- The checks before anything is started: the number of events expected in all, and the database.
unfoldable pub check_arguments : ℕ → ℕ → ℕ → Option String → Refusal ⊎ (ℕ × String)
check_arguments rate repeat expected_events_per_pass database_url =
    if rate == 0
    then inl rate_zero
    else if repeat == 0
    then inl repeat_zero
    else if ltb (expected_events_per_pass * repeat) u64_mod
    then elim database_url [
      | none ↦ inl no_database_url
      | some url ↦ inr (expected_events_per_pass * repeat, url)
    ]
    else inl count_overflow

-- The fields of `BenchmarkResult` that are counted, and the verdict.
pub record BenchmarkResult : Type 0 where
  pub input_transactions : ℕ
  pub expected_events : ℕ
  pub decoded_events : ℕ
  pub missing_events : ℕ
  pub unexpected_events : ℕ
  pub uncommitted_rows : ℕ
  pub falling_behind : Bool

-- `slow` stands for `source_achieved_tps < rate as f64 * 0.95`, `late` for
-- `max_schedule_lag_ms > 1_000.0`.
unfoldable pub benchmark_result : Bool → Bool → ℕ → BenchStats → Metrics → BenchmarkResult
unfolding sum
benchmark_result slow late expected_events stats m =
    let decoded_events = m.events_decoded in
    let missing_events = expected_events - decoded_events in
    let unexpected_events = decoded_events - expected_events in
    let uncommitted_rows = decoded_events - sum m.receive_to_committed.buckets in
    record {
      input_transactions = stats.sent;
      expected_events = expected_events;
      decoded_events = decoded_events;
      missing_events = missing_events;
      unexpected_events = unexpected_events;
      uncommitted_rows = uncommitted_rows;
      falling_behind =
          slow
          || late
          || ltb 0 missing_events
          || ltb 0 unexpected_events
          || ltb 0 uncommitted_rows
          || ltb 0 m.replay_skipped
          || ltb 0 m.pool_cache_misses
          || ltb 0 m.pool_lookups
          || ltb 0 m.pool_lookup_errors
          || ltb 0 m.lookups_dropped
          || ltb 0 m.db_write_errors
          || ltb 0 m.dead_letters;
    }

-- `signature_salt` of the clock's nanoseconds and the process id.
unfoldable pub signature_salt : ℕ → ℕ → ℕ
signature_salt nanos process_id =
    bit_xor (bit_xor (nanos % u64_mod) ((nanos / u64_mod) % u64_mod)) process_id
