-- ===== src/Bench/Run.antt =====
-- `run_benchmark` (src/bench.rs), less the rates and the file that it writes.
use solana_realtime_indexer.Prelude.{ℕ, String, Bool, Option, none, some, inl, inr, if◌then◌else◌}
use solana_realtime_indexer.Metrics.{Metrics}
use solana_realtime_indexer.Bench.{
  BenchStats, Refusal, BenchmarkResult, check_arguments, benchmark_result,
}

-- What the pipeline has left once it has returned `Ok`, and the two comparisons of the rates.
pub record Measured : Type 0 where
  pub stats : BenchStats
  pub metrics : Metrics
  pub slow : Bool
  pub late : Bool

pub data Benchmarked : Type 0 where
  refused : Refusal → Benchmarked
  -- `db::connect`, the clock or the pipeline has returned an error
  stopped : Benchmarked
  -- `SOLANA_RPC_URL` is not set
  panicked : Benchmarked
  measured : BenchmarkResult → Benchmarked

-- The pipeline, over a datasource with this salt: none for its error.
abbrev pub run_measured : ℕ → Option Measured → Benchmarked
run_measured expected_events none = stopped
run_measured expected_events (some r) =
    measured (benchmark_result r.slow r.late expected_events r.stats r.metrics)

module _ (pipeline : ℕ → Option Measured) where
  -- From `signature_salt()?` on, once `db::connect` has returned `Ok`.
  abbrev pub run_salted : ℕ → Option ℕ → Option String → Benchmarked
  run_salted expected_events none rpc_url = stopped
  run_salted expected_events (some salt) none = panicked
  run_salted expected_events (some salt) (some url) = run_measured expected_events (pipeline salt)

module _ (connects : String → Bool) (salt : Option ℕ) (rpc_url : Option String)
    (pipeline : ℕ → Option Measured) where
  -- `salt` is `signature_salt()`, and `pipeline` what a run with it comes to.
  unfoldable pub run_benchmark : ℕ → ℕ → ℕ → Option String → Benchmarked
  unfolding check_arguments benchmark_result
  run_benchmark rate repeat expected_events_per_pass database_url =
      elim (check_arguments rate repeat expected_events_per_pass database_url) [
        | inl refusal ↦ refused refusal
        | inr (expected_events, url) ↦
            if connects url then run_salted pipeline expected_events salt rpc_url else stopped
      ]
