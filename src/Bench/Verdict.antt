-- ===== src/Bench/Verdict.antt =====
-- What the verdict of a benchmark means (src/bench.rs).
use solana_realtime_indexer.Prelude.{
  ℕ, ◌≤◌, ◌<◌, ◌*◌, String, Bool, true, false, Option, none, some, ◌≡◌, ◌≢◌, ◌↔◌, arith, u64_mod,
  refl, sym, subst, ap, ◌∙◌, inl, inr, if◌then◌else◌,
}
use mathlib.Core.Option
use solana_realtime_indexer.Metrics.{Metrics}
use solana_realtime_indexer.Metrics.Histogram.{sum}
use solana_realtime_indexer.Bench.{BenchStats, benchmark_result, check_arguments}
use solana_realtime_indexer.Bench.Run.{
  Measured, Benchmarked, refused, stopped, panicked, measured, run_measured, run_salted,
  run_benchmark,
}

-- Nothing was skipped, looked up, dropped or refused.
pub record IsQuiet (m : Metrics) : Type 0 where
  pub skipped : m.replay_skipped ≡ 0
  pub misses : m.pool_cache_misses ≡ 0
  pub lookups : m.pool_lookups ≡ 0
  pub lookup_errors : m.pool_lookup_errors ≡ 0
  pub dropped : m.lookups_dropped ≡ 0
  pub write_errors : m.db_write_errors ≡ 0
  pub dead : m.dead_letters ≡ 0

-- A benchmark is not falling behind exactly if its source was fast enough and on time, the events
-- decoded are as many as expected, at least as many rows have been committed, and nothing was
-- skipped, looked up, dropped or refused.
pub falling_behind_iff :
    (slow late : Bool) (expected : ℕ) (stats : BenchStats) (m : Metrics)
    → ((benchmark_result slow late expected stats m).falling_behind ≡ false) ↔ (
        (slow ≡ false)
        × (late ≡ false)
        × (m.events_decoded ≡ expected)
        × (m.events_decoded ≤ sum m.receive_to_committed.buckets)
        × IsQuiet m)
unfolding benchmark_result
falling_behind_iff slow late expected stats m = ground arith

-- What the run has measured speaks for it: fast enough and on time, with as many events as
-- expected, all of them committed.
abbrev pub HasKeptUp : ℕ → Measured → Type 0
HasKeptUp expected r =
    (r.slow ≡ false)
    × (r.late ≡ false)
    × (r.metrics.events_decoded ≡ expected)
    × (r.metrics.events_decoded ≤ sum r.metrics.receive_to_committed.buckets)
    × IsQuiet r.metrics

-- There is a result, and it is not falling behind.
abbrev pub IsUpToSpeed : Benchmarked → Type 0
IsUpToSpeed (refused _) = ⊥
IsUpToSpeed stopped = ⊥
IsUpToSpeed panicked = ⊥
IsUpToSpeed (measured r) = r.falling_behind ≡ false

run_measured_iff :
    (expected : ℕ) (o : Option Measured)
    → IsUpToSpeed (run_measured expected o) ↔ ((r : Measured) × (o ≡ some r) × HasKeptUp expected r)
run_measured_iff expected none = ground arith
run_measured_iff expected (some r) =
    let known = falling_behind_iff r.slow r.late expected r.stats r.metrics in
    (
      (λ h. (r, refl, known.0 h)),
      (λ (r', same, kept).
          known.1 (subst (HasKeptUp expected) (sym (Option.some-injective _ _ same)) kept)),
    )

module _ (pipeline : ℕ → Option Measured) where
  -- The clock and the node's address are there, and the pipeline keeps up.
  abbrev pub Keeps : ℕ → Option ℕ → Option String → Type 0
  Keeps expected salt rpc_url =
      (s : ℕ) × (url : String) × (r : Measured) × (salt ≡ some s)
      × (rpc_url ≡ some url)
      × (pipeline s ≡ some r)
      × HasKeptUp expected r

  run_salted_iff :
      (expected : ℕ) (salt : Option ℕ) (rpc_url : Option String)
      → IsUpToSpeed (run_salted pipeline expected salt rpc_url) ↔ Keeps expected salt rpc_url
  run_salted_iff expected none rpc_url = ground arith
  run_salted_iff expected (some s) none = ground arith
  run_salted_iff expected (some s) (some url) =
      let known = run_measured_iff expected (pipeline s) in
      (
        (λ h. let (r, ran, kept) = known.0 h in (s, url, r, refl, refl, ran, kept)),
        (λ (s', url', r, same, _, ran, kept).
            known.1 (r, ap pipeline (Option.some-injective _ _ same) ∙ ran, kept)),
      )

check_url_iff :
    (connects : String → Bool) (f : ℕ → Benchmarked) (rate repeat per_pass : ℕ) (url : String)
    → IsUpToSpeed (elim (check_arguments rate repeat per_pass (some url)) [
      | inl refusal ↦ refused refusal
      | inr (expected_events, url) ↦ if connects url then f expected_events else stopped
    ])
      ↔ ((rate ≢ 0)
          × (repeat ≢ 0)
          × (per_pass * repeat < u64_mod)
          × (connects url ≡ true)
          × IsUpToSpeed (f (per_pass * repeat)))
unfolding check_arguments
check_url_iff connects f rate repeat per_pass url = ground arith

-- What follows the checks is run exactly if they are passed.
check_arguments_iff :
    (connects : String → Bool) (f : ℕ → Benchmarked) (rate repeat per_pass : ℕ)
    (database_url : Option String)
    → IsUpToSpeed (elim (check_arguments rate repeat per_pass database_url) [
      | inl refusal ↦ refused refusal
      | inr (expected_events, url) ↦ if connects url then f expected_events else stopped
    ])
      ↔ ((rate ≢ 0)
          × (repeat ≢ 0)
          × (per_pass * repeat < u64_mod)
          × ((url : String) × (database_url ≡ some url) × (connects url ≡ true))
          × IsUpToSpeed (f (per_pass * repeat)))
unfolding check_arguments
check_arguments_iff connects f rate repeat per_pass none = ground arith
check_arguments_iff connects f rate repeat per_pass (some url) =
    let passed = check_url_iff connects f rate repeat per_pass url in
    (
      (λ h. let (r, p, n, up, fast) = passed.0 h in (r, p, n, (url, refl, up), fast)),
      (λ (r, p, n, (url', same, up), fast).
          passed.1 (r, p, n, ap connects (Option.some-injective _ _ same) ∙ up, fast)),
    )

module _ (connects : String → Bool) (salt : Option ℕ) (rpc_url : Option String)
    (pipeline : ℕ → Option Measured) where
  -- A benchmark has a result that is not falling behind exactly if the rate and the number of
  -- passes are not zero, the events expected in all fit 64 bits, the database is named and can be
  -- reached, the clock and the address of the node are there, and the pipeline returns with what
  -- was asked for: a source that was fast enough and on time, as many events decoded as expected,
  -- at least as many rows committed, and nothing skipped, looked up, dropped or refused.
  pub run_benchmark_iff :
      (rate repeat per_pass : ℕ) (database_url : Option String)
      → IsUpToSpeed (run_benchmark connects salt rpc_url pipeline rate repeat per_pass database_url)
        ↔ ((rate ≢ 0)
            × (repeat ≢ 0)
            × (per_pass * repeat < u64_mod)
            × ((url : String) × (database_url ≡ some url) × (connects url ≡ true))
            × Keeps pipeline (per_pass * repeat) salt rpc_url)
  unfolding run_benchmark
  run_benchmark_iff rate repeat per_pass database_url =
      let known = run_salted_iff pipeline (per_pass * repeat) salt rpc_url in
      let arguments =
        check_arguments_iff connects (λ n. run_salted pipeline n salt rpc_url) rate repeat per_pass
          database_url in
      (
        (λ h. let (r, p, n, u, kept) = arguments.0 h in (r, p, n, u, known.0 kept)),
        (λ (r, p, n, u, kept). arguments.1 (r, p, n, u, known.1 kept)),
      )
