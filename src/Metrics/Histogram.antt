-- ===== src/Metrics/Histogram.antt =====
-- `struct Histogram` of src/metrics.rs: ten buckets under nine edges, and the percentile bound
-- that is read off them.
use solana_realtime_indexer.Prelude.{
  ℕ, zero, suc, ◌+◌, ◌-◌, ◌%◌, List, [], ◌∷◌, Option, none, some, leb, ◌==◌, if◌then◌else◌, u64_mod,
  unwrap_or,
}
use mathlib.Core.Option

abbrev pub buckets_count : ℕ
buckets_count = 10

abbrev pub bucket_edges_us : List ℕ
bucket_edges_us =
    500 ∷ 1_000 ∷ 5_000 ∷ 25_000 ∷ 100_000 ∷ 500_000 ∷ 2_000_000 ∷ 10_000_000 ∷ 60_000_000 ∷ []

pub record Histogram : Type 0 where
  pub buckets : List ℕ
  pub sum_us : ℕ

abbrev pub new : Histogram
new = record { buckets = 0 ∷ 0 ∷ 0 ∷ 0 ∷ 0 ∷ 0 ∷ 0 ∷ 0 ∷ 0 ∷ 0 ∷ []; sum_us = 0 }

-- `iter().position(|&edge| us <= edge)`.
unfoldable pub position : ℕ → List ℕ → Option ℕ
position us [] = none
position us (edge ∷ edges) = if leb us edge then some 0 else Option.map suc (position us edges)

-- `buckets[slot].fetch_add(1)`.
unfoldable pub fetch_add : ℕ → List ℕ → List ℕ
fetch_add i [] = []
fetch_add zero (b ∷ bs) = ((b + 1) % u64_mod) ∷ bs
fetch_add (suc i) (b ∷ bs) = b ∷ fetch_add i bs

unfoldable pub observe : ℕ → Histogram → Histogram
unfolding position fetch_add
observe elapsed h =
    let us = elapsed % u64_mod in
    record {
      buckets = fetch_add (unwrap_or (buckets_count - 1) (position us bucket_edges_us)) h.buckets;
      sum_us = (h.sum_us + us) % u64_mod;
    }

-- `iter().sum()` of u64, which wraps around in a release build.
unfoldable pub sum : List ℕ → ℕ
sum [] = 0
sum (b ∷ bs) = (b + sum bs) % u64_mod

-- The loop of `percentile_upper_ms` from `running` on: the edge of the first bucket at which the
-- running count reaches the target, none for the overflow bucket, which has no edge.
unfoldable pub scan : ℕ → ℕ → List ℕ → List ℕ → Option ℕ
scan target running edges [] = none
scan target running [] (b ∷ bs) =
    let running' = (running + b) % u64_mod in
    let rest = scan target running' [] bs in if leb target running' then none else rest
scan target running (edge ∷ edges) (b ∷ bs) =
    let running' = (running + b) % u64_mod in
    let rest = scan target running' edges bs in if leb target running' then some edge else rest

-- `scaled count percent` stands for `(count as f64 * percentile).ceil() as u64`, where the
-- percentile is that many hundredths; the edge is in microseconds, where the source divides it by
-- 1000.
unfoldable pub percentile_upper : (ℕ → ℕ → ℕ) → List ℕ → ℕ → ℕ → Option ℕ
unfolding scan
percentile_upper scaled buckets count percent =
    if count == 0 then none else scan (scaled count percent) 0 bucket_edges_us buckets

-- `mean_ms` is left as the two numbers that the source divides.
pub record HistogramSummary : Type 0 where
  pub count : ℕ
  pub mean : Option (ℕ × ℕ)
  pub p50_upper : Option ℕ
  pub p95_upper : Option ℕ
  pub p99_upper : Option ℕ

unfoldable pub summary : (ℕ → ℕ → ℕ) → Histogram → HistogramSummary
unfolding sum percentile_upper
summary scaled h =
    let count = sum h.buckets in
    record {
      count = count;
      mean = if count == 0 then none else some (h.sum_us, count);
      p50_upper = percentile_upper scaled h.buckets count 50;
      p95_upper = percentile_upper scaled h.buckets count 95;
      p99_upper = percentile_upper scaled h.buckets count 99;
    }
