-- ===== src/Metrics/Percentiles.antt =====
-- The percentile bounds that `summary` reads off a histogram (src/metrics.rs).
use solana_realtime_indexer.Prelude.{
  ℕ, ◌+◌, ◌%◌, ◌≤◌, ◌<◌, List, [], ◌∷◌, ◌++◌, map, Option, none, some, refl, ◌≡◌, sym, ap, ◌∙◌,
  subst, arith, All, All-map, In, inl, inr, leb, if◌then◌else◌, length, u64_mod, Bool-cases, ◌==◌,
  false,
}
use solana_realtime_indexer.Metrics.Histogram.{
  new, sum, scan, percentile_upper, bucket_edges_us, summary,
}
use solana_realtime_indexer.Metrics.Exposition.{running_counts}
use solana_realtime_indexer.Metrics.Exposition.Counted.{
  count_le, above, tally, truncated, observe_all, length-above, length-map, buckets-observe_all,
  running_counts-observe_all,
}

-- The bound is the first edge that this many durations do not pass; without one, fewer stay within
-- every edge.
abbrev pub IsRank : ℕ → List ℕ → List ℕ → Option ℕ → Type 0
IsRank target us edges none = All (λ f. count_le f us < target) edges
IsRank target us edges (some e) =
    In e edges × (target ≤ count_le e us) × All (λ f. f < e → count_le f us < target) edges

abbrev Ascending : List ℕ → Type 0
Ascending [] = Unit
Ascending (e ∷ es) = All (λ x. e ≤ x) es × Ascending es

-- The first edge whose running count reaches the target.
abbrev first : ℕ → List ℕ → List ℕ → Option ℕ
first target edges [] = none
first target [] (c ∷ cs) = none
first target (e ∷ es) (c ∷ cs) = if leb target c then some e else first target es cs

scan-overflow : (target running : ℕ) (buckets : List ℕ) → scan target running [] buckets ≡ none
unfolding scan
scan-overflow t r [] = refl
scan-overflow t r (b ∷ bs) = ground (arith, scan-overflow t ((r + b) % u64_mod) bs)

scan-first :
    (target running : ℕ) (edges buckets : List ℕ)
    → scan target running edges buckets ≡ first target edges (running_counts running buckets)
unfolding scan running_counts
scan-first t r edges [] = refl
scan-first t r [] (b ∷ bs) = scan-overflow t r (b ∷ bs)
scan-first t r (e ∷ es) (b ∷ bs) =
    ap (λ o. if leb t ((r + b) % u64_mod) then some e else o)
      (scan-first t ((r + b) % u64_mod) es bs)

weaken-IsRank :
    (t : ℕ) (us : List ℕ) (e : ℕ) (es : List ℕ) (o : Option ℕ)
    → count_le e us < t
    → IsRank t us es o
    → IsRank t us (e ∷ es) o
weaken-IsRank t us e es none low h = (low, h)
weaken-IsRank t us e es (some f) low (m, reached, before) = (inr m, reached, ((λ _. low), before))

first-IsRank :
    (t : ℕ) (us es rest : List ℕ)
    → Ascending es
    → IsRank t us es (first t es (map (λ edge. count_le edge us) es ++ rest))
first-IsRank t us [] [] asc = tt
first-IsRank t us [] (c ∷ cs) asc = tt
first-IsRank t us (e ∷ es) rest (low, asc) = elim (Bool-cases (leb t (count_le e us))) [
  | inl reached ↦ rw reached (
    inl refl,
    ground arith,
    ((λ h. absurd (omega arith)), All-map (λ x. e ≤ x) _ es (λ f le h. absurd (omega arith)) low),
  )
  | inr early ↦ rw early (weaken-IsRank t us e es _ (ground arith) (first-IsRank t us es rest asc))
]

edges-Ascending : Ascending bucket_edges_us
edges-Ascending = ground arith

sum-tally : (es us : List ℕ) → length us < u64_mod → sum (tally es us) ≡ length us
unfolding sum
sum-tally [] us small = omega arith
sum-tally (e ∷ es) us small =
    let counted = length-above e us in
    omega (arith, counted, sum-tally es (above e us) (omega (arith, counted)))

sum-observe_all :
    (durations : List ℕ)
    → length durations < u64_mod
    → sum (observe_all durations new).buckets ≡ length durations
sum-observe_all durations small =
    let all = length-map durations in
    ap sum (buckets-observe_all durations small)
    ∙ sum-tally bucket_edges_us (truncated durations) (omega arith)
    ∙ all

scan-IsRank :
    (target : ℕ) (durations : List ℕ)
    → length durations < u64_mod
    → IsRank target
        (truncated durations)
        bucket_edges_us
        (scan target 0 bucket_edges_us (observe_all durations new).buckets)
scan-IsRank t durations small =
    subst (IsRank t (truncated durations) bucket_edges_us)
      (sym (
        scan-first t 0 bucket_edges_us (observe_all durations new).buckets
        ∙ ap (first t bucket_edges_us) (running_counts-observe_all durations small)))
      (first-IsRank t (truncated durations) bucket_edges_us (length durations ∷ []) edges-Ascending)

not_zero : (n : ℕ) → 0 < n → (n == 0) ≡ false
not_zero n h = ground arith

percentile_upper-IsRank :
    (scaled : ℕ → ℕ → ℕ) (percent : ℕ) (durations : List ℕ)
    → 0 < length durations
    → length durations < u64_mod
    → IsRank
        (scaled (length durations) percent)
        (truncated durations)
        bucket_edges_us
        (percentile_upper scaled (observe_all durations new).buckets (length durations) percent)
unfolding percentile_upper
percentile_upper-IsRank scaled percent durations some_ small =
    rw (not_zero (length durations) some_)
      (scan-IsRank (scaled (length durations) percent) durations small)

-- The summary of a histogram that has observed `durations`, one at least and fewer than 2 ^ 64, counts
-- them, and each of its three bounds is the first edge that as many of the durations stay within
-- (each as the u64 that the code makes of it) as the percentile asks for, or none if fewer stay
-- within every edge. How many it asks for is the code's rounded product of the count and 50, 95 or
-- 99 hundredths.
pub summary-IsRank :
    (scaled : ℕ → ℕ → ℕ) (durations : List ℕ)
    → 0 < length durations
    → length durations < u64_mod
    → let s = summary scaled (observe_all durations new) in
      let n = length durations in
      let us = truncated durations in
      (s.count ≡ n)
      × IsRank (scaled n 50) us bucket_edges_us s.p50_upper
      × IsRank (scaled n 95) us bucket_edges_us s.p95_upper
      × IsRank (scaled n 99) us bucket_edges_us s.p99_upper
unfolding summary
summary-IsRank scaled durations some_ small = rw (sum-observe_all durations small) (
  refl,
  percentile_upper-IsRank scaled 50 durations some_ small,
  percentile_upper-IsRank scaled 95 durations some_ small,
  percentile_upper-IsRank scaled 99 durations some_ small,
)
