-- ===== src/Metrics/Exposition/Counted.antt =====
-- What the lines of a histogram say of the durations observed (src/metrics.rs).
use mathlib.Core.Option
use solana_realtime_indexer.Prelude.{
  ℕ, suc, ◌+◌, ◌%◌, ◌≤◌, ◌<◌, String, List, [], ◌∷◌, ◌++◌, map, Option, none, some, unwrap_or, ◌≡◌,
  refl, ap, ◌∙◌, arith, leb, if◌then◌else◌, length, u64_mod, Bool, true, false,
}
use solana_realtime_indexer.Metrics.Histogram.{
  Histogram, new, position, fetch_add, observe, bucket_edges_us,
}
use solana_realtime_indexer.Metrics.Exposition.{running_counts, last_or, histogram_text, histogram}

-- How many durations took at most this long.
abbrev pub count_le : ℕ → List ℕ → ℕ
count_le edge [] = 0
count_le edge (u ∷ us) = (if leb u edge then 1 else 0) + count_le edge us

-- The durations that took longer.
abbrev pub above : ℕ → List ℕ → List ℕ
above edge [] = []
above edge (u ∷ us) = if leb u edge then above edge us else u ∷ above edge us

-- The buckets that the durations fall into.
abbrev pub tally : List ℕ → List ℕ → List ℕ
tally [] us = length us ∷ []
tally (e ∷ es) us = count_le e us ∷ tally es (above e us)

-- The durations, last first, one by one.
unfoldable pub observe_all : List ℕ → Histogram → Histogram
observe_all [] h = h
observe_all (u ∷ us) h = observe u (observe_all us h)

abbrev pub total : List ℕ → ℕ
total [] = 0
total (u ∷ us) = total us + u

pub length-above : (e : ℕ) (us : List ℕ) → count_le e us + length (above e us) ≡ length us
length-above e [] = refl
length-above e (u ∷ us) = ground (arith, length-above e us)

count_le-above :
    (e f : ℕ) (us : List ℕ) → e ≤ f → count_le f us ≡ count_le e us + count_le f (above e us)
count_le-above e f [] h = refl
count_le-above e f (u ∷ us) h = ground (arith, count_le-above e f us h)

unwrap_or-map : (n : ℕ) (o : Option ℕ) → unwrap_or (suc n) (Option.map suc o) ≡ suc (unwrap_or n o)
unwrap_or-map n none = refl
unwrap_or-map n (some a) = refl

-- A duration moves the first bucket whose edge it does not pass, or one of the others.
fetch_add-bucket :
    (b : Bool) (n : ℕ) (o : Option ℕ) (c : ℕ) (T : List ℕ → List ℕ) (u : ℕ) (us : List ℕ)
    → c + 1 < u64_mod
    → fetch_add (unwrap_or n o) (T us) ≡ T (u ∷ us)
    → fetch_add (unwrap_or (suc n) (if b then some 0 else Option.map suc o)) (c ∷ T us)
      ≡ ((if b then 1 else 0) + c) ∷ T (if b then us else u ∷ us)
unfolding fetch_add
fetch_add-bucket true n o c T u us small rest = ap (λ x. x ∷ T us) (omega arith)
fetch_add-bucket false n o c T u us small rest =
    ap (λ i. fetch_add i (c ∷ T us)) (unwrap_or-map n o)
    ∙ ap (λ x. c ∷ x) rest
    ∙ ap (λ x. x ∷ T (u ∷ us)) (omega arith)

-- One more duration moves one bucket.
tally-observe :
    (es : List ℕ) (u : ℕ) (us : List ℕ)
    → length us + 1 < u64_mod
    → fetch_add (unwrap_or (length es) (position u es)) (tally es us) ≡ tally es (u ∷ us)
unfolding fetch_add position
tally-observe [] u us h = ap (λ x. x ∷ []) (omega arith)
tally-observe (e ∷ es) u us h =
    let counted = length-above e us in
    fetch_add-bucket (leb u e) (length es) (position u es) (count_le e us) (tally es) u (above e us)
      (omega arith) (tally-observe es u (above e us) (omega arith))

-- `as_micros() as u64` of each duration.
abbrev pub truncated : List ℕ → List ℕ
truncated us = map (λ u. u % u64_mod) us

pub length-map : (us : List ℕ) → length (truncated us) ≡ length us
length-map [] = refl
length-map (u ∷ us) = ap suc (length-map us)

buckets-observe :
    (u : ℕ) (h : Histogram)
    → (observe u h).buckets
      ≡ fetch_add
          (unwrap_or (length bucket_edges_us) (position (u % u64_mod) bucket_edges_us))
          h.buckets
unfolding observe
buckets-observe u h = refl

pub buckets-observe_all :
    (us : List ℕ)
    → length us < u64_mod
    → (observe_all us new).buckets ≡ tally bucket_edges_us (truncated us)
unfolding observe_all
buckets-observe_all [] small = refl
buckets-observe_all (u ∷ us) small =
    let counted = length-map us in
    buckets-observe u (observe_all us new)
    ∙ ap
        (λ bs.
          fetch_add (unwrap_or (length bucket_edges_us) (position (u % u64_mod) bucket_edges_us))
            bs)
        (buckets-observe_all us (omega arith))
    ∙ tally-observe bucket_edges_us (u % u64_mod) (truncated us) (omega arith)

sum_us-observe_all : (us : List ℕ) → (observe_all us new).sum_us ≡ total us % u64_mod
unfolding observe_all observe
sum_us-observe_all [] = refl
sum_us-observe_all (u ∷ us) = let rest = sum_us-observe_all us in omega arith

-- The edges go up, from the one given.
unfoldable pub IsAscending : ℕ → List ℕ → Type 0
IsAscending e [] = Unit
IsAscending e (f ∷ fs) = (e ≤ f) × IsAscending f fs

-- Past an edge, only the durations above it are left to count.
map-count_le :
    (r e l : ℕ) (fs : List ℕ) (us : List ℕ)
    → e ≤ l
    → IsAscending l fs
    → map (λ f. r + count_le e us + count_le f (above e us)) fs ≡ map (λ f. r + count_le f us) fs
unfolding IsAscending
map-count_le r e l [] us low up = refl
map-count_le r e l (f ∷ fs) us low (up, ups) =
    let above_e = count_le-above e f us (omega arith) in
    let first : r + count_le e us + count_le f (above e us) ≡ r + count_le f us = omega arith in
    ap (λ x. x ∷ map (λ g. r + count_le e us + count_le g (above e us)) fs) first
    ∙ ap (λ xs. (r + count_le f us) ∷ xs) (map-count_le r e f fs us (omega arith) ups)

-- Each bucket and those before it add up to the durations up to its edge.
running_counts-tally :
    (r : ℕ) (e : ℕ) (es : List ℕ) (us : List ℕ)
    → IsAscending e es
    → r + length us < u64_mod
    → running_counts r (tally es us) ≡ map (λ f. r + count_le f us) es ++ (r + length us) ∷ []
unfolding running_counts IsAscending
running_counts-tally r e [] us up small = ap (λ x. x ∷ []) (omega arith)
running_counts-tally r e (f ∷ fs) us (up, ups) small =
    let counted = length-above f us in
    let no_wrap : (r + count_le f us) % u64_mod ≡ r + count_le f us = omega arith in
    ap (λ x. x ∷ running_counts x (tally fs (above f us))) no_wrap
    ∙ ap (λ xs. (r + count_le f us) ∷ xs)
        (running_counts-tally (r + count_le f us) f fs (above f us) ups (omega arith)
          ∙ ap (λ n. map (λ g. r + count_le f us + count_le g (above f us)) fs ++ n ∷ [])
              (omega arith)
          ∙ ap (λ xs. xs ++ (r + length us) ∷ []) (map-count_le r f f fs us (omega arith) ups))

last_or-snoc : (d : ℕ) (xs : List ℕ) (x : ℕ) → last_or d (xs ++ x ∷ []) ≡ x
last_or-snoc d [] x = refl
last_or-snoc d (y ∷ ys) x = last_or-snoc y ys x

edges-IsAscending : IsAscending 0 bucket_edges_us
unfolding IsAscending
edges-IsAscending = (
  omega arith,
  (
    omega arith,
    (
      omega arith,
      (omega arith, (omega arith, (omega arith, (omega arith, (omega arith, (omega arith, tt)))))),
    ),
  ),
)

map-zero : (g : ℕ → ℕ) (es : List ℕ) → map (λ e. 0 + g e) es ≡ map g es
map-zero g [] = refl
map-zero g (e ∷ es) =
    ap (λ x. x ∷ map (λ f. 0 + g f) es) (omega arith) ∙ ap (λ xs. g e ∷ xs) (map-zero g es)

pub running_counts-observe_all :
    (durations : List ℕ)
    → length durations < u64_mod
    → running_counts 0 (observe_all durations new).buckets
      ≡ map (λ edge. count_le edge (truncated durations)) bucket_edges_us ++ length durations ∷ []
running_counts-observe_all durations small =
    let us : List ℕ = truncated durations in
    let all : length us ≡ length durations = length-map durations in
    ap (running_counts 0) (buckets-observe_all durations small)
    ∙ running_counts-tally 0 0 bucket_edges_us us edges-IsAscending (omega arith)
    ∙ ap (λ n. map (λ e. 0 + count_le e us) bucket_edges_us ++ n ∷ []) (omega arith)
    ∙ ap (λ xs. xs ++ length durations ∷ []) (map-zero (λ e. count_le e us) bucket_edges_us)

-- The lines of a histogram that has observed `durations` are those of the cumulative histogram that
-- Prometheus asks for: on the line of each edge stands the number of durations (each as the u64 the
-- code makes of it) that are at most the edge, on the `+Inf` line and on the `_count` line the number
-- of all of them, and on the `_sum` line their sum modulo 2^64; given that there are less than 2^64.
pub histogram-Counted :
    (show seconds : ℕ → String) (name help : String) (durations : List ℕ)
    → length durations < u64_mod
    → histogram show seconds name help (observe_all durations new)
      ≡ histogram_text show seconds name help
          (map (λ edge. count_le edge (truncated durations)) bucket_edges_us
            ++ length durations ∷ [])
          (total durations % u64_mod)
          (length durations)
unfolding histogram
histogram-Counted show seconds name help durations small =
    let text : List ℕ → ℕ → String =
      λ counts sum_us. histogram_text show seconds name help counts sum_us (last_or 0 counts) in
    let lines : List ℕ = map (λ edge. count_le edge (truncated durations)) bucket_edges_us in
    ap (λ s. text (running_counts 0 (observe_all durations new).buckets) s)
      (sum_us-observe_all durations)
    ∙ ap (λ cs. text cs (total durations % u64_mod)) (running_counts-observe_all durations small)
    ∙ ap
        (histogram_text show seconds name help (lines ++ length durations ∷ [])
          (total durations % u64_mod))
        (last_or-snoc 0 lines (length durations))
