-- ===== src/Repair/Run/Filled.antt =====
-- What a repair run leaves in the tables (`run_repair` in src/repair.rs).
use solana_realtime_indexer.Prelude.{
  ℕ, ℤ, String, List, [], ◌∷◌, ◌++◌, Option, Eq, ◌≡◌, refl, sym, subst, ap, ◌∙◌, arith, inl, inr,
  leb, length, append-nil, append_assoc, Bool-cases,
}
use solana_realtime_indexer.Identity.{key_eq}
use solana_realtime_indexer.Db.Schema.{EventRow, RepairedTrade, Db}
use solana_realtime_indexer.Db.Result.{SqlResult, ok, err, Reply, served, dropped, silent}
use solana_realtime_indexer.Db.Write.{trade_columns}
use solana_realtime_indexer.Db.Pools.{load_pools}
use solana_realtime_indexer.Metrics.{Metrics, zeroed}
use solana_realtime_indexer.Pools.{PoolInfo}
use solana_realtime_indexer.Pools.Orient.{orient}
use solana_realtime_indexer.Repair.{
  Json, Built, built, skipped, Skipped, pool_unknown, no_sol_side, bad_payload, require,
  build_pumpfun, build_pumpswap, build_sides, build_swap, build,
}
use solana_realtime_indexer.Repair.Run.{
  Run, Outcome, going, failed, awaiting, write_ready, keep_built, and_next, after_query,
  with_events, repair_loop, run_repair, load_unrepaired, known_pools, count_skipped,
}
use solana_realtime_indexer.Repair.Run.Written.{
  Fills, Fills-trans, UpTo, Fared, Filled, Filled-Fared, nothing_yet, write_ready-Filled,
}

module _ {V : Type 0} where
  -- The row of an event whose trade can be built.
  abbrev pub built_rows : EventRow V → Built → List RepairedTrade
  built_rows e (skipped why) = []
  built_rows e (built trade) = trade_columns e trade ∷ []

  count_skipped-db : (why : Skipped) (s : Run V) → (count_skipped why s).db ≡ s.db
  count_skipped-db pool_unknown s = refl
  count_skipped-db no_sol_side s = refl
  count_skipped-db bad_payload s = refl

  count_skipped-ready : (why : Skipped) (s : Run V) → (count_skipped why s).ready ≡ s.ready
  count_skipped-ready pool_unknown s = refl
  count_skipped-ready no_sol_side s = refl
  count_skipped-ready bad_payload s = refl

  keep_built-Fared :
      (reply : ℕ → Reply) (e : EventRow V) (b : Built) (s : Run V)
      → Fared s.db (s.ready ++ built_rows e b) (keep_built reply e b s)
  unfolding keep_built
  keep_built-Fared reply e (skipped why) s =
      rw (append-nil, count_skipped-db, count_skipped-ready) (nothing_yet s.db s.ready)
  keep_built-Fared reply e (built trade) s =
      let s' = record s { ready = s.ready ++ trade_columns e trade ∷ [] } in
      elim (Bool-cases (leb 100 (length s'.ready))) [
        | inl full ↦
            rw full
              (Filled-Fared s.db s'.ready (write_ready reply s') (write_ready-Filled reply s'))
        | inr short ↦ rw short (nothing_yet s.db s'.ready)
      ]

  UpTo-more :
      (db db' : Db V) (rows later rest : List RepairedTrade)
      → UpTo db rows db' rest
      → UpTo db (rows ++ later) db' (rest ++ later)
  UpTo-more db db' rows later rest (first, these, f) =
      (first, sym (append_assoc first rest later) ∙ ap (λ l. l ++ later) these, f)

  -- First some rows were written, then some of those that waited or came later.
  UpTo-trans :
      (a b c : Db V) (rows ready later rest : List RepairedTrade)
      → UpTo a rows b ready
      → UpTo b (ready ++ later) c rest
      → UpTo a (rows ++ later) c rest
  UpTo-trans a b c rows ready later rest (first, these, f) (second, those, g) = (
    first ++ second,
    append_assoc first second rest
        ∙ ap (λ l. first ++ l) those
        ∙ sym (append_assoc first ready later)
        ∙ ap (λ l. l ++ later) these,
    Fills-trans a b c first second f g,
  )

  Fills-UpTo : (db db' : Db V) (rows : List RepairedTrade) → UpTo db rows db' [] → Fills db rows db'
  Fills-UpTo db db' rows (first, these, f) =
      subst (λ l. Fills db l db') (sym (append-nil first) ∙ these) f

  next-Filled :
      (db : Db V) (rows later : List RepairedTrade) (s : Run V) (o : Outcome V)
      → UpTo db rows s.db s.ready
      → Filled s.db (s.ready ++ later) o
      → Filled db (rows ++ later) o
  next-Filled db rows later s (going x) u (f, empty) = (
    Fills-UpTo db x.db (rows ++ later) (
        UpTo-trans db s.db x.db rows s.ready later [] u
          (s.ready ++ later, append-nil (s.ready ++ later), f)),
    empty,
  )
  next-Filled db rows later s (failed e db') u (rest, v) =
      (rest, UpTo-trans db s.db db' rows s.ready later rest u v)
  next-Filled db rows later s (awaiting db') u (rest, v) =
      (rest, UpTo-trans db s.db db' rows s.ready later rest u v)

  and_next-Filled :
      (db : Db V) (rows later : List RepairedTrade) (o : Outcome V) (f : Run V → Outcome V)
      → Fared db rows o
      → ((s : Run V) → Filled s.db (s.ready ++ later) (f s))
      → Filled db (rows ++ later) (and_next o f)
  and_next-Filled db rows later (going s) f u h = next-Filled db rows later s (f s) u (h s)
  and_next-Filled db rows later (failed e db') f (rest, u) h =
      (rest ++ later, UpTo-more db db' rows later rest u)
  and_next-Filled db rows later (awaiting db') f (rest, u) h =
      (rest ++ later, UpTo-more db db' rows later rest u)

  after_query-Filled :
      (reply : Reply) (db : Db V) (rows : List RepairedTrade) (o : Outcome V)
      → Filled db rows o
      → Filled db rows (after_query reply db o)
  after_query-Filled served db rows o h = h
  after_query-Filled (dropped _) db rows o h = (rows, nothing_yet db rows)
  after_query-Filled (silent _) db rows o h = (rows, nothing_yet db rows)

  -- The events that the run goes on with: none if the limit is negative.
  abbrev pub loaded : SqlResult (List (EventRow V)) → List (EventRow V)
  loaded (err _) = []
  loaded (ok events) = events

  with_events-Filled :
      (db : Db V) (r : SqlResult (List (EventRow V))) (rest : List (EventRow V) → Outcome V)
      (rows : List (EventRow V) → List RepairedTrade)
      → ((events : List (EventRow V)) → Filled db (rows events) (rest events))
      → Filled db (rows (loaded r)) (with_events db r rest)
  with_events-Filled db (err e) rest rows h = (rows [], nothing_yet db (rows []))
  with_events-Filled db (ok events) rest rows h = h events

module _ {P V : Type 0} ⦃e : Eq P⦄ (wsol : P) (to_string : P → String) (json : Json V)
    (new_from_array : List ℕ → P) where
  build-metrics :
      (pools : List (String × PoolInfo P)) (ev : EventRow V) (m n : Metrics)
      → (build wsol to_string json new_from_array pools ev m).0
        ≡ (build wsol to_string json new_from_array pools ev n).0
  unfolding build build_pumpfun build_pumpswap build_sides build_swap require orient
  build-metrics pools ev m n = ground arith

  -- The rows that can be built from the events.
  abbrev pub repairable : List (String × PoolInfo P) → List (EventRow V) → List RepairedTrade
  repairable pools [] = []
  repairable pools (ev ∷ es) =
      built_rows ev (build wsol to_string json new_from_array pools ev zeroed).0
      ++ repairable pools es

  repair_loop-Filled :
      (reply : ℕ → Reply) (pools : List (String × PoolInfo P)) (es : List (EventRow V)) (s : Run V)
      → Filled s.db
          (s.ready ++ repairable pools es)
          (repair_loop wsol to_string json new_from_array reply pools es s)
  unfolding repair_loop
  repair_loop-Filled reply pools [] s = rw append-nil (write_ready-Filled reply s)
  repair_loop-Filled reply pools (ev ∷ es) s =
      let (b, m) = build wsol to_string json new_from_array pools ev s.metrics in
      let s₁ = record s { metrics = m } in
      let new = built_rows ev (build wsol to_string json new_from_array pools ev zeroed).0 in
      subst
        (λ l. Filled s.db l (
          and_next (keep_built reply ev b s₁)
            (repair_loop wsol to_string json new_from_array reply pools es)))
        (append_assoc s.ready new (repairable pools es))
        (and_next-Filled s.db (s.ready ++ new) (repairable pools es) (keep_built reply ev b s₁)
          (repair_loop wsol to_string json new_from_array reply pools es)
          (subst (λ x. Fared s.db (s.ready ++ built_rows ev x) (keep_built reply ev b s₁))
            (build-metrics pools ev s.metrics zeroed) (keep_built-Fared reply ev b s₁))
          (repair_loop-Filled reply pools es))

  -- Whatever becomes of its two queries and of its statements, a repair run writes rows of the events
  -- that it loaded and whose trades can be built, from the first on, and nothing else: the events,
  -- the trades of before and the constraints of the schema are kept, and each new trade is one of
  -- these rows. If the run returns, all of them are written, also those of an incomplete last
  -- statement; if an error ends it, or an answer never comes, those up to some place.
  pub run_repair-Filled :
      (from_str : String → Option P) (pools_reply events_reply : Reply) (reply : ℕ → Reply)
      (limit : ℤ) (db : Db V) (m : Metrics)
      → Filled db
          (repairable (known_pools from_str (load_pools db) []) (loaded (load_unrepaired limit db)))
          (run_repair wsol to_string from_str json new_from_array pools_reply events_reply reply
            limit db m)
  unfolding run_repair
  run_repair-Filled from_str pools_reply events_reply reply limit db m =
      after_query-Filled pools_reply db _ _ (
        after_query-Filled events_reply db _ _ (
          with_events-Filled db (load_unrepaired limit db) _
            (repairable (known_pools from_str (load_pools db) []))
            (λ events.
              repair_loop-Filled reply (known_pools from_str (load_pools db) []) events _)))
