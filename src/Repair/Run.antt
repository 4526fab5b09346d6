-- ===== src/Repair/Run.antt =====
-- `run_repair` (src/repair.rs), with `load_unrepaired` and `write_repaired` of src/db.rs, and every
-- outcome of their round trips.
pub mod Written
pub mod Filled
use solana_realtime_indexer.Prelude.{
  ℕ, zero, suc, ◌+◌, ◌-◌, String, List, [], ◌∷◌, ◌++◌, Bool, true, false, not, Option, none, some,
  Eq, insert, leb, leb_ℤ, length, if◌then◌else◌, string_eq, ℤ, pos, negsuc,
}
use solana_realtime_indexer.Identity.{key_eq}
use solana_realtime_indexer.Table.{contains}
use solana_realtime_indexer.Db.Schema.{
  EventRow, TradeRow, RepairedTrade, StoredPool, Db, event_key, trade_key,
}
use solana_realtime_indexer.Db.Result.{
  SqlError, SqlResult, ok, err, connection, invalid_row_count, Reply, served, dropped, silent,
}
use solana_realtime_indexer.Db.Write.{insert_trades, trade_columns}
use solana_realtime_indexer.Db.Pools.{load_pools}
use solana_realtime_indexer.Metrics.{Metrics}
use solana_realtime_indexer.Pools.{PoolInfo}
use solana_realtime_indexer.Pools.Resolver.{as_u8}
use solana_realtime_indexer.Repair.{
  Json, Built, built, skipped, Skipped, pool_unknown, no_sol_side, bad_payload, build,
}

module _ {V : Type 0} where
  -- The LEFT JOIN with WHERE t.signature IS NULL.
  unfoldable pub without_trade : List (EventRow V) → List RepairedTrade → List (EventRow V)
  without_trade [] trades = []
  without_trade (e ∷ es) trades =
      if contains trade_key (event_key e) trades
      then without_trade es trades
      else e ∷ without_trade es trades

  -- ORDER BY e.slot, where rows of one slot keep the order of the table.
  unfoldable pub place_by_slot : EventRow V → List (EventRow V) → List (EventRow V)
  place_by_slot e [] = e ∷ []
  place_by_slot e (x ∷ xs) = if leb_ℤ e.slot x.slot then e ∷ x ∷ xs else x ∷ place_by_slot e xs

  unfoldable pub order_by_slot : List (EventRow V) → List (EventRow V)
  unfolding place_by_slot
  order_by_slot [] = []
  order_by_slot (e ∷ es) = place_by_slot e (order_by_slot es)

  -- LIMIT.
  unfoldable pub take : ℕ → List (EventRow V) → List (EventRow V)
  take zero es = []
  take (suc n) [] = []
  take (suc n) (e ∷ es) = e ∷ take n es

  -- LIMIT must not be negative.
  unfoldable pub load_unrepaired : ℤ → Db V → SqlResult (List (EventRow V))
  unfolding take order_by_slot without_trade
  load_unrepaired (pos limit) db =
      ok (take limit (order_by_slot (without_trade db.events db.trades)))
  load_unrepaired (negsuc _) db = err invalid_row_count

  -- `rows_affected` and the tables.
  abbrev pub with_affected : Db V → SqlResult (Db V) → SqlResult (ℕ × Db V)
  with_affected db (err e) = err e
  with_affected db (ok db') = ok (length db'.trades - length db.trades, db')

  unfoldable pub write_repaired : List RepairedTrade → Db V → SqlResult (ℕ × Db V)
  unfolding insert_trades
  write_repaired [] db = ok (0, db)
  write_repaired (r ∷ rs) db = with_affected db (insert_trades (r ∷ rs) db)

-- The rows that wait for the next statement, the tables and the counts that are printed; `statements`
-- numbers the statements of the run.
pub record Run (V : Type 0) : Type 0 where
  pub ready : List RepairedTrade
  pub db : Db V
  pub metrics : Metrics
  pub statements : ℕ
  pub written : ℕ
  pub unknown : ℕ
  pub no_sol : ℕ
  pub bad : ℕ

-- A run that goes on or has returned `Ok`; one that an error has ended, with the tables that it
-- leaves; and one that awaits an answer that never comes.
pub data Outcome (V : Type 0) : Type 0 where
  going : Run V → Outcome V
  failed : SqlError → Db V → Outcome V
  awaiting : Db V → Outcome V

module _ {V : Type 0} where
  -- The tables once a statement was sent whose answer is lost.
  abbrev pub landed : Bool → Db V → SqlResult (ℕ × Db V) → Db V
  landed false db r = db
  landed true db (err e) = db
  landed true db (ok (n, db')) = db'

  -- `written += .. ?`, `ready.clear()`.
  abbrev pub keep_written : Run V → SqlResult (ℕ × Db V) → Outcome V
  keep_written s (err e) = failed e s.db
  keep_written s (ok (n, db)) = going (record s { db = db; written = s.written + n; ready = [] })

  abbrev pub await_written : Reply → Run V → SqlResult (ℕ × Db V) → Outcome V
  await_written served s r = keep_written s r
  await_written (dropped executed) s r = failed connection (landed executed s.db r)
  await_written (silent executed) s r = awaiting (landed executed s.db r)

  -- `write_repaired(..).await?`, which sends no statement for no rows.
  abbrev pub write_rows : List RepairedTrade → (ℕ → Reply) → Run V → Outcome V
  write_rows [] reply s = keep_written s (write_repaired [] s.db)
  write_rows (r ∷ rs) reply s =
      await_written (reply s.statements) (record s { statements = s.statements + 1 })
        (write_repaired (r ∷ rs) s.db)

  abbrev pub write_ready : (ℕ → Reply) → Run V → Outcome V
  write_ready reply s = write_rows s.ready reply s

  abbrev pub count_skipped : Skipped → Run V → Run V
  count_skipped pool_unknown s = record s { unknown = s.unknown + 1 }
  count_skipped no_sol_side s = record s { no_sol = s.no_sol + 1 }
  count_skipped bad_payload s = record s { bad = s.bad + 1 }

  -- The arms of the `match` on what `build` gave.
  unfoldable pub keep_built : (ℕ → Reply) → EventRow V → Built → Run V → Outcome V
  unfolding write_repaired
  keep_built reply e (skipped why) s = going (count_skipped why s)
  keep_built reply e (built trade) s =
      let s' = record s { ready = s.ready ++ trade_columns e trade ∷ [] } in
      if leb 100 (length s'.ready) then write_ready reply s' else going s'

  abbrev pub and_next : Outcome V → (Run V → Outcome V) → Outcome V
  and_next (failed e db) f = failed e db
  and_next (awaiting db) f = awaiting db
  and_next (going s) f = f s

  -- A query that is awaited, and the rest of the run.
  abbrev pub after_query : Reply → Db V → Outcome V → Outcome V
  after_query served db rest = rest
  after_query (dropped _) db rest = failed connection db
  after_query (silent _) db rest = awaiting db

  -- `load_unrepaired(..).await?`, once it has an answer.
  abbrev pub with_events :
      Db V → SqlResult (List (EventRow V)) → (List (EventRow V) → Outcome V) → Outcome V
  with_events db (err e) rest = failed e db
  with_events db (ok events) rest = rest events

-- What becomes of the statement with a number is `reply`.
module _ {P V : Type 0} ⦃e : Eq P⦄ (wsol : P) (to_string : P → String) (json : Json V)
    (new_from_array : List ℕ → P) (reply : ℕ → Reply) where
  -- The loop over the events, and the last statement.
  unfoldable pub repair_loop : List (String × PoolInfo P) → List (EventRow V) → Run V → Outcome V
  unfolding keep_built build
  repair_loop pools [] s = write_ready reply s
  repair_loop pools (ev ∷ es) s =
      let (b, m) = build wsol to_string json new_from_array pools ev s.metrics in
      and_next (keep_built reply ev b (record s { metrics = m })) (repair_loop pools es)

module _ {P : Type 0} (from_str : String → Option P) where
  -- The map of pools, where a row whose keys cannot be read is left out.
  unfoldable pub known_pools :
      List StoredPool → List (String × PoolInfo P) → List (String × PoolInfo P)
  known_pools [] pools = pools
  known_pools (p ∷ ps) pools = elim (from_str p.base_mint) [
    | none ↦ known_pools ps pools
    | some base ↦ elim (from_str p.quote_mint) [
      | none ↦ known_pools ps pools
      | some quote ↦ known_pools ps (
          insert p.pool
            (record {
              base_mint = base;
              quote_mint = quote;
              base_decimals = as_u8 p.base_decimals;
              quote_decimals = as_u8 p.quote_decimals;
            })
            pools)
    ]
  ]

-- The replies to the two queries come first.
module _ {P V : Type 0} ⦃e : Eq P⦄ (wsol : P) (to_string : P → String)
    (from_str : String → Option P) (json : Json V) (new_from_array : List ℕ → P)
    (pools_reply events_reply : Reply) (reply : ℕ → Reply) where
  unfoldable pub run_repair : ℤ → Db V → Metrics → Outcome V
  unfolding repair_loop known_pools load_unrepaired
  run_repair limit db m = after_query pools_reply db (
      after_query events_reply db (
        with_events db (load_unrepaired limit db) (λ events.
          repair_loop wsol to_string json new_from_array reply
            (known_pools from_str (load_pools db) []) events
            (record {
              ready = [];
              db = db;
              metrics = m;
              statements = 0;
              written = 0;
              unknown = 0;
              no_sol = 0;
              bad = 0;
            }))))
