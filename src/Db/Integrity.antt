-- ===== src/Db/Integrity.antt =====
-- The constraints of the schema (migrations/*.sql) as an invariant of the tables `events` and
-- `trades`, which the statements of src/db.rs keep.
use solana_realtime_indexer.Prelude.{◌≡◌, refl, subst, List, [], ◌∷◌, true, ℤ, String, arith, All}
use solana_realtime_indexer.Identity.{key_eq}
use solana_realtime_indexer.Table.{insert_rows}
use solana_realtime_indexer.Table.Laws.{
  IsKeyed, insert_rows-IsKeyed, All-insert_rows, contains-insert_rows_old,
}
use solana_realtime_indexer.Db.Schema.{
  EventRow, PendingWrite, RepairedTrade, Db, event_key, trade_key,
}
use solana_realtime_indexer.Db.Result.{SqlResult, ok}
use solana_realtime_indexer.Db.Write.{
  side_check, amounts_fit, admit_trades, references_hold, insert_trades, write_events, write_trades,
  trade_pairs, write_checkpoint,
}

-- What the schema admits as a row of `trades`, its foreign key apart.
abbrev pub IsAdmitted : RepairedTrade → Type 0
IsAdmitted t = (side_check t.trade.side ≡ true) × (amounts_fit t.trade ≡ true)

admit_trades-All : (rows : List RepairedTrade) → admit_trades rows ≡ ok tt → All IsAdmitted rows
unfolding admit_trades
admit_trades-All [] h = tt
admit_trades-All (r ∷ rs) h = ground (arith, admit_trades-All rs)

module _ {V : Type 0} where
  pub record IsWellFormed (db : Db V) : Type 0 where
    pub events_keyed : IsKeyed event_key db.events
    pub trades_keyed : IsKeyed trade_key db.trades
    pub admitted : All IsAdmitted db.trades
    pub references : references_hold db.events db.trades ≡ true

  pub references-insert_events :
      (rows events : List (EventRow V)) (trades : List RepairedTrade)
      → references_hold events trades ≡ true
      → references_hold (insert_rows event_key rows events) trades ≡ true
  unfolding references_hold
  references-insert_events rows events [] h = refl
  references-insert_events rows events (t ∷ ts) h = ground (
    arith,
    contains-insert_rows_old event_key (trade_key t) rows events,
    references-insert_events rows events ts,
  )

  pub write_events-IsWellFormed :
      (rows : List (PendingWrite V)) (db : Db V)
      → IsWellFormed db
      → IsWellFormed (write_events rows db)
  unfolding write_events
  write_events-IsWellFormed rows db w = record {
    events_keyed = insert_rows-IsKeyed event_key _ db.events w.events_keyed;
    trades_keyed = w.trades_keyed;
    admitted = w.admitted;
    references = references-insert_events _ db.events db.trades w.references;
  }

  insert_trades_checks :
      (rows : List RepairedTrade) (db db' : Db V)
      → insert_trades rows db ≡ ok db'
      → (admit_trades rows ≡ ok tt)
        × (references_hold db.events (insert_rows trade_key rows db.trades) ≡ true)
        × (db' ≡ record db { trades = insert_rows trade_key rows db.trades })
  unfolding insert_trades
  insert_trades_checks rows db db' h = ground arith

  pub insert_trades-IsWellFormed :
      (rows : List RepairedTrade) (db db' : Db V)
      → IsWellFormed db
      → insert_trades rows db ≡ ok db'
      → IsWellFormed db'
  insert_trades-IsWellFormed rows db db' w h =
      let (checked, held, same) = insert_trades_checks rows db db' h in
      rw same (record {
        events_keyed = w.events_keyed;
        trades_keyed = insert_rows-IsKeyed trade_key rows db.trades w.trades_keyed;
        admitted =
            All-insert_rows trade_key IsAdmitted rows db.trades (admit_trades-All rows checked)
              w.admitted;
        references = held;
      })

  pub write_trades-IsWellFormed :
      (rows : List (PendingWrite V)) (db db' : Db V)
      → IsWellFormed db
      → write_trades rows db ≡ ok db'
      → IsWellFormed db'
  unfolding write_trades
  write_trades-IsWellFormed rows db db' w h = go (trade_pairs rows) h
    where
      go :
          (pairs : List RepairedTrade)
          → elim pairs as (λ _. SqlResult (Db V)) [
            | [] ↦ ok db
            | p ∷ ps ↦ insert_trades (p ∷ ps) db
          ]
            ≡ ok db'
          → IsWellFormed db'
      go [] e = subst IsWellFormed (cc) w
      go (p ∷ ps) e = insert_trades-IsWellFormed (p ∷ ps) db db' w e

  pub write_checkpoint-IsWellFormed :
      (slot : ℤ) (signature : String) (db : Db V)
      → IsWellFormed db
      → IsWellFormed (write_checkpoint slot signature db)
  unfolding write_checkpoint
  write_checkpoint-IsWellFormed slot signature db w = record {
    events_keyed = w.events_keyed;
    trades_keyed = w.trades_keyed;
    admitted = w.admitted;
    references = w.references;
  }
