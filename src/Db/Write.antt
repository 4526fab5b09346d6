-- ===== src/Db/Write.antt =====
-- The statements of a flush in src/db.rs: events, trades, the checkpoint and dead letters.
use solana_realtime_indexer.Prelude.{
  ℕ, ◌^◌, String, List, [], ◌∷◌, ◌++◌, map, Bool, true, ◌&&◌, ◌||◌, Option, none, some, ltb,
  if◌then◌else◌, ◌=?◌, ℤ, string_eq,
}
use solana_realtime_indexer.Identity.{key_eq}
use solana_realtime_indexer.Table.{contains, insert_rows}
use solana_realtime_indexer.Db.Schema.{
  EventRow, TradeRow, PendingWrite, RepairedTrade, DeadLetter, Db, event_key, trade_key,
}
use solana_realtime_indexer.Db.Result.{
  SqlResult, ok, err, check_violation, foreign_key_violation, numeric_overflow,
}

-- NUMERIC(20, 0) holds twenty digits.
abbrev pub numeric_fits : ℕ → Bool
numeric_fits n = ltb n (10 ^ 20)

abbrev fee_fits : Option ℕ → Bool
fee_fits none = true
fee_fits (some n) = numeric_fits n

-- CHECK (side IN ('buy', 'sell')).
unfoldable pub side_check : String → Bool
side_check side = (side =? "buy") || (side =? "sell")

unfoldable pub amounts_fit : TradeRow → Bool
amounts_fit t = numeric_fits t.sol_amount && numeric_fits t.token_amount && fee_fits t.fee

-- Types and CHECK constraints are tested for each row of the statement, conflicting or not.
unfoldable pub admit_trades : List RepairedTrade → SqlResult (Unit {0})
admit_trades [] = ok tt
admit_trades (r ∷ rs) =
    if amounts_fit r.trade
    then (if side_check r.trade.side then admit_trades rs else err check_violation)
    else err numeric_overflow

module _ {V : Type 0} where
  -- The foreign key of `trades`: every row has its event.
  unfoldable pub references_hold : List (EventRow V) → List RepairedTrade → Bool
  references_hold events [] = true
  references_hold events (t ∷ ts) =
      contains event_key (trade_key t) events && references_hold events ts

  -- INSERT INTO trades ... ON CONFLICT DO NOTHING.
  unfoldable pub insert_trades : List RepairedTrade → Db V → SqlResult (Db V)
  insert_trades rows d =
      let trades = insert_rows trade_key rows d.trades in
      elim (admit_trades rows) [
        | err e ↦ err e
        | ok _ ↦
            if references_hold d.events trades
            then ok (record d { trades = trades })
            else err foreign_key_violation
      ]

  unfoldable pub write_events : List (PendingWrite V) → Db V → Db V
  write_events rows d = record d {
    events = insert_rows event_key (map (λ r. r.event) rows) d.events;
  }

  -- The columns that one pair of an event and its trade binds.
  abbrev pub trade_columns : EventRow V → TradeRow → RepairedTrade
  trade_columns e t = record {
    signature = e.signature;
    absolute_path = e.absolute_path;
    event_ordinal = e.event_ordinal;
    slot = e.slot;
    block_time = e.block_time;
    program = e.program;
    trade = t;
  }

  -- The `filter_map` that keeps the rows with a trade.
  unfoldable pub trade_pairs : List (PendingWrite V) → List RepairedTrade
  trade_pairs [] = []
  trade_pairs (r ∷ rs) = elim r.trade [
    | none ↦ trade_pairs rs
    | some t ↦ trade_columns r.event t ∷ trade_pairs rs
  ]

  unfoldable pub write_trades : List (PendingWrite V) → Db V → SqlResult (Db V)
  write_trades rows d = elim (trade_pairs rows) [ [] ↦ ok d | p ∷ ps ↦ insert_trades (p ∷ ps) d ]

  -- The row with id 1 is written anew, whatever it held.
  unfoldable pub write_checkpoint : ℤ → String → Db V → Db V
  write_checkpoint slot signature d = record d {
    checkpoint = some (record { last_completed_slot = slot; last_completed_signature = signature });
  }

  abbrev pub dead_letter : String → PendingWrite V → DeadLetter V
  dead_letter error r = record {
    signature = r.event.signature;
    absolute_path = r.event.absolute_path;
    event_ordinal = r.event.event_ordinal;
    slot = r.event.slot;
    payload = r.event.payload;
    error = error;
  }

  unfoldable pub write_dead_letters : List (PendingWrite V) → String → Db V → Db V
  write_dead_letters rows error d = record d {
    dead_letters = d.dead_letters ++ map (dead_letter error) rows;
  }
