-- ===== src/Db/Schema.antt =====
-- The rows of the six tables (migrations/*.sql), under the names of the structs of src/db.rs that
-- carry them. `V` is the type of a JSON payload. An amount, NUMERIC(20, 0) and `Decimal` in the
-- source, is a whole number. Columns that a default fills and nothing reads are left out.
use solana_realtime_indexer.Prelude.{ℕ, String, List, ℤ, Option}
use solana_realtime_indexer.Identity.{EventKey}

pub record EventRow (V : Type 0) : Type 0 where
  pub signature : String
  pub absolute_path : List ℕ
  pub event_ordinal : ℤ
  pub slot : ℤ
  pub block_time : Option ℤ
  pub program : String
  pub event_type : String
  pub payload : V

pub record TradeRow : Type 0 where
  pub pool : Option String
  pub token_mint : String
  pub side : String
  pub sol_amount : ℕ
  pub token_amount : ℕ
  pub trader : String
  pub fee : Option ℕ

-- `queued_at` is a monotonic clock's reading, in microseconds.
pub record PendingWrite (V : Type 0) : Type 0 where
  pub event : EventRow V
  pub trade : Option TradeRow
  pub queued_at : ℕ

-- A row of `trades`: what `write_trades` and `write_repaired` bind.
pub record RepairedTrade : Type 0 where
  pub signature : String
  pub absolute_path : List ℕ
  pub event_ordinal : ℤ
  pub slot : ℤ
  pub block_time : Option ℤ
  pub program : String
  pub trade : TradeRow

pub record StoredPool : Type 0 where
  pub pool : String
  pub base_mint : String
  pub quote_mint : String
  pub base_decimals : Option ℤ
  pub quote_decimals : Option ℤ

pub record Checkpoint : Type 0 where
  pub last_completed_slot : ℤ
  pub last_completed_signature : String

pub record DeadLetter (V : Type 0) : Type 0 where
  pub signature : String
  pub absolute_path : List ℕ
  pub event_ordinal : ℤ
  pub slot : ℤ
  pub payload : V
  pub error : String

pub record GapRow : Type 0 where
  pub gap_id : ℕ
  pub start_slot : ℤ
  pub end_slot : ℤ
  pub missed_slots : ℤ
  pub detected_at : ℕ
  pub recovered_at : Option ℕ
  pub recovery_method : Option String
  pub status : String
  pub detected_by : String

pub record Db (V : Type 0) : Type 0 where
  pub events : List (EventRow V)
  pub trades : List RepairedTrade
  pub pools : List StoredPool
  -- the one row that `single_row` allows
  pub checkpoint : Option Checkpoint
  pub dead_letters : List (DeadLetter V)
  pub stream_gaps : List GapRow
  -- the next value of the sequence behind `gap_id`
  pub next_gap_id : ℕ

module _ {V : Type 0} where
  abbrev pub event_key : EventRow V → EventKey
  event_key e = record {
    signature = e.signature;
    absolute_path = e.absolute_path;
    event_ordinal = e.event_ordinal;
  }

  abbrev pub pending_key : PendingWrite V → EventKey
  pending_key r = event_key r.event

  abbrev pub letter_key : DeadLetter V → EventKey
  letter_key l = record {
    signature = l.signature;
    absolute_path = l.absolute_path;
    event_ordinal = l.event_ordinal;
  }

abbrev pub trade_key : RepairedTrade → EventKey
trade_key t = record {
  signature = t.signature;
  absolute_path = t.absolute_path;
  event_ordinal = t.event_ordinal;
}
