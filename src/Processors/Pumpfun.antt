-- ===== src/Processors/Pumpfun.antt =====
-- `TradeEventProcessor::process` (src/processors/pumpfun.rs).
pub mod Run
use solana_realtime_indexer.Prelude.{
  ℕ, String, List, Bool, true, false, Option, none, some, if◌then◌else◌,
}
use solana_realtime_indexer.Db.Schema.{TradeRow, PendingWrite}
use solana_realtime_indexer.Processors.World.{
  Meta, Moment, World, see_slot, skip_failed, log_event, event_row, send,
}

-- The fields of the decoder's `TradeEvent` that are read.
pub record TradeEvent (P : Type 0) : Type 0 where
  pub mint : P
  pub is_buy : Bool
  pub sol_amount : ℕ
  pub token_amount : ℕ
  pub user : P
  pub fee : ℕ

-- `PumpfunInstruction`, where only a trade event is told apart.
pub data Instruction (P : Type 0) : Type 0 where
  trade_event : TradeEvent P → Instruction P
  other : Instruction P

abbrev pub side_of : Bool → String
side_of is_buy = if is_buy then "buy" else "sell"

-- `to_value` is `serde_json::to_value`, with a null where it fails.
module _ {P V : Type 0} (to_string : P → String) (to_value : TradeEvent P → V) where
  abbrev pub trade_row : TradeEvent P → TradeRow
  trade_row trade = record {
    pool = none;
    token_mint = to_string trade.mint;
    side = side_of trade.is_buy;
    sol_amount = trade.sol_amount;
    token_amount = trade.token_amount;
    trader = to_string trade.user;
    fee = some trade.fee;
  }

  abbrev pub pending : Meta → Moment → TradeEvent P → PendingWrite V
  pending meta at trade = record {
    event = event_row meta "pumpfun" "TradeEvent" (to_value trade);
    trade = some (trade_row trade);
    queued_at = at.now;
  }

  unfoldable pub process : Meta → Moment → Instruction P → World V → World V
  unfolding see_slot skip_failed log_event send
  process meta at i w =
      if meta.failed
      then skip_failed w
      else (let w' = see_slot meta at w in
          elim i [
            | other ↦ w'
            | trade_event trade ↦ send at (pending meta at trade) (log_event meta at w')
          ])
