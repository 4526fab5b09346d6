-- ===== src/Tests.antt =====
-- Sample rows, states and accessors, on which the modules below apply the theorems.
mod Writing
mod Watching
mod Healing
mod Clean
mod Trading
mod Recovering
mod Replaying
mod Benching
mod Serving
mod Running
mod Restarting
use solana_realtime_indexer.Prelude.{
  ℕ, String, List, [], ◌∷◌, pos, ℤ, Option, none, some, true, false, Bool, In, inl, inr, refl,
}
use solana_realtime_indexer.Recover.Fetched.{IsFetcher}
use solana_realtime_indexer.Db.Schema.{EventRow, TradeRow, PendingWrite, Checkpoint, Db}
use solana_realtime_indexer.Db.Result.{SqlError, served, silent, dropped}
use solana_realtime_indexer.Metrics.{zeroed}
use solana_realtime_indexer.Writer.Flush.{Trips, Clock, State}

abbrev pub describe : SqlError → String
describe _ = "error"

abbrev pub event_at : String → ℕ → EventRow ℕ
event_at signature slot = record {
  signature = signature;
  absolute_path = 1 ∷ [];
  event_ordinal = pos 0;
  slot = pos slot;
  block_time = none;
  program = "pumpfun";
  event_type = "TradeEvent";
  payload = 7;
}

abbrev pub small_trade : TradeRow
small_trade = record {
  pool = none;
  token_mint = "token";
  side = "buy";
  sol_amount = 50;
  token_amount = 1_000;
  trader = "user";
  fee = some 1;
}

abbrev pub early : PendingWrite ℕ
early = record { event = event_at "a" 10; trade = some small_trade; queued_at = 3 }

abbrev pub late : PendingWrite ℕ
late = record { event = event_at "b" 12; trade = none; queued_at = 4 }

abbrev pub empty_db : Db ℕ
empty_db = record {
  events = [];
  trades = [];
  pools = [];
  checkpoint = none;
  dead_letters = [];
  stream_gaps = [];
  next_gap_id = 1;
}

abbrev pub old_checkpoint : Checkpoint
old_checkpoint = record { last_completed_slot = pos 99; last_completed_signature = "z" }

abbrev pub all_served : Trips
all_served = record {
  begin = served;
  events = served;
  trades = served;
  checkpoint = served;
  commit = served;
  dead_letters = served;
}

-- The commit is carried out, but its answer is lost.
abbrev pub commit_lost : Trips
commit_lost = record all_served { commit = dropped true }

-- Nothing answers.
abbrev pub all_silent : Trips
all_silent = record all_served { begin = silent false; dead_letters = silent false }

abbrev pub clock : Clock
clock = record { took = 2_000; now = 9_000 }

abbrev pub two_rows : List (PendingWrite ℕ)
two_rows = early ∷ late ∷ []

abbrev pub loaded : State ℕ
loaded = record { db = empty_db; batch = two_rows; metrics = zeroed }

-- A pipeline over a range of blocks that finds one event, in the first of them.
abbrev pub brings : ℕ × ℕ → Db ℕ → Bool × Db ℕ
brings range db = (true, record db { events = event_at "a" range.0 ∷ db.events })

abbrev pub Brought : ℕ × ℕ → List (EventRow ℕ) → Type 0
Brought range events = In (event_at "a" range.0) events

pub brings-IsFetcher : IsFetcher Brought brings
brings-IsFetcher = record {
  fetches = λ range db ran. inl refl;
  keeps = λ range a db held. inr held;
}
