-- ===== src/Tests/Running.antt =====
-- The theorems on a whole run of the pipeline, at one trade that goes through all of it.
use solana_realtime_indexer.Prelude.{
  ℕ, String, List, [], ◌∷◌, pos, ◌≡◌, refl, ◌==◌, All, true, false, none, some, string_eq, nat_eq,
  Option, if◌then◌else◌, arith, as_u64, as_i64,
}
use solana_realtime_indexer.Commands.{
  Datasource, PipelineArgs, replay_args, verify_args, replay_datasource,
}
use solana_realtime_indexer.Db.Schema.{PendingWrite}
use solana_realtime_indexer.Db.Result.{served}
use solana_realtime_indexer.Db.Write.{
  trade_pairs, write_trades, insert_trades, admit_trades, amounts_fit, side_check, references_hold,
  write_events, write_checkpoint,
}
use solana_realtime_indexer.Metrics.{zeroed, set_committed_slot}
use solana_realtime_indexer.Pipeline.{
  Parks, Running, spawned, Reach, start, later, send as hand_over, drop_pipeline, receive,
  end_queue,
}
use solana_realtime_indexer.Pipeline.Reached.{Inv, Reach-Inv}
use solana_realtime_indexer.Pipeline.Stopped.{CanStop, stopped-IsKept, Reach-CanStop}
use solana_realtime_indexer.Pipeline.Verified.{log_of, sent_of}
use solana_realtime_indexer.Pipeline.View.{view, add_rows, stopped-view}
use solana_realtime_indexer.Pipeline.Alone.{OnlyTheirs, IsAlone-verified}
use solana_realtime_indexer.Pipeline.Stream.{
  Delivered, pumpfun, pumpswap, then_deliver, deliver, run_stream,
}
use solana_realtime_indexer.Pipeline.Wiring.{wired}
use solana_realtime_indexer.Processors.Pumpfun
use solana_realtime_indexer.Processors.Pumpfun.{trade_event}
use solana_realtime_indexer.Processors.World.{Meta, Moment, see_slot, skip_failed, log_event, send}
use solana_realtime_indexer.Processors.PumpSwap
use solana_realtime_indexer.Processors.PumpSwap.{
  Swap, create_pool_event, dispatch, handle_create, insert_created,
}
use solana_realtime_indexer.Table.{insert_rows, insert_row, find}
use solana_realtime_indexer.Verify.Run.{run_verify}
use solana_realtime_indexer.Writer.Flush.{
  State, flush, flush_newest, flush_rows, write_batch, stage, commit, conclude, max_by_slot,
  observe_rows,
}
use solana_realtime_indexer.Writer.Kept.{IsKept}
use solana_realtime_indexer.Writer.Loop.{row, closed, select}
use solana_realtime_indexer.Writer.Atomic.{applied}
use solana_realtime_indexer.Metrics.Histogram.{observe}
use solana_realtime_indexer.Tests.{describe, empty_db, all_served, clock, early}

abbrev pub fresh_writer : State ℕ
fresh_writer = record { db = empty_db; batch = []; metrics = zeroed }

abbrev pub early_rows : List (PendingWrite ℕ)
early_rows = early ∷ []

abbrev pub flushed : State ℕ
flushed = record {
  db = applied early_rows (pos 10) "a" empty_db;
  batch = [];
  metrics = set_committed_slot (as_u64 (pos 10)) (
      observe_rows 9_000 early_rows
        (record zeroed { flush_time = observe 2_000 zeroed.flush_time }));
}

abbrev pub batched : State ℕ
batched = record fresh_writer { batch = early_rows }

pub received : select describe (row early) all_served clock fresh_writer ≡ some (batched, false)
unfolding select
received = refl

pub committed : select describe closed all_served clock batched ≡ some (flushed, true)
unfolding select flush flush_newest flush_rows write_batch stage commit conclude max_by_slot applied
    trade_pairs write_trades insert_trades admit_trades amounts_fit side_check references_hold
    insert_rows insert_row find write_events write_checkpoint
committed = refl

abbrev pub last : Running ℕ
last = record { to_send = []; queue = []; connected = false; writer = flushed; stopped = true }

abbrev pub reached : Reach Parks describe early_rows fresh_writer last
reached =
    later
      (later (later (later start (hand_over early [] refl refl (omega arith))) (drop_pipeline refl))
        (receive early [] all_served clock batched false refl refl refl received))
      (end_queue all_served clock flushed true refl refl refl refl committed)

Reach-Inv_example : Inv early_rows last
Reach-Inv_example = Reach-Inv describe early_rows fresh_writer refl reached

stopped-IsKept_example : All (IsKept last.writer.db) early_rows × (last.to_send ≡ [])
stopped-IsKept_example = stopped-IsKept describe early_rows fresh_writer last refl reached refl

Reach-CanStop_example : CanStop describe (spawned early_rows fresh_writer)
Reach-CanStop_example =
    Reach-CanStop describe early_rows fresh_writer all_served clock
      (spawned early_rows fresh_writer) refl refl start

-- A key is a number, 4 is the token.
abbrev pub name_of : ℕ → String
name_of n = if n == 4 then "token" else "user"

abbrev meta : Meta
meta = record {
  signature = "a";
  absolute_path = 1 ∷ [];
  slot = 10;
  block_time = none;
  failed = false;
}

abbrev moment : Moment
moment = record { decode_took = 20; now = 3; gap_taken = true; writer_open = true }

-- A trade of pump.fun, and a pool that PumpSwap creates in another instruction.
abbrev pub instructions : List (Delivered ℕ)
instructions =
    pumpfun meta moment (
      trade_event (record {
        mint = 4;
        is_buy = true;
        sol_amount = 50;
        token_amount = 1_000;
        user = 2;
        fee = 1;
      }))
    ∷ pumpswap (record meta { absolute_path = 2 ∷ [] }) moment true served
        (create_pool_event (record {
          pool = 1;
          base_mint = 4;
          quote_mint = 9;
          base_mint_decimals = 6;
          quote_mint_decimals = 9;
        }))
    ∷ []

abbrev pub replayed : Datasource
replayed = replay_datasource "capture.jsonl" 1

abbrev pub args : PipelineArgs
args = replay_args "capture.jsonl" 1 false true

abbrev pub read_key : String → Option ℕ
read_key _ = none

abbrev pub ran : PipelineArgs → Option (Swap ℕ ℕ)
ran a =
    then_deliver (wired read_key a true empty_db zeroed)
      (run_stream 9 name_of (λ _. 7) (λ _. 7) (λ _. 7) instructions)

pub early_sent : sent_of (ran args) ≡ some early_rows
unfolding as_i64 wired run_stream deliver Pumpfun.process PumpSwap.process dispatch handle_create
    insert_created see_slot skip_failed log_event send
early_sent = refl

pub early_only : OnlyTheirs early_rows fresh_writer.db.events
early_only e x m n same = absurd m

stopped-view_example : view last.writer.db ≡ add_rows early_rows (view fresh_writer.db)
unfolding applied
stopped-view_example =
    stopped-view describe early_rows fresh_writer last refl reached ((((tt, tt), tt), tt), tt) refl
      refl

IsAlone-verified_example :
    run_verify (log_of (ran (verify_args replayed))) served last.writer.db ≡ some true
unfolding applied
IsAlone-verified_example =
    IsAlone-verified read_key 9 name_of (λ _. 7) (λ _. 7) (λ _. 7) describe instructions replayed
      args true true empty_db empty_db zeroed zeroed early_rows fresh_writer last refl
      (refl, ((refl, refl), tt)) early_sent refl reached ((((tt, tt), tt), tt), tt) early_only refl
      refl
