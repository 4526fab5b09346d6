-- ===== src/Tests/Clean.antt =====
-- The theorems on rows that the schema takes, at the run of one trade.
use solana_realtime_indexer.Prelude.{
  ℕ, [], pos, ◌≡◌, refl, inl, true, none, some, All, arith, as_i64, nat_eq,
}
use solana_realtime_indexer.Commands.{verify_args}
use solana_realtime_indexer.Db.Integrity.{IsWellFormed}
use solana_realtime_indexer.Db.Result.{served}
use solana_realtime_indexer.Db.Write.{references_hold}
use solana_realtime_indexer.Metrics.{zeroed}
use solana_realtime_indexer.Processors.Pumpfun
use solana_realtime_indexer.Processors.PumpSwap
use solana_realtime_indexer.Processors.PumpSwap.{Swap, dispatch, handle_create, insert_created}
use solana_realtime_indexer.Processors.World.{see_slot, skip_failed, log_event, send}
use solana_realtime_indexer.Verify.Run.{run_verify}
use solana_realtime_indexer.Writer.Flush.{done, write_batch}
use solana_realtime_indexer.Writer.Atomic.{applied}
use solana_realtime_indexer.Writer.Admitted.{IsAnswered}
use solana_realtime_indexer.Pipeline.Clean.{IsSmooth-verified}
use solana_realtime_indexer.Pipeline.Stream.{deliver, run_stream}
use solana_realtime_indexer.Pipeline.Typed.{HasWords, run_stream-applied}
use solana_realtime_indexer.Pipeline.Verified.{log_of, sent_of}
use solana_realtime_indexer.Pipeline.Wiring.{swap_of}
use solana_realtime_indexer.Tests.{describe, empty_db, all_served}
use solana_realtime_indexer.Tests.Running.{
  fresh_writer, early_rows, last, reached, name_of, instructions, replayed, args, read_key, ran,
  early_sent, early_only,
}

empty-IsWellFormed : IsWellFormed empty_db
unfolding references_hold
empty-IsWellFormed = record {
  events_keyed = tt;
  trades_keyed = tt;
  admitted = tt;
  references = refl;
}

all-IsAnswered : IsAnswered all_served
all-IsAnswered = record {
  begin = refl;
  events = refl;
  trades = refl;
  checkpoint = refl;
  commit = refl;
}

instructions-HasWords : All HasWords instructions
instructions-HasWords = ((omega arith, omega arith, omega arith), (tt, tt))

abbrev unwired : Swap ℕ ℕ
unwired = swap_of args none zeroed

unwired_sent :
    sent_of (run_stream 9 name_of (λ _. 7) (λ _. 7) (λ _. 7) instructions unwired) ≡ some early_rows
unfolding as_i64 run_stream deliver Pumpfun.process PumpSwap.process dispatch handle_create
    insert_created see_slot skip_failed log_event send
unwired_sent = refl

run_stream-applied_example :
    write_batch all_served early_rows (pos 10) "a" empty_db
    ≡ (done tt, applied early_rows (pos 10) "a" empty_db)
run_stream-applied_example =
    run_stream-applied 9 name_of (λ _. 7) (λ _. 7) (λ _. 7) instructions unwired early_rows
      early_rows all_served (pos 10) "a" empty_db instructions-HasWords refl unwired_sent
      (inl refl, tt) all-IsAnswered empty-IsWellFormed

IsSmooth-verified_example :
    (last.writer.db.dead_letters ≡ [])
    × IsWellFormed last.writer.db
    × (run_verify (log_of (ran (verify_args replayed))) served last.writer.db ≡ some true)
IsSmooth-verified_example =
    IsSmooth-verified read_key 9 name_of (λ _. 7) (λ _. 7) (λ _. 7) describe instructions replayed
      args true true empty_db empty_db zeroed zeroed early_rows fresh_writer last refl
      (refl, ((refl, refl), tt)) instructions-HasWords early_sent refl empty-IsWellFormed refl
      early_only reached ((((tt, tt), tt), all-IsAnswered), all-IsAnswered) refl
