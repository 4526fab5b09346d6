-- ===== src/Tests/Writing.antt =====
-- The writer's theorems at sample rows.
use solana_realtime_indexer.Prelude.{
  ℕ, String, List, [], ◌∷◌, ℤ, pos, ◌≡◌, refl, false, some, ◌=?◌, string_eq, if◌then◌else◌, arith,
  as_u64, ◌<ℤ◌,
}
use solana_realtime_indexer.Metrics.{zeroed, set_committed_slot}
use solana_realtime_indexer.Db.Schema.{PendingWrite}
use solana_realtime_indexer.Db.Write.{
  trade_pairs, write_trades, insert_trades, admit_trades, amounts_fit, side_check, references_hold,
  write_events, write_checkpoint,
}
use solana_realtime_indexer.Table.{insert_rows, insert_row, find}
use solana_realtime_indexer.Metrics.Histogram.{observe}
use solana_realtime_indexer.Writer.Flush.{
  State, done, flush, flush_newest, flush_rows, write_batch, stage, commit, conclude, max_by_slot,
  observe_rows,
}
use solana_realtime_indexer.Writer.Loop.{Turn, row, closed, tick, writer_loop, select}
use solana_realtime_indexer.Writer.Lossless.{Drained, received, has_closed}
use solana_realtime_indexer.Writer.Delivery.{start, writer_loop_lossless}
use solana_realtime_indexer.Writer.Atomic.{AllOrNothing, applied, write_batch_atomic}
use solana_realtime_indexer.Writer.Checkpoint.{IsSound}
use solana_realtime_indexer.Writer.Progress.{
  Recorded, Commits, checkpoint_covered, flush_regresses, write_batch-write_batch,
}
use solana_realtime_indexer.Tests.{
  describe, early, late, two_rows, empty_db, old_checkpoint, all_served, commit_lost, clock, loaded,
}

-- Two rows, a failed commit on the timer, and the end of the channel.
abbrev turns : List (Turn ℕ)
turns =
    record { arm = row early; trips = all_served; clock = clock }
    ∷ record { arm = tick; trips = commit_lost; clock = clock }
    ∷ record { arm = row late; trips = all_served; clock = clock }
    ∷ record { arm = closed; trips = all_served; clock = clock }
    ∷ []

writer_loop_lossless_example :
    Drained
      (received turns)
      (has_closed turns)
      (writer_loop describe turns (start describe empty_db zeroed))
writer_loop_lossless_example =
    writer_loop_lossless describe turns empty_db zeroed (refl, (refl, (refl, (refl, tt))))

write_batch_atomic_example :
    AllOrNothing commit_lost.commit empty_db
      (applied two_rows (pos 12) "b" empty_db)
      (write_batch commit_lost two_rows (pos 12) "b" empty_db)
write_batch_atomic_example = write_batch_atomic commit_lost two_rows (pos 12) "b" empty_db

batch_done : (write_batch all_served two_rows (pos 12) "b" empty_db).0 ≡ done tt
unfolding write_batch stage commit trade_pairs write_trades insert_trades admit_trades amounts_fit
    side_check references_hold insert_rows insert_row find write_events write_checkpoint
batch_done = refl

write_batch-write_batch_example :
    (write_batch commit_lost two_rows
      (pos 12)
      "b"
      (write_batch all_served two_rows (pos 12) "b" empty_db).1).1
    ≡ (write_batch all_served two_rows (pos 12) "b" empty_db).1
write_batch-write_batch_example =
    write_batch-write_batch all_served commit_lost two_rows (pos 12) "b" empty_db batch_done

abbrev ahead : State ℕ
ahead = record loaded { db = record empty_db { checkpoint = some old_checkpoint } }

ahead-Commits : Commits describe all_served (max_by_slot early (late ∷ [])) ahead
unfolding write_batch stage commit max_by_slot trade_pairs write_trades insert_trades admit_trades
    amounts_fit side_check references_hold insert_rows insert_row find write_events write_checkpoint
ahead-Commits = refl

flush_regresses_example :
    (newest : PendingWrite ℕ) × Recorded newest (flush describe all_served clock ahead)
    × (newest.event.slot <ℤ pos 99)
flush_regresses_example =
    flush_regresses describe all_served clock early (late ∷ []) ahead old_checkpoint refl
      ahead-Commits refl (omega arith, (omega arith, tt))

abbrev slot_of : String → ℤ
slot_of signature = if signature =? "a" then pos 10 else pos 12

abbrev two_turns : List (Turn ℕ)
two_turns =
    record { arm = row early; trips = all_served; clock = clock }
    ∷ record { arm = tick; trips = all_served; clock = clock }
    ∷ []

-- What the flush of the second turn returns.
abbrev after : State ℕ
after = record {
  db = applied (early ∷ []) (pos 10) "a" empty_db;
  batch = [];
  metrics = set_committed_slot (as_u64 (pos 10)) (
      observe_rows 9_000 (early ∷ [])
        (record zeroed { flush_time = observe 2_000 zeroed.flush_time }));
}

two_turns_run :
    writer_loop describe two_turns (start describe empty_db zeroed) ≡ some (after, false)
unfolding writer_loop select flush flush_newest flush_rows write_batch stage commit conclude
    max_by_slot applied trade_pairs write_trades insert_trades admit_trades amounts_fit side_check
    references_hold insert_rows insert_row find write_events write_checkpoint
two_turns_run = refl

checkpoint_covered_example : IsSound slot_of after.db
checkpoint_covered_example =
    checkpoint_covered describe slot_of two_turns empty_db zeroed after false ((refl, tt), (tt, tt))
      (record { on_chain = tt; covered = tt }) two_turns_run
