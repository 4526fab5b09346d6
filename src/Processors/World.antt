-- ===== src/Processors/World.antt =====
-- The state that both processors share (`run_pipeline` in src/pipeline.rs hands them clones of the
-- same handles), and the transaction metadata that they read.
use solana_realtime_indexer.Prelude.{
  ℕ, String, List, [], ◌∷◌, ◌++◌, ℤ, pos, Bool, Option, none, some, as_i64, if◌then◌else◌,
}
use solana_realtime_indexer.Identity.{EventId}
use solana_realtime_indexer.Db.Schema.{EventRow, PendingWrite}
use solana_realtime_indexer.Metrics.{Metrics, inc}
use solana_realtime_indexer.Metrics.Histogram.{observe}
use solana_realtime_indexer.Gaps.{Disconnection, Watch, check_slot}

-- `InstructionMetadata` with the fields of its transaction that are read.
pub record Meta : Type 0 where
  pub signature : String
  pub absolute_path : List ℕ
  pub slot : ℕ
  pub block_time : Option ℤ
  pub failed : Bool

-- The readings of the clock during one call, the gap channel's answer, and the writer's.
pub record Moment : Type 0 where
  -- `started.elapsed()` when the event has been decoded
  pub decode_took : ℕ
  -- `Instant::now()`
  pub now : ℕ
  -- the gap channel takes a message
  pub gap_taken : Bool
  -- the writer task still receives
  pub writer_open : Bool

pub record World (V : Type 0) : Type 0 where
  pub metrics : Metrics
  pub watermark : ℕ
  -- whether the processors have a sender of gaps, and what it has taken
  pub gaps_attached : Bool
  pub gaps_sent : List Disconnection
  -- the event log, if there is one
  pub events : Option (List EventId)
  -- the rows that the writer's channel has taken, if there is a writer
  pub written : Option (List (PendingWrite V))

abbrev pub event_id : Meta → EventId
event_id meta = record {
  signature = meta.signature;
  absolute_path = meta.absolute_path;
  event_ordinal = 0;
}

module _ {V : Type 0} where
  abbrev pub watch : World V → Watch
  watch w = record { watermark = w.watermark; metrics = w.metrics; sent = w.gaps_sent }

  -- `gaps::check_slot` on the shared state.
  unfoldable pub see_slot : Meta → Moment → World V → World V
  see_slot meta at w =
      let after =
        check_slot w.gaps_attached (record { slot = meta.slot; now = at.now; taken = at.gap_taken })
          (watch w) in
      record w { watermark = after.watermark; metrics = after.metrics; gaps_sent = after.sent }

  -- `inc(&SKIPPED_FAILED)`.
  unfoldable pub skip_failed : World V → World V
  skip_failed w = record w {
    metrics = record w.metrics { skipped_failed = inc w.metrics.skipped_failed };
  }

  -- `EVENTS_DECODED`, the event log and `DECODE_TIME`: the method `record` of the PumpSwap
  -- processor, which the pump.fun processor spells out.
  unfoldable pub log_event : Meta → Moment → World V → World V
  log_event meta at w = record w {
    metrics = record w.metrics {
      events_decoded = inc w.metrics.events_decoded;
      decode_time = observe at.decode_took w.metrics.decode_time;
    };
    events = elim w.events [ none ↦ none | some log ↦ some (log ++ event_id meta ∷ []) ];
  }

  abbrev pub event_row : Meta → String → String → V → EventRow V
  event_row meta program event_type payload = record {
    signature = meta.signature;
    absolute_path = meta.absolute_path;
    event_ordinal = pos 0;
    slot = as_i64 meta.slot;
    block_time = meta.block_time;
    program = program;
    event_type = event_type;
    payload = payload;
  }

  -- `Writer::send`, which waits for room and fails only once the writer task is gone.
  unfoldable pub send : Moment → PendingWrite V → World V → World V
  send at row w = elim w.written [
    | none ↦ w
    | some rows ↦
        if at.writer_open then record w { written = some (rows ++ row ∷ []) } else record w {
          metrics = record w.metrics { db_write_errors = inc w.metrics.db_write_errors };
        }
  ]
