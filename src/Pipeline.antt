-- ===== src/Pipeline.antt =====
-- `run_pipeline` of src/pipeline.rs at work: the processors and the writer task of src/writer.rs as
-- two tasks with a bounded channel between them, and the rest of the program, which writes to the
-- same database. A flush, which waits for its statements, is one step: it touches neither the
-- channel nor what the other tasks write, so that what they do meanwhile can stand behind it. A
-- flush that never returns leaves its task where it is, which takes no further step.
-- The steps are those of a run whose `pipeline.run()` returns `Ok`: its error ends `run_pipeline`
-- without waiting for the writer task.
pub mod Placed
pub mod Reached
pub mod Stopped
pub mod Exact
pub mod View
pub mod Wiring
pub mod Stream
pub mod Verified
pub mod Alone
pub mod Typed
pub mod Smooth
pub mod Clean
use solana_realtime_indexer.Prelude.{
  String, List, [], ◌∷◌, ◌++◌, Bool, true, false, some, ◌≡◌, ◌<◌, length,
}
use solana_realtime_indexer.Config.{write_queue_size}
use solana_realtime_indexer.Db.Schema.{PendingWrite, Db}
use solana_realtime_indexer.Db.Result.{SqlError}
use solana_realtime_indexer.Metrics.{inc}
use solana_realtime_indexer.Writer.Flush.{State, Trips, Clock}
use solana_realtime_indexer.Writer.Kept.{parks, IsKept}
use solana_realtime_indexer.Writer.Loop.{row, closed, tick, select}

pub record Running (V : Type 0) : Type 0 where
  -- the rows that the processors have yet to hand over, in the order of the stream
  pub to_send : List (PendingWrite V)
  -- the channel of `spawn_writer`
  pub queue : List (PendingWrite V)
  -- the pipeline, which owns the senders of the channel, has not been dropped
  pub connected : Bool
  pub writer : State V
  -- the writer task has left its loop
  pub stopped : Bool

-- What `run_pipeline` starts, for the rows that its datasource leads to.
abbrev pub spawned : {V : Type 0} → List (PendingWrite V) → State V → Running V
spawned rows writer = record {
  to_send = rows;
  queue = [];
  connected = true;
  writer = writer;
  stopped = false;
}

-- The statement that parks a failed batch is carried out, should it be needed.
abbrev pub Parks : Trips → Type 0
Parks trips = parks trips.dead_letters ≡ true

-- The steps in which the round trips of the writer task are as `Allowed` says; with `λ _. Unit`, all
-- of them, those too whose failed batch is lost. The other tasks keep the rows of `events` and
-- `dead_letters`.
pub data Step {V : Type 0} (Allowed : Trips → Type 0) (describe : SqlError → String) (s : Running V)
    : Running V → Type 0 where
  -- `Writer::send`, which waits for room
  send :
      (r : PendingWrite V) (rs : List (PendingWrite V))
      → s.to_send ≡ r ∷ rs
      → s.stopped ≡ false
      → length s.queue < write_queue_size
      → Step Allowed describe s (record s { to_send = rs; queue = s.queue ++ r ∷ [] })
  -- `Writer::send` once the task is gone: the row is dropped
  refuse :
      (r : PendingWrite V) (rs : List (PendingWrite V))
      → s.to_send ≡ r ∷ rs
      → s.stopped ≡ true
      → Step Allowed describe s (record s {
        to_send = rs;
        writer = record s.writer {
          metrics = record s.writer.metrics {
            db_write_errors = inc s.writer.metrics.db_write_errors;
          };
        };
      })
  -- `drop(pipeline)`, after `pipeline.run()` has returned
  drop_pipeline : s.to_send ≡ [] → Step Allowed describe s (record s { connected = false })
  -- `rx.recv()` yields a row
  receive :
      (r : PendingWrite V) (rs : List (PendingWrite V)) (trips : Trips) (clock : Clock)
      (writer : State V) (stopped : Bool)
      → s.stopped ≡ false
      → s.queue ≡ r ∷ rs
      → Allowed trips
      → select describe (row r) trips clock s.writer ≡ some (writer, stopped)
      → Step Allowed describe s (record s { queue = rs; writer = writer; stopped = stopped })
  -- `rx.recv()` yields the end of the channel
  end_queue :
      (trips : Trips) (clock : Clock) (writer : State V) (stopped : Bool)
      → s.stopped ≡ false
      → s.queue ≡ []
      → s.connected ≡ false
      → Allowed trips
      → select describe closed trips clock s.writer ≡ some (writer, stopped)
      → Step Allowed describe s (record s { writer = writer; stopped = stopped })
  -- the timer fires
  fire :
      (trips : Trips) (clock : Clock) (writer : State V) (stopped : Bool)
      → s.stopped ≡ false
      → Allowed trips
      → select describe tick trips clock s.writer ≡ some (writer, stopped)
      → Step Allowed describe s (record s { writer = writer; stopped = stopped })
  -- another task writes to the database
  elsewhere :
      (db : Db V)
      → ((r : PendingWrite V) → IsKept s.writer.db r → IsKept db r)
      → Step Allowed describe s (record s { writer = record s.writer { db = db } })

-- The states that a run over `rows` can come to by such steps.
pub data Reach {V : Type 0} (Allowed : Trips → Type 0) (describe : SqlError → String)
    (rows : List (PendingWrite V)) (db : State V) : Running V → Type 0 where
  start : Reach Allowed describe rows db (spawned rows db)
  later :
      {s t : Running V}
      → Reach Allowed describe rows db s
      → Step Allowed describe s t
      → Reach Allowed describe rows db t
