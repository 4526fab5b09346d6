-- ===== src/Pipeline/Alone.antt =====
-- What a verification of a stream finds, once a pipeline that writes alone has stored it
-- (src/pipeline.rs, src/processors/, src/writer.rs, src/verify.rs).
use solana_realtime_indexer.Prelude.{
  String, List, [], Bool, true, Option, some, Eq, ◌≡◌, ◌⊎◌, inl, inr, All, All-In, All-of_In, In,
  In-map,
}
use solana_realtime_indexer.Identity.{EventId}
use solana_realtime_indexer.Commands.{Datasource, PipelineArgs, verify_args}
use solana_realtime_indexer.Db.Schema.{EventRow, PendingWrite, Db}
use solana_realtime_indexer.Db.Result.{SqlError, served}
use solana_realtime_indexer.Metrics.{Metrics}
use solana_realtime_indexer.Processors.Pumpfun
use solana_realtime_indexer.Processors.PumpSwap
use solana_realtime_indexer.Verify.{row_id}
use solana_realtime_indexer.Verify.Run.{run_verify}
use solana_realtime_indexer.Writer.Flush.{State}
use solana_realtime_indexer.Pipeline.{Parks, Running, Reach}
use solana_realtime_indexer.Pipeline.Wiring.{wired}
use solana_realtime_indexer.Pipeline.Stream.{Delivered, then_deliver, run_stream}
use solana_realtime_indexer.Pipeline.Stream.Events.{ids_of, IsServed}
use solana_realtime_indexer.Pipeline.Exact.{IsAlone, Reach-events}
use solana_realtime_indexer.Pipeline.Verified.{log_of, sent_of, stopped-verified}

-- Each row with a signature of the stream is one of the stream's events.
abbrev pub OnlyTheirs : {V : Type 0} → List (PendingWrite V) → List (EventRow V) → Type 0
OnlyTheirs {V} rows events =
    (e : EventRow V) (x : EventId)
    → In e events
    → In x (ids_of rows)
    → e.signature ≡ x.signature
    → In (row_id e) (ids_of rows)

module _ {V : Type 0} (describe : SqlError → String) where
  -- The row was in `events` before, or is an event of the stream.
  stopped-origin :
      (rows : List (PendingWrite V)) (w : State V) (s : Running V) (e : EventRow V)
      → w.batch ≡ []
      → (r : Reach Parks describe rows w s) → IsAlone r
      → In e s.writer.db.events
      → In e w.db.events ⊎ In (row_id e) (ids_of rows)
  stopped-origin rows w s e empty r alone m =
      let P : EventRow V → Type 0 = λ x. In x w.db.events ⊎ In (row_id x) (ids_of rows) in
      let (_, _, (_, events)) =
        Reach-events describe P rows w r alone
          (All-of_In _ rows (λ x n. inr (In-map (λ (y : PendingWrite V). row_id y.event) rows x n)))
          (rw empty tt, All-of_In P w.db.events (λ x n. inl n)) in
      All-In P s.writer.db.events events m

  stopped-OnlyTheirs :
      (rows : List (PendingWrite V)) (w : State V) (s : Running V)
      → w.batch ≡ []
      → (r : Reach Parks describe rows w s) → IsAlone r
      → OnlyTheirs rows w.db.events
      → OnlyTheirs rows s.writer.db.events
  stopped-OnlyTheirs rows w s empty r alone only e x m n same =
      elim (stopped-origin rows w s e empty r alone m) [
        | inl old ↦ only e x old n same
        | inr theirs ↦ theirs
      ]

module _ {P V : Type 0} ⦃e : Eq P⦄ (from_str : String → Option P) (wsol : P)
    (to_string : P → String) (trade_value : Pumpfun.TradeEvent P → V)
    (buy_value : PumpSwap.BuyEvent P → V) (sell_value : PumpSwap.SellEvent P → V) where
  -- A pipeline with a database runs over a stream of instructions of both programs, with any
  -- lookups of pools in between and its database answering the processors. Each flush that fails
  -- parks its batch, and the writer task stops with nothing in `dead_letters`, while no other task
  -- adds a row to `events`; before, `events` held no row with a signature of the stream but events
  -- of the stream (it may have been empty). A verification then replays the same stream through a
  -- pipeline of its own, and is clean, whatever the order of the tasks' steps.
  pub IsAlone-verified :
      (describe : SqlError → String) (ds : List (Delivered P)) (source : Datasource)
      (args : PipelineArgs) (answered answered' : Bool) (db db' : Db V) (m m' : Metrics)
      (rows : List (PendingWrite V)) (w : State V) (s : Running V)
      → args.db ≡ true
      → All IsServed ds
      → sent_of (
          then_deliver
            (wired from_str args answered db m)
            (run_stream wsol to_string trade_value buy_value sell_value ds))
        ≡ some rows
      → w.batch ≡ []
      → (r : Reach Parks describe rows w s) → IsAlone r
      → OnlyTheirs rows w.db.events
      → s.stopped ≡ true
      → s.writer.db.dead_letters ≡ []
      → run_verify
          (log_of (
            then_deliver
              (wired from_str (verify_args source) answered' db' m')
              (run_stream wsol to_string trade_value buy_value sell_value ds)))
          served
          s.writer.db
        ≡ some true
  IsAlone-verified describe ds source args answered answered' db db' m m' rows w s stored served_
        sent empty r alone only done none_parked =
      stopped-verified from_str wsol to_string trade_value buy_value sell_value describe ds source
        args answered answered' db db' m m' rows w s stored served_ sent empty r done none_parked
        (stopped-OnlyTheirs describe rows w s empty r alone only)
