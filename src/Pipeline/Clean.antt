-- ===== src/Pipeline/Clean.antt =====
-- A run of `run_pipeline` in which nothing fails, from the stream to its verification
-- (src/pipeline.rs, src/processors/, src/writer.rs, src/verify.rs).
use solana_realtime_indexer.Prelude.{
  String, List, [], ◌∷◌, Bool, true, Option, some, none, Eq, ◌≡◌, sym, ◌∙◌, ap, subst, All,
  All-append,
}
use solana_realtime_indexer.Commands.{Datasource, PipelineArgs, verify_args}
use solana_realtime_indexer.Db.Schema.{PendingWrite, Db, event_key, trade_key}
use solana_realtime_indexer.Db.Result.{SqlError, served}
use solana_realtime_indexer.Db.Write.{references_hold}
use solana_realtime_indexer.Db.Integrity.{IsWellFormed, IsAdmitted}
use solana_realtime_indexer.Identity.{key_eq}
use solana_realtime_indexer.Table.Laws.{IsKeyed}
use solana_realtime_indexer.Metrics.{Metrics}
use solana_realtime_indexer.Processors.Pumpfun
use solana_realtime_indexer.Processors.PumpSwap
use solana_realtime_indexer.Processors.PumpSwap.{Swap}
use solana_realtime_indexer.Processors.Typed.{AllSound, SoundIn}
use solana_realtime_indexer.Verify.Run.{run_verify}
use solana_realtime_indexer.Writer.Flush.{State, Trips, Clock}
use solana_realtime_indexer.Writer.Admitted.{IsAnswered, IsSound}
use solana_realtime_indexer.Writer.Loop.{Arm, row, closed, tick, select}
use solana_realtime_indexer.Writer.Lossless.{rows_of}
use solana_realtime_indexer.Pipeline.{
  Parks, Running, Step, send, refuse, drop_pipeline, receive, end_queue, fire, elsewhere, Reach,
  start, later,
}
use solana_realtime_indexer.Pipeline.Wiring.{wired, attach}
use solana_realtime_indexer.Pipeline.Stream.{Delivered, then_deliver, run_stream}
use solana_realtime_indexer.Pipeline.Stream.Events.{IsServed}
use solana_realtime_indexer.Pipeline.Verified.{log_of, sent_of, Fresh, wired-Fresh}
use solana_realtime_indexer.Pipeline.Alone.{OnlyTheirs, IsAlone-verified}
use solana_realtime_indexer.Pipeline.Typed.{
  HasWords, then-SoundIn, run_stream-SoundIn, sent-IsSound,
}
use solana_realtime_indexer.Pipeline.Smooth.{
  IsLeft, IsSmoothStep, IsSmooth, smooth-IsAlone, IsClean, CleanTurn, select-CleanTurn,
}

module _ {V : Type 0} where
  abbrev IsCleanRun : Running V → Type 0
  IsCleanRun s = All IsSound s.to_send × All IsSound s.queue × IsClean s.writer

  left-IsWellFormed : (db db' : Db V) → IsLeft db db' → IsWellFormed db → IsWellFormed db'
  left-IsWellFormed db db' (events, trades, _) w = record {
    events_keyed = subst (IsKeyed event_key) (sym events) w.events_keyed;
    trades_keyed = subst (IsKeyed trade_key) (sym trades) w.trades_keyed;
    admitted = subst (All IsAdmitted) (sym trades) w.admitted;
    references =
        ap (λ e. references_hold e db'.trades) events
        ∙ ap (λ t. references_hold db.events t) trades
        ∙ w.references;
  }

module _ {V : Type 0} (describe : SqlError → String) where
  turned-IsClean :
      (arm : Arm V) (trips : Trips) (clock : Clock) (w w' : State V) (stop : Bool)
      → select describe arm trips clock w ≡ some (w', stop)
      → IsAnswered trips
      → All IsSound (rows_of arm)
      → IsClean w
      → IsClean w'
  turned-IsClean arm trips clock w w' stop o a p h =
      subst CleanTurn o (select-CleanTurn describe arm trips clock w a p h)

  Step-IsCleanRun :
      {s t : Running V} (st : Step Parks describe s t)
      → IsSmoothStep st
      → IsCleanRun s
      → IsCleanRun t
  Step-IsCleanRun {s} (send r rs e up room) a (ts, q, h) =
      let now : All IsSound (r ∷ rs) = subst (All IsSound) e ts in
      (now.1, All-append IsSound s.queue (r ∷ []) q (now.0, tt), h)
  Step-IsCleanRun {s} (refuse r rs e gone) a (ts, q, h) = (
    (subst (All IsSound) e ts).1,
    q,
    record { well = h.well; none_parked = h.none_parked; sound = h.sound },
  )
  Step-IsCleanRun (drop_pipeline e) a h = h
  Step-IsCleanRun {s} (receive r rs trips clock w stop up e p o) a (ts, q, h) =
      let now : All IsSound (r ∷ rs) = subst (All IsSound) e q in
      (ts, now.1, turned-IsClean (row r) trips clock s.writer w stop o a (now.0, tt) h)
  Step-IsCleanRun {s} (end_queue trips clock w stop up e gone p o) a (ts, q, h) =
      (ts, q, turned-IsClean closed trips clock s.writer w stop o a tt h)
  Step-IsCleanRun {s} (fire trips clock w stop up p o) a (ts, q, h) =
      (ts, q, turned-IsClean tick trips clock s.writer w stop o a tt h)
  Step-IsCleanRun {s} (elsewhere db keeps) left (ts, q, h) = (
    ts,
    q,
    record {
      well = left-IsWellFormed s.writer.db db left h.well;
      none_parked = left.2 ∙ h.none_parked;
      sound = h.sound;
    },
  )

  Reach-IsCleanRun :
      (rows : List (PendingWrite V)) (w : State V) {s : Running V}
      (r : Reach Parks describe rows w s)
      → IsSmooth r
      → All IsSound rows
      → IsClean w
      → IsCleanRun s
  Reach-IsCleanRun rows w start a sound h = (sound, tt, h)
  Reach-IsCleanRun rows w (later r st) a sound h =
      Step-IsCleanRun st a.1 (Reach-IsCleanRun rows w r a.0 sound h)

module _ {P V : Type 0} ⦃e : Eq P⦄ (from_str : String → Option P) (wsol : P)
    (to_string : P → String) (trade_value : Pumpfun.TradeEvent P → V)
    (buy_value : PumpSwap.BuyEvent P → V) (sell_value : PumpSwap.SellEvent P → V) where
  Fresh-SoundIn :
      (args : PipelineArgs) (o : Option (Swap P V)) → args.db ≡ true → Fresh args o → SoundIn o
  Fresh-SoundIn args none stored fresh = tt
  Fresh-SoundIn args (some x) stored fresh =
      subst AllSound (sym (fresh ∙ ap (λ b. attach b []) stored)) tt

  -- A pipeline with a database runs over a stream of instructions of both programs, whose amounts
  -- have 64 bits, with any lookups of pools in between. The database answers the processors and
  -- each statement of the writer task, while the other tasks leave `events`, `trades` and
  -- `dead_letters` alone; the tables keep the constraints of the schema at the start, with
  -- nothing in `dead_letters` and, under the signatures of the stream, no other events than the
  -- stream's. Then, when the writer task has stopped, there is nothing in `dead_letters`, the
  -- tables keep the constraints, and a verification that replays the same stream is clean.
  pub IsSmooth-verified :
      (describe : SqlError → String) (ds : List (Delivered P)) (source : Datasource)
      (args : PipelineArgs) (answered answered' : Bool) (db db' : Db V) (m m' : Metrics)
      (rows : List (PendingWrite V)) (w : State V) (s : Running V)
      → args.db ≡ true
      → All IsServed ds
      → All HasWords ds
      → sent_of (
          then_deliver
            (wired from_str args answered db m)
            (run_stream wsol to_string trade_value buy_value sell_value ds))
        ≡ some rows
      → w.batch ≡ []
      → IsWellFormed w.db
      → w.db.dead_letters ≡ []
      → OnlyTheirs rows w.db.events
      → (r : Reach Parks describe rows w s) → IsSmooth r
      → s.stopped ≡ true
      → (s.writer.db.dead_letters ≡ [])
        × IsWellFormed s.writer.db
        × (run_verify
              (log_of (
                then_deliver
                  (wired from_str (verify_args source) answered' db' m')
                  (run_stream wsol to_string trade_value buy_value sell_value ds)))
              served
              s.writer.db
            ≡ some true)
  IsSmooth-verified describe ds source args answered answered' db db' m m' rows w s stored served_
        words sent empty well none_parked only r smooth done =
      let run : Swap P V → Option (Swap P V) =
        run_stream wsol to_string trade_value buy_value sell_value ds in
      let sound : All IsSound rows =
        sent-IsSound (then_deliver (wired from_str args answered db m) run) rows
          (then-SoundIn (wired from_str args answered db m) run
            (Fresh-SoundIn args (wired from_str args answered db m) stored (
              wired-Fresh from_str wsol to_string trade_value buy_value sell_value args answered db
                m))
            (λ x h.
              run_stream-SoundIn wsol to_string trade_value buy_value sell_value ds x words h))
          sent in
      let (_, _, clean) =
        Reach-IsCleanRun describe rows w r smooth sound
          (record { well = well; none_parked = none_parked; sound = rw empty tt }) in
      (
        clean.none_parked,
        clean.well,
        IsAlone-verified from_str wsol to_string trade_value buy_value sell_value describe ds source
            args answered answered' db db' m m' rows w s stored served_ sent empty r
            (smooth-IsAlone r smooth) only done clean.none_parked,
      )
