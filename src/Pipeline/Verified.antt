-- ===== src/Pipeline/Verified.antt =====
-- What a verification of a stream finds, once a pipeline has stored it (src/pipeline.rs, src/processors/,
-- src/writer.rs, src/verify.rs).
use solana_realtime_indexer.Prelude.{
  String, List, [], ◌∷◌, Bool, true, Option, some, none, Eq, ◌≡◌, refl, sym, ap, ◌∙◌, subst, inl,
  inr, arith, In, All, Bool-cases, as_u64, unwrap_or, ◌%◌, ◌^◌,
}
use solana_realtime_indexer.Identity.{EventId, EventKey, key_eq}
use solana_realtime_indexer.Commands.{Datasource, PipelineArgs, verify_args}
use solana_realtime_indexer.Db.Schema.{
  EventRow, PendingWrite, Db, event_key, letter_key, pending_key,
}
use solana_realtime_indexer.Db.Result.{SqlError, served}
use solana_realtime_indexer.Metrics.{Metrics}
use solana_realtime_indexer.Processors.Pumpfun
use solana_realtime_indexer.Processors.PumpSwap
use solana_realtime_indexer.Processors.PumpSwap.{Swap, Handles}
use solana_realtime_indexer.Table.Laws.{contains-found}
use solana_realtime_indexer.Verify.{row_id}
use solana_realtime_indexer.Verify.Run.{run_verify}
use solana_realtime_indexer.Verify.Complete.{run_verify_iff}
use solana_realtime_indexer.Writer.Flush.{State}
use solana_realtime_indexer.Writer.Kept.{IsKept}
use solana_realtime_indexer.Pipeline.{Parks, Running, Reach}
use solana_realtime_indexer.Pipeline.Stopped.{stopped-IsKept}
use solana_realtime_indexer.Pipeline.Wiring.{world_of, swap_of, primed, attach, wired}
use solana_realtime_indexer.Pipeline.Stream.{Delivered, then_deliver, run_stream}
use solana_realtime_indexer.Pipeline.Stream.Events.{ids_of, all_ids, IsServed}
use solana_realtime_indexer.Pipeline.Stream.Sent.{Sent, run_stream-Sent}
use solana_realtime_indexer.Pipeline.Stream.Logged.{run_stream-Logged}

abbrev key_id : EventKey → EventId
key_id k = record {
  signature = k.signature;
  absolute_path = k.absolute_path;
  event_ordinal = as_u64 k.event_ordinal % 2 ^ 32;
}

module _ {V : Type 0} where
  -- The row in `events` of a row that was written.
  kept-found :
      (db : Db V) (r : PendingWrite V)
      → db.dead_letters ≡ []
      → IsKept db r
      → (e : EventRow V) × In e db.events × (row_id r.event ≡ row_id e)
  kept-found db r none_parked (inl stored) =
      let (e, m, same) = contains-found event_key db.events (pending_key r) stored in
      (e, m, ap key_id (sym same))
  kept-found db r none_parked (inr parked) =
      let (l, m, _) = contains-found letter_key db.dead_letters (pending_key r) parked in
      absurd (subst (In l) none_parked m)

  ids-found :
      (db : Db V) (rows : List (PendingWrite V)) (x : EventId)
      → db.dead_letters ≡ []
      → All (IsKept db) rows
      → In x (ids_of rows)
      → (e : EventRow V) × In e db.events × (x ≡ row_id e)
  ids-found db [] x none_parked kept m = absurd m
  ids-found db (r ∷ rows) x none_parked kept (inl same) =
      let (e, m, found) = kept-found db r none_parked kept.0 in (e, m, same ∙ found)
  ids-found db (r ∷ rows) x none_parked kept (inr m) = ids-found db rows x none_parked kept.1 m

-- The log and the rows sent of a run that has returned.
abbrev pub log_of : {P V : Type 0} → Option (Swap P V) → Option (List EventId)
log_of none = none
log_of (some x) = x.world.events

abbrev pub sent_of : {P V : Type 0} → Option (Swap P V) → Option (List (PendingWrite V))
sent_of none = none
sent_of (some x) = x.world.written

-- A pipeline that starts has sent nothing yet, to a writer if there is a database.
abbrev pub Fresh : {P V : Type 0} → PipelineArgs → Option (Swap P V) → Type 0
Fresh args none = Unit
Fresh args (some x) = x.world.written ≡ attach args.db []

Sent-ids :
    {P V : Type 0} (rows : List (PendingWrite V)) (ids : List EventId) (o : Option (Swap P V))
    → Sent [] ids o
    → sent_of o ≡ some rows
    → ids_of rows ≡ ids
Sent-ids rows ids none sent same = absurd sent
Sent-ids rows ids (some x) (new, written, these) same =
    ap (λ o. ids_of (unwrap_or rows o)) (sym same ∙ written) ∙ these

module _ {P V : Type 0} ⦃e : Eq P⦄ (from_str : String → Option P) (wsol : P)
    (to_string : P → String) (trade_value : Pumpfun.TradeEvent P → V)
    (buy_value : PumpSwap.BuyEvent P → V) (sell_value : PumpSwap.SellEvent P → V) where
  resolved-Fresh :
      (args : PipelineArgs) (handles : Option (Handles P V)) (m : Metrics)
      → Fresh {V = V} args (elim handles [ none ↦ none | some h ↦ some (swap_of args (some h) m) ])
  resolved-Fresh args none m = tt
  resolved-Fresh args (some h) m = refl

  pub wired-Fresh :
      (args : PipelineArgs) (answered : Bool) (db : Db V) (m : Metrics)
      → Fresh args (wired from_str args answered db m)
  unfolding wired
  wired-Fresh args answered db m = elim (Bool-cases args.rpc) [
    | inl rpc ↦ simp rpc (resolved-Fresh args (primed from_str answered (attach args.db db) m) m)
    | inr bare ↦ simp bare refl
  ]

  started-ids :
      (args : PipelineArgs) (ds : List (Delivered P)) (rows : List (PendingWrite V))
      (o : Option (Swap P V))
      → args.db ≡ true
      → All IsServed ds
      → Fresh args o
      → sent_of (then_deliver o (run_stream wsol to_string trade_value buy_value sell_value ds))
        ≡ some rows
      → ids_of rows ≡ all_ids ds
  started-ids args ds rows none stored answered fresh sent = ground arith
  started-ids args ds rows (some x) stored answered fresh sent =
      Sent-ids rows (all_ids ds) (run_stream wsol to_string trade_value buy_value sell_value ds x)
        (run_stream-Sent wsol to_string trade_value buy_value sell_value ds x [] answered
          (fresh ∙ ap (λ b. attach b []) stored))
        sent

  verified-log :
      (ds : List (Delivered P)) (source : Datasource) (answered : Bool) (db : Db V) (m : Metrics)
      → log_of (
          then_deliver
            (wired from_str (verify_args source) answered db m)
            (run_stream wsol to_string trade_value buy_value sell_value ds))
        ≡ some (all_ids ds)
  unfolding wired
  verified-log ds source answered db m =
      let (w, ran, logged) =
        run_stream-Logged wsol to_string trade_value buy_value sell_value ds
          (world_of (verify_args source) m) [] [] refl in
      ap log_of ran ∙ logged

  -- A pipeline with a database runs over a stream of instructions of both programs, its database
  -- answering the processors, and its writer task stops with nothing in `dead_letters`; a
  -- verification replays the same stream through a pipeline of its own. Then the verification is
  -- clean, whatever the order of the tasks' steps, if each row of `events` with a signature of the
  -- stream is one of the stream's events.
  pub stopped-verified :
      (describe : SqlError → String) (ds : List (Delivered P)) (source : Datasource)
      (args : PipelineArgs) (answered answered' : Bool) (db db' : Db V) (m m' : Metrics)
      (rows : List (PendingWrite V)) (w : State V) (s : Running V)
      → args.db ≡ true
      → All IsServed ds
      → sent_of (
          then_deliver
            (wired from_str args answered db m)
            (run_stream wsol to_string trade_value buy_value sell_value ds))
        ≡ some rows
      → w.batch ≡ []
      → Reach Parks describe rows w s
      → s.stopped ≡ true
      → s.writer.db.dead_letters ≡ []
      → ((r : EventRow V) (x : EventId)
          → In r s.writer.db.events
          → In x (ids_of rows)
          → r.signature ≡ x.signature
          → In (row_id r) (ids_of rows))
      → run_verify
          (log_of (
            then_deliver
              (wired from_str (verify_args source) answered' db' m')
              (run_stream wsol to_string trade_value buy_value sell_value ds)))
          served
          s.writer.db
        ≡ some true
  stopped-verified describe ds source args answered answered' db db' m m' rows w s stored served_
        sent empty r done none_parked only =
      let same : ids_of rows ≡ all_ids ds =
        started-ids args ds rows (wired from_str args answered db m) stored served_
          (wired-Fresh args answered db m) sent in
      let (kept, _) = stopped-IsKept describe rows w s empty r done in
      rw (verified-log ds source answered' db' m' ∙ ap some (sym same)) (
        (run_verify_iff (ids_of rows) s.writer.db).1
          ((λ x n. ids-found s.writer.db rows x none_parked kept n), only))
