-- ===== src/Pipeline/Stream/Sent.antt =====
-- What the processors send to the writer for a stream of instructions (src/processors/).
use solana_realtime_indexer.Prelude.{
  String, List, [], ◌∷◌, ◌++◌, Bool, true, Option, none, some, Eq, ◌≡◌, refl, ap, ◌∙◌, inl, inr,
  arith, All, append_assoc, append-nil, Bool-cases, as_u64,
}
use solana_realtime_indexer.Identity.{EventId}
use solana_realtime_indexer.Db.Schema.{PendingWrite}
use solana_realtime_indexer.Db.Result.{Reply}
use solana_realtime_indexer.Processors.World.{Meta, Moment}
use solana_realtime_indexer.Processors.Pumpfun
use solana_realtime_indexer.Processors.Pumpfun.Run
use solana_realtime_indexer.Processors.Pumpfun.Run.{Delivery}
use solana_realtime_indexer.Processors.PumpSwap
use solana_realtime_indexer.Processors.PumpSwap.Rows.{Wrote, process-Wrote, rows_of}
use solana_realtime_indexer.Verify.{row_id}
use solana_realtime_indexer.Pipeline.Stream.{
  Delivered, pumpfun, pumpswap, looked_up, then_deliver, deliver, run_stream,
}
use solana_realtime_indexer.Pipeline.Stream.Events.{ids_of, map-append, ids_in, all_ids, IsServed}

module _ {P V : Type 0} where
  -- The run has returned, and has sent rows of these events after the rows of before.
  abbrev pub Sent : List (PendingWrite V) → List EventId → Option (PumpSwap.Swap P V) → Type 0
  Sent rows ids none = ⊥
  Sent rows ids (some x) =
      (new : List (PendingWrite V)) × (x.world.written ≡ some (rows ++ new)) × (ids_of new ≡ ids)

module _ {P V : Type 0} ⦃e : Eq P⦄ (wsol : P) (to_string : P → String)
    (trade_value : Pumpfun.TradeEvent P → V) (buy_value : PumpSwap.BuyEvent P → V)
    (sell_value : PumpSwap.SellEvent P → V) where
  ids_of-trade_rows :
      (meta : Meta) (at : Moment) (i : Pumpfun.Instruction P)
      → ids_of
          (Run.rows_of to_string trade_value (record { meta = meta; at = at; instruction = i }))
        ≡ ids_in (pumpfun meta at i)
  unfolding as_u64
  ids_of-trade_rows meta at Pumpfun.other = ground arith
  ids_of-trade_rows meta at (Pumpfun.trade_event trade) = elim (Bool-cases meta.failed) [
    | inl failed ↦ rw failed refl
    | inr ran ↦ rw ran refl
  ]

  pumpfun-Sent :
      (meta : Meta) (at : Moment) (i : Pumpfun.Instruction P) (x : PumpSwap.Swap P V)
      (rows : List (PendingWrite V))
      → at.writer_open ≡ true
      → x.world.written ≡ some rows
      → Sent rows
          (ids_in (pumpfun meta at i))
          (deliver wsol to_string trade_value buy_value sell_value (pumpfun meta at i) x)
  unfolding deliver
  pumpfun-Sent meta at i x rows open_ e =
      let d : Delivery P = record { meta = meta; at = at; instruction = i } in
      (
        Run.rows_of to_string trade_value d,
        Run.written-process to_string trade_value d x.world rows open_ e,
        ids_of-trade_rows meta at i,
      )

  ids_of-rows_of :
      (meta : Meta) (at : Moment) (taken : Bool) (reply : Reply) (i : PumpSwap.Instruction P)
      (x : PumpSwap.Swap P V)
      → ids_of (rows_of wsol to_string buy_value sell_value meta at i x)
        ≡ ids_in (pumpswap meta at taken reply i)
  unfolding as_u64
  ids_of-rows_of meta at taken reply (PumpSwap.buy_event t) x = elim (Bool-cases meta.failed) [
    | inl failed ↦ rw failed refl
    | inr ran ↦ rw ran refl
  ]
  ids_of-rows_of meta at taken reply (PumpSwap.sell_event t) x = elim (Bool-cases meta.failed) [
    | inl failed ↦ rw failed refl
    | inr ran ↦ rw ran refl
  ]
  ids_of-rows_of meta at taken reply (PumpSwap.create_pool_event ev) x = ground arith
  ids_of-rows_of meta at taken reply PumpSwap.other_event x = ground arith
  ids_of-rows_of meta at taken reply PumpSwap.other x = ground arith

  Wrote-Sent :
      (rows new : List (PendingWrite V)) (ids : List EventId) (o : Option (PumpSwap.Swap P V))
      → Wrote (rows ++ new) o
      → ids_of new ≡ ids
      → Sent rows ids o
  Wrote-Sent rows new ids none w same = w
  Wrote-Sent rows new ids (some x) w same = (new, w, same)

  deliver-Sent :
      (d : Delivered P) (x : PumpSwap.Swap P V) (rows : List (PendingWrite V))
      → IsServed d
      → x.world.written ≡ some rows
      → Sent rows (ids_in d) (deliver wsol to_string trade_value buy_value sell_value d x)
  unfolding deliver
  deliver-Sent (pumpfun meta at i) x rows open_ e = pumpfun-Sent meta at i x rows open_ e
  deliver-Sent (pumpswap meta at taken reply i) x rows (open_, answered) e =
      let new = rows_of wsol to_string buy_value sell_value meta at i x in
      rw answered (
        Wrote-Sent rows new (ids_in (pumpswap meta at taken reply i)) _
          (process-Wrote wsol to_string buy_value sell_value meta at taken i x rows open_ e)
          (ids_of-rows_of meta at taken reply i x))
  deliver-Sent (looked_up pool b q) x rows h e = ([], rw append-nil e, refl)

  after-Sent :
      (rows new : List (PendingWrite V)) (ids more : List EventId) (o : Option (PumpSwap.Swap P V))
      → ids_of new ≡ ids
      → Sent (rows ++ new) more o
      → Sent rows (ids ++ more) o
  after-Sent rows new ids more none same last = last
  after-Sent rows new ids more (some x) same (newer, e, same') = (
    new ++ newer,
    e ∙ ap some (append_assoc rows new newer),
    map-append (λ r. row_id r.event) new newer
        ∙ ap (λ l. l ++ ids_of newer) same
        ∙ ap (λ l. ids ++ l) same',
  )

  then-Sent :
      (ds : List (Delivered P)) (ids : List EventId) (rows : List (PendingWrite V))
      (o : Option (PumpSwap.Swap P V))
      → Sent rows ids o
      → ((x : PumpSwap.Swap P V) (rows' : List (PendingWrite V))
          → x.world.written ≡ some rows'
          → Sent rows'
              (all_ids ds)
              (run_stream wsol to_string trade_value buy_value sell_value ds x))
      → Sent rows
          (ids ++ all_ids ds)
          (then_deliver o (run_stream wsol to_string trade_value buy_value sell_value ds))
  then-Sent ds ids rows none first rest = first
  then-Sent ds ids rows (some x) (new, e, same) rest =
      after-Sent rows new ids (all_ids ds)
        (run_stream wsol to_string trade_value buy_value sell_value ds x) same
        (rest x (rows ++ new) e)

  pub run_stream-Sent :
      (ds : List (Delivered P)) (x : PumpSwap.Swap P V) (rows : List (PendingWrite V))
      → All IsServed ds
      → x.world.written ≡ some rows
      → Sent rows (all_ids ds) (run_stream wsol to_string trade_value buy_value sell_value ds x)
  unfolding run_stream
  run_stream-Sent [] x rows answered e = ([], rw append-nil e, refl)
  run_stream-Sent (d ∷ ds) x rows (first, others) e =
      then-Sent ds (ids_in d) rows (deliver wsol to_string trade_value buy_value sell_value d x)
        (deliver-Sent d x rows first e) (λ x' rows' e'. run_stream-Sent ds x' rows' others e')
