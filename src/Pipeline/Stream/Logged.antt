-- ===== src/Pipeline/Stream/Logged.antt =====
-- What the processors log for a stream of instructions when there is no database, as in a
-- verification (src/processors/, src/verify.rs).
use solana_realtime_indexer.Prelude.{
  ℕ, String, List, [], ◌∷◌, ◌++◌, Bool, true, false, Option, none, some, Eq, ◌≡◌, refl, ap, ◌∙◌,
  inl, inr, arith, append_assoc, append-nil, Bool-cases,
}
use solana_realtime_indexer.Identity.{EventId}
use solana_realtime_indexer.Db.Schema.{PendingWrite}
use solana_realtime_indexer.Db.Result.{Reply}
use solana_realtime_indexer.Processors.World.{
  World, Meta, Moment, event_id, see_slot, log_event, send, skip_failed,
}
use solana_realtime_indexer.Processors.Pumpfun
use solana_realtime_indexer.Processors.PumpSwap
use solana_realtime_indexer.Pipeline.Stream.{
  Delivered, pumpfun, pumpswap, looked_up, then_deliver, deliver, run_stream,
}
use solana_realtime_indexer.Pipeline.Stream.Events.{ids_in_pumpswap, ids_in, all_ids}

module _ {P V : Type 0} where
  -- The state of a pipeline that has no resolver.
  abbrev pub bare : World V → List (P × ℕ) → PumpSwap.Swap P V
  bare w requested = record { world = w; resolver = none; requested = requested }

  -- It has returned with no resolver still, and its log has these events.
  abbrev pub Logged : List EventId → List (P × ℕ) → Option (PumpSwap.Swap P V) → Type 0
  Logged log requested o = (w : World V) × (o ≡ some (bare w requested)) × (w.events ≡ some log)

module _ {P V : Type 0} ⦃e : Eq P⦄ (wsol : P) (to_string : P → String)
    (trade_value : Pumpfun.TradeEvent P → V) (buy_value : PumpSwap.BuyEvent P → V)
    (sell_value : PumpSwap.SellEvent P → V) where
  events-send :
      (row : PendingWrite V) (at : Moment) (w : World V) → (send at row w).events ≡ w.events
  unfolding send
  events-send row at w = ground arith

  events-log_event :
      (meta : Meta) (at : Moment) (w : World V) (log : List EventId)
      → w.events ≡ some log
      → (log_event meta at w).events ≡ some (log ++ event_id meta ∷ [])
  unfolding log_event
  events-log_event meta at w log e = rw e refl

  events-trade :
      (meta : Meta) (at : Moment) (i : Pumpfun.Instruction P) (w : World V) (log : List EventId)
      → w.events ≡ some log
      → (Pumpfun.process to_string trade_value meta at i w).events
        ≡ some (log ++ ids_in (pumpfun meta at i))
  unfolding Pumpfun.process see_slot skip_failed
  events-trade meta at Pumpfun.other w log e = elim (Bool-cases meta.failed) [
    | inl failed ↦ rw failed (rw append-nil e)
    | inr ran ↦ rw ran (rw append-nil e)
  ]
  events-trade meta at (Pumpfun.trade_event trade) w log e = elim (Bool-cases meta.failed) [
    | inl failed ↦ rw failed (rw append-nil e)
    | inr ran ↦ rw ran (
        events-send (Pumpfun.pending to_string trade_value meta at trade) at
          (log_event meta at (see_slot meta at w))
        ∙ events-log_event meta at (see_slot meta at w) log e)
  ]

  handle_swap-Logged :
      (meta : Meta) (at : Moment) (taken : Bool) (party : PumpSwap.Party P) (event_type : String)
      (payload : V) (b q : ℕ) (a : Bool) (w : World V) (requested : List (P × ℕ))
      (log : List EventId)
      → w.events ≡ some log
      → Logged (log ++ event_id meta ∷ []) requested (
          some (
            PumpSwap.handle_swap wsol to_string meta at taken party event_type payload b q a
              (bare w requested)))
  unfolding PumpSwap.handle_swap
  handle_swap-Logged meta at taken party event_type payload b q a w requested log e =
      (_, refl, events-send _ at (log_event meta at w) ∙ events-log_event meta at w log e)

  dispatch-Logged :
      (meta : Meta) (at : Moment) (taken : Bool) (reply : Reply) (i : PumpSwap.Instruction P)
      (w : World V) (requested : List (P × ℕ)) (log : List EventId)
      → w.events ≡ some log
      → Logged (log ++ ids_in_pumpswap meta i) requested (
          PumpSwap.dispatch wsol to_string buy_value sell_value meta at taken reply i
            (bare w requested))
  unfolding PumpSwap.dispatch PumpSwap.handle_create PumpSwap.insert_created
  dispatch-Logged meta at taken reply (PumpSwap.buy_event t) w requested log e =
      handle_swap-Logged meta at taken (PumpSwap.buy_party t) "BuyEvent" (buy_value t)
        t.base_amount_out t.quote_amount_in true w requested log e
  dispatch-Logged meta at taken reply (PumpSwap.sell_event t) w requested log e =
      handle_swap-Logged meta at taken (PumpSwap.sell_party t) "SellEvent" (sell_value t)
        t.base_amount_in t.quote_amount_out false w requested log e
  dispatch-Logged meta at taken reply (PumpSwap.create_pool_event ev) w requested log e =
      (w, refl, rw append-nil e)
  dispatch-Logged meta at taken reply PumpSwap.other_event w requested log e =
      (w, refl, rw append-nil e)
  dispatch-Logged meta at taken reply PumpSwap.other w requested log e = (w, refl, rw append-nil e)

  deliver-Logged :
      (d : Delivered P) (w : World V) (requested : List (P × ℕ)) (log : List EventId)
      → w.events ≡ some log
      → Logged
          (log ++ ids_in d)
          requested
          (deliver wsol to_string trade_value buy_value sell_value d (bare w requested))
  unfolding deliver PumpSwap.process see_slot skip_failed
  deliver-Logged (pumpfun meta at i) w requested log e = (_, refl, events-trade meta at i w log e)
  deliver-Logged (pumpswap meta at taken reply i) w requested log e =
      elim (Bool-cases meta.failed) [
        | inl failed ↦ simp failed (_, refl, rw append-nil e)
        | inr ran ↦
            simp ran (dispatch-Logged meta at taken reply i (see_slot meta at w) requested log e)
      ]
  deliver-Logged (looked_up pool b q) w requested log e = (w, refl, rw append-nil e)

  pub run_stream-Logged :
      (ds : List (Delivered P)) (w : World V) (requested : List (P × ℕ)) (log : List EventId)
      → w.events ≡ some log
      → Logged
          (log ++ all_ids ds)
          requested
          (run_stream wsol to_string trade_value buy_value sell_value ds (bare w requested))
  unfolding run_stream
  run_stream-Logged [] w requested log e = (w, refl, rw append-nil e)
  run_stream-Logged (d ∷ ds) w requested log e =
      let (w', delivered, e') = deliver-Logged d w requested log e in
      let (w'', ran, e'') = run_stream-Logged ds w' requested (log ++ ids_in d) e' in
      (
        w'',
        ap (λ o. then_deliver o (run_stream wsol to_string trade_value buy_value sell_value ds))
              delivered
            ∙ ran,
        e'' ∙ ap some (append_assoc log (ids_in d) (all_ids ds)),
      )
