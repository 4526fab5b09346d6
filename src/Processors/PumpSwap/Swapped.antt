-- ===== src/Processors/PumpSwap/Swapped.antt =====
-- What becomes of a buy or a sale in the PumpSwap processor (src/processors/pumpswap.rs).
use solana_realtime_indexer.Prelude.{
  ℕ, String, List, [], ◌∷◌, ◌++◌, Bool, true, Option, none, some, Eq, get, ◌≡◌, refl, ◌∙◌, ap,
  arith,
}
use mathlib.Core.Option
use solana_realtime_indexer.Db.Schema.{PendingWrite}
use solana_realtime_indexer.Metrics.{Metrics, zeroed}
use solana_realtime_indexer.Pools.{PoolInfo, Trade}
use solana_realtime_indexer.Pools.Orient.{orient}
use solana_realtime_indexer.Processors.World.{Meta, Moment, World, log_event, event_row, send}
use solana_realtime_indexer.Processors.PumpSwap.{
  Swap, Party, resolve_and_orient, swap_row, handle_swap,
}

module _ {P V : Type 0} ⦃e : Eq P⦄ where
  -- The pool, if the cache has it.
  abbrev pub known : P → Swap P V → Option (PoolInfo P)
  known pool x = elim x.resolver [ none ↦ none | some h ↦ get pool h.cache ]

module _ {P : Type 0} ⦃e : Eq P⦄ where
  -- The trade that the amounts make in a known pool.
  abbrev pub oriented_in : P → Option (PoolInfo P) → ℕ → ℕ → Bool → Metrics → Option (Trade P)
  oriented_in wsol none base_amount quote_amount acquiring_base m = none
  oriented_in wsol (some info) base_amount quote_amount acquiring_base m =
      (orient wsol info base_amount quote_amount acquiring_base m).0

  -- Orientation does not depend on the counters.
  pub oriented_in-metrics :
      (wsol : P) (o : Option (PoolInfo P)) (b q : ℕ) (a : Bool) (m n : Metrics)
      → oriented_in wsol o b q a m ≡ oriented_in wsol o b q a n
  unfolding orient
  oriented_in-metrics wsol none b q a m n = refl
  oriented_in-metrics wsol (some info) b q a m n = ground arith

module _ {P V : Type 0} ⦃e : Eq P⦄ (wsol : P) (to_string : P → String) where
  pub written-resolve_and_orient :
      (taken acquiring_base : Bool) (now base_amount quote_amount : ℕ) (pool : P) (x : Swap P V)
      → (resolve_and_orient wsol taken now pool base_amount quote_amount acquiring_base
          x).1.world.written
        ≡ x.world.written
  unfolding resolve_and_orient
  written-resolve_and_orient taken acquiring_base now base_amount quote_amount pool x = ground arith

  pub trade-resolve_and_orient :
      (taken acquiring_base : Bool) (now base_amount quote_amount : ℕ) (pool : P) (x : Swap P V)
      → (resolve_and_orient wsol taken now pool base_amount quote_amount acquiring_base x).0
        ≡ oriented_in wsol (known pool x) base_amount quote_amount acquiring_base x.world.metrics
  unfolding resolve_and_orient
  trade-resolve_and_orient taken acquiring_base now base_amount quote_amount pool x = ground arith

  abbrev pub swap_pending :
      Meta → Moment → Party P → String → V → ℕ → ℕ → Bool → Swap P V → PendingWrite V
  swap_pending meta at party event_type payload base_amount quote_amount acquiring_base x = record {
    event = event_row meta "pumpswap" event_type payload;
    trade =
        Option.map (swap_row to_string party)
          (oriented_in wsol (known party.pool x) base_amount quote_amount acquiring_base zeroed);
    queued_at = at.now;
  }

  pub written-log_event :
      (meta : Meta) (at : Moment) (w : World V) → (log_event meta at w).written ≡ w.written
  unfolding log_event
  written-log_event meta at w = refl

  written-send :
      (at : Moment) (row : PendingWrite V) (w : World V) (rows : List (PendingWrite V))
      → at.writer_open ≡ true
      → w.written ≡ some rows
      → (send at row w).written ≡ some (rows ++ row ∷ [])
  unfolding send
  written-send at row w rows h e = ground arith

  pub handle_swap_writes :
      (meta : Meta) (at : Moment) (taken : Bool) (party : Party P) (event_type : String)
      (payload : V) (base_amount quote_amount : ℕ) (acquiring_base : Bool) (x : Swap P V)
      (rows : List (PendingWrite V))
      → at.writer_open ≡ true
      → x.world.written ≡ some rows
      → (handle_swap wsol to_string meta at taken party event_type payload base_amount quote_amount
          acquiring_base x).world.written
        ≡ some (
            rows
            ++ swap_pending meta at party event_type payload base_amount quote_amount acquiring_base
                x
              ∷ [])
  unfolding handle_swap
  handle_swap_writes meta at taken party event_type payload b q a x rows h e =
      let logged = record x { world = log_event meta at x.world } in
      let r = resolve_and_orient wsol taken at.now party.pool b q a logged in
      written-send at _ r.1.world rows h (
        written-resolve_and_orient taken a at.now b q party.pool logged
        ∙ written-log_event meta at x.world
        ∙ e)
      ∙ ap
          (λ (o : Option (Trade P)). some (
            rows
            ++ record {
              event = event_row meta "pumpswap" event_type payload;
              trade = Option.map (swap_row to_string party) o;
              queued_at = at.now;
            }
              ∷ []))
          (trade-resolve_and_orient taken a at.now b q party.pool logged
            ∙ oriented_in-metrics wsol (known party.pool x) b q a _ _)
