-- ===== src/Pipeline/Stream.antt =====
-- The pipeline that `run_pipeline` builds (src/pipeline.rs), over a stream of instructions: each goes
-- to the processor of its program, and the two share their handles; between them, the worker task
-- of the resolver (src/pools.rs) adds to the cache.
pub mod Events
pub mod Sent
pub mod Logged
use solana_realtime_indexer.Prelude.{ℕ, String, List, [], ◌∷◌, Bool, Option, none, some, Eq, insert}
use mathlib.Core.Option
use solana_realtime_indexer.Pools.{PoolInfo}
use solana_realtime_indexer.Db.Result.{Reply}
use solana_realtime_indexer.Processors.World.{Meta, Moment}
use solana_realtime_indexer.Processors.Pumpfun
use solana_realtime_indexer.Processors.PumpSwap

-- What happens next to the processors: the pipeline delivers an instruction (for PumpSwap: whether
-- the channel of lookups takes a request, and what becomes of a write to `pools`), or the worker
-- task has looked a pool up and puts its mints into the cache, which is all that the processors
-- see of it.
pub data Delivered (P : Type 0) : Type 0 where
  pumpfun : Meta → Moment → Pumpfun.Instruction P → Delivered P
  pumpswap : Meta → Moment → (taken : Bool) → (reply : Reply) → PumpSwap.Instruction P → Delivered P
  looked_up : (pool base_mint quote_mint : P) → Delivered P

-- The next instruction is handled once the processor has returned.
abbrev pub then_deliver : {A : Type 0} → Option A → (A → Option A) → Option A
then_deliver none rest = none
then_deliver (some a) rest = rest a

module _ {P V : Type 0} ⦃e : Eq P⦄ where
  -- `worker_cache.write().unwrap().insert(pool, info)`; there is no worker without a resolver.
  abbrev pub see_pool : P → P → P → PumpSwap.Swap P V → PumpSwap.Swap P V
  see_pool pool base_mint quote_mint x = record x {
    resolver =
        Option.map
          (λ (h : PumpSwap.Handles P V). record h {
            cache =
                insert pool
                  (record {
                    base_mint = base_mint;
                    quote_mint = quote_mint;
                    base_decimals = none;
                    quote_decimals = none;
                  })
                  h.cache;
          })
          x.resolver;
  }

module _ {P V : Type 0} ⦃e : Eq P⦄ (wsol : P) (to_string : P → String)
    (trade_value : Pumpfun.TradeEvent P → V) (buy_value : PumpSwap.BuyEvent P → V)
    (sell_value : PumpSwap.SellEvent P → V) where
  unfoldable pub deliver : Delivered P → PumpSwap.Swap P V → Option (PumpSwap.Swap P V)
  unfolding Pumpfun.process PumpSwap.process
  deliver (pumpfun meta at i) x =
      some (record x { world = Pumpfun.process to_string trade_value meta at i x.world })
  deliver (pumpswap meta at taken reply i) x =
      PumpSwap.process wsol to_string buy_value sell_value meta at taken reply i x
  deliver (looked_up pool base_mint quote_mint) x = some (see_pool pool base_mint quote_mint x)

  -- None if a write to `pools` is never answered.
  unfoldable pub run_stream : List (Delivered P) → PumpSwap.Swap P V → Option (PumpSwap.Swap P V)
  unfolding deliver
  run_stream [] x = some x
  run_stream (d ∷ ds) x = then_deliver (deliver d x) (run_stream ds)
