-- ===== src/Processors/PumpSwap.antt =====
-- `PumpSwapEventProcessor` (src/processors/pumpswap.rs).
pub mod Resolve
pub mod Swapped
pub mod Rows
use solana_realtime_indexer.Prelude.{
  ℕ, ◌-◌, String, List, [], ◌∷◌, Bool, true, false, Option, none, some, Eq, get, insert, leb,
  if◌then◌else◌, is_some,
}
use mathlib.Core.Option
use solana_realtime_indexer.Config.{pool_retry_after}
use solana_realtime_indexer.Db.Schema.{TradeRow, PendingWrite, Db}
use solana_realtime_indexer.Db.Result.{Reply}
use solana_realtime_indexer.Metrics.{Metrics, inc}
use solana_realtime_indexer.Pools.{PoolInfo, Trade}
use solana_realtime_indexer.Pools.Orient.{orient}
use solana_realtime_indexer.Pools.Resolver.{Shared, request, insert_pool}
use solana_realtime_indexer.Processors.World.{
  Meta, Moment, World, see_slot, skip_failed, log_event, event_row, send,
}
use solana_realtime_indexer.Processors.Pumpfun.{side_of}

-- The fields of the decoder's events that are read.
pub record BuyEvent (P : Type 0) : Type 0 where
  pub pool : P
  pub user : P
  pub base_amount_out : ℕ
  pub quote_amount_in : ℕ
  pub protocol_fee : ℕ

pub record SellEvent (P : Type 0) : Type 0 where
  pub pool : P
  pub user : P
  pub base_amount_in : ℕ
  pub quote_amount_out : ℕ
  pub protocol_fee : ℕ

pub record CreatePoolEvent (P : Type 0) : Type 0 where
  pub pool : P
  pub base_mint : P
  pub quote_mint : P
  pub base_mint_decimals : ℕ
  pub quote_mint_decimals : ℕ

-- `PumpSwapInstruction`: the events of `CpiEvent` that the code handles, and all else.
pub data Instruction (P : Type 0) : Type 0 where
  buy_event : BuyEvent P → Instruction P
  sell_event : SellEvent P → Instruction P
  create_pool_event : CreatePoolEvent P → Instruction P
  other_event : Instruction P
  other : Instruction P

-- The handles of `PoolResolver`: what `Shared` holds, less the metrics.
pub record Handles (P V : Type 0) : Type 0 where
  pub cache : List (P × PoolInfo P)
  pub requests : List P
  pub db : Option (Db V)

pub record Swap (P V : Type 0) : Type 0 where
  pub world : World V
  pub resolver : Option (Handles P V)
  pub requested : List (P × ℕ)

abbrev pub count_miss : Metrics → Metrics
count_miss m = record m { pool_cache_misses = inc m.pool_cache_misses }

-- `requested.get(&pool)` is `None`, or its time is `POOL_RETRY_AFTER` ago or more.
unfoldable pub is_stale : ℕ → Option ℕ → Bool
is_stale now none = true
is_stale now (some at) = leb pool_retry_after (now - at)

module _ {P V : Type 0} where
  abbrev pub shared : Handles P V → Metrics → Shared P V
  shared h m = record { cache = h.cache; requests = h.requests; db = h.db; metrics = m }

  -- The state after the resolver has run.
  abbrev pub put_back : Shared P V → Swap P V → Swap P V
  put_back s x = record x {
    world = record x.world { metrics = s.metrics };
    resolver = some (record { cache = s.cache; requests = s.requests; db = s.db });
  }

  abbrev pub count_hit : Swap P V → Swap P V
  count_hit x = record x {
    world = record x.world {
      metrics = record x.world.metrics { pool_cache_hits = inc x.world.metrics.pool_cache_hits };
    };
  }

module _ {P V : Type 0} ⦃e : Eq P⦄ where
  -- The miss: the request is sent unless one for this pool was tried lately.
  unfoldable pub miss : Bool → ℕ → P → Handles P V → Swap P V → Swap P V
  unfolding is_stale request
  miss taken now pool h x =
      let s = shared h (count_miss x.world.metrics) in
      if is_stale now (get pool x.requested)
      then put_back (request taken pool s) (record x { requested = insert pool now x.requested })
      else put_back s x

  unfoldable pub resolve : Bool → ℕ → P → Swap P V → Option (PoolInfo P) × Swap P V
  unfolding miss
  resolve taken now pool x = elim x.resolver [
    | none ↦ (none, x)
    | some h ↦ elim (get pool h.cache) [
      | some info ↦ (some info, count_hit x)
      | none ↦ (none, miss taken now pool h x)
    ]
  ]

-- What a swap says of itself: the pool, the trader and the fee.
pub record Party (P : Type 0) : Type 0 where
  pub pool : P
  pub user : P
  pub protocol_fee : ℕ

module _ {P V : Type 0} ⦃e : Eq P⦄ (wsol : P) where
  -- `self.resolve(pool).and_then(|info| info.orient(..))`.
  unfoldable pub resolve_and_orient :
      Bool → ℕ → P → ℕ → ℕ → Bool → Swap P V → Option (Trade P) × Swap P V
  unfolding resolve orient
  resolve_and_orient taken now pool base_amount quote_amount acquiring_base x =
      let (found, x') = resolve taken now pool x in
      elim found [
        | none ↦ (none, x')
        | some info ↦
            let (oriented, m) =
              orient wsol info base_amount quote_amount acquiring_base x'.world.metrics in
            (oriented, record x' { world = record x'.world { metrics = m } })
      ]

module _ {P : Type 0} (to_string : P → String) where
  abbrev pub swap_row : Party P → Trade P → TradeRow
  swap_row party t = record {
    pool = some (to_string party.pool);
    token_mint = to_string t.token_mint;
    side = side_of t.is_buy;
    sol_amount = t.sol_amount;
    token_amount = t.token_amount;
    trader = to_string party.user;
    fee = some party.protocol_fee;
  }

-- `match oriented { Some(_) => inc(&TRADES_WRITTEN), None => inc(&UNORIENTED) }`.
unfoldable pub count_oriented : Bool → Metrics → Metrics
count_oriented true m = record m { trades_written = inc m.trades_written }
count_oriented false m = record m { unoriented = inc m.unoriented }

module _ {P V : Type 0} ⦃e : Eq P⦄ (wsol : P) (to_string : P → String) where
  -- The body that the arms of `BuyEvent` and `SellEvent` share, from `self.record` on.
  unfoldable pub handle_swap :
      Meta → Moment → Bool → Party P → String → V → ℕ → ℕ → Bool → Swap P V → Swap P V
  unfolding resolve_and_orient send log_event count_oriented
  handle_swap meta at taken party event_type payload base_amount quote_amount acquiring_base x =
      let logged = record x { world = log_event meta at x.world } in
      let (oriented, x') =
        resolve_and_orient wsol taken at.now party.pool base_amount quote_amount acquiring_base
          logged in
      let row : PendingWrite V = record {
        event = event_row meta "pumpswap" event_type payload;
        trade = Option.map (swap_row to_string party) oriented;
        queued_at = at.now;
      } in
      let w = send at row x'.world in
      record x' { world = record w { metrics = count_oriented (is_some oriented) w.metrics } }

  -- The pool of a `CreatePoolEvent` goes into the cache and the database, if there is a resolver.
  unfoldable pub insert_created :
      Reply → CreatePoolEvent P → Option (Handles P V) → Swap P V → Option (Swap P V)
  unfolding insert_pool
  insert_created reply ev none x = some x
  insert_created reply ev (some h) x =
      Option.map (λ s. put_back s x)
        (insert_pool to_string reply ev.pool
          (record {
            base_mint = ev.base_mint;
            quote_mint = ev.quote_mint;
            base_decimals = some ev.base_mint_decimals;
            quote_decimals = some ev.quote_mint_decimals;
          })
          (shared h x.world.metrics))

  -- The arm of `CreatePoolEvent`; none if the database never answers.
  unfoldable pub handle_create : Reply → CreatePoolEvent P → Swap P V → Option (Swap P V)
  unfolding insert_created
  handle_create reply ev x = insert_created reply ev x.resolver x

module _ {P : Type 0} where
  abbrev pub buy_party : BuyEvent P → Party P
  buy_party trade = record {
    pool = trade.pool;
    user = trade.user;
    protocol_fee = trade.protocol_fee;
  }

  abbrev pub sell_party : SellEvent P → Party P
  sell_party trade = record {
    pool = trade.pool;
    user = trade.user;
    protocol_fee = trade.protocol_fee;
  }

module _ {P V : Type 0} ⦃e : Eq P⦄ (wsol : P) (to_string : P → String) (buy_value : BuyEvent P → V)
    (sell_value : SellEvent P → V) where
  -- The `match` on the decoded instruction. `taken` is whether the channel of lookups takes a
  -- request, `reply` what becomes of a write to `pools`.
  unfoldable pub dispatch :
      Meta → Moment → Bool → Reply → Instruction P → Swap P V → Option (Swap P V)
  unfolding handle_swap handle_create
  dispatch meta at taken reply (buy_event trade) x = some (
      handle_swap wsol to_string meta at taken (buy_party trade) "BuyEvent" (buy_value trade)
        trade.base_amount_out trade.quote_amount_in true x)
  dispatch meta at taken reply (sell_event trade) x = some (
      handle_swap wsol to_string meta at taken (sell_party trade) "SellEvent" (sell_value trade)
        trade.base_amount_in trade.quote_amount_out false x)
  dispatch meta at taken reply (create_pool_event ev) x = handle_create wsol to_string reply ev x
  dispatch meta at taken reply other_event x = some x
  dispatch meta at taken reply other x = some x

  unfoldable pub process :
      Meta → Moment → Bool → Reply → Instruction P → Swap P V → Option (Swap P V)
  unfolding dispatch see_slot skip_failed
  process meta at taken reply i x =
      if meta.failed
      then some (record x { world = skip_failed x.world })
      else dispatch meta at taken reply i (record x { world = see_slot meta at x.world })
