-- ===== src/Pools/Worker.antt =====
-- The worker task of `spawn_pool_resolver` beside the processor that holds the resolver
-- (src/pools.rs). A turn is what one of the two does between two points where it waits: a write to
-- the cache and the statement that follows it are two turns.
use solana_realtime_indexer.Prelude.{
  List, [], ◌∷◌, Bool, Option, none, some, Eq, String, insert, if◌then◌else◌,
}
use mathlib.Core.Option
use solana_realtime_indexer.Db.Result.{Reply}
use solana_realtime_indexer.Metrics.{inc}
use solana_realtime_indexer.Pools.{PoolInfo}
use solana_realtime_indexer.Pools.Resolver.{
  Shared, Fetched, account, undecodable, unreachable, request, lookup_begins, save_if_db,
}

-- What both share; the pool whose account the worker has asked the node for; and the pools whose
-- statements the processor and the worker are waiting for.
pub record Lookups (P V : Type 0) : Type 0 where
  pub shared : Shared P V
  pub awaited : Option P
  pub creating : Option (P × PoolInfo P)
  pub storing : Option (P × PoolInfo P)

pub data Turn (P : Type 0) : Type 0 where
  -- `PoolResolver::request`, and whether the channel takes it
  ask : (taken : Bool) → P → Turn P
  -- `PoolResolver::insert`, up to its statement
  create : P → PoolInfo P → Turn P
  -- the statement of the processor is answered
  created : Reply → Turn P
  -- `rx.recv()` yields a request
  receive : Turn P
  -- the node answers `get_account_data`; up to the statement
  answer : (node : P → Fetched P) → Turn P
  -- the statement of the worker is answered
  stored_answer : Reply → Turn P

abbrev pub then_turn : {A : Type 0} → Option A → (A → Option A) → Option A
then_turn none rest = none
then_turn (some a) rest = rest a

module _ {P V : Type 0} ⦃e : Eq P⦄ where
  -- `cache.write().unwrap().insert(pool, info)`.
  abbrev pub cached : P → PoolInfo P → Shared P V → Shared P V
  cached pool info s = record s { cache = insert pool info s.cache }

  -- Up to the call of the node; a pool that is cached by now needs none.
  abbrev pub worker_begins : List P → Lookups P V → Lookups P V
  worker_begins [] l = l
  worker_begins (pool ∷ rest) l =
      let (calls, s) = lookup_begins pool (record l.shared { requests = rest }) in
      record l { shared = s; awaited = if calls then some pool else none }

  abbrev pub worker_fails : Lookups P V → Lookups P V
  worker_fails l = record l {
    shared = record l.shared {
      metrics = record l.shared.metrics {
        pool_lookup_errors = inc l.shared.metrics.pool_lookup_errors;
      };
    };
    awaited = none;
  }

  -- Once the node has answered; the cache may have changed meanwhile.
  abbrev pub worker_goes_on : P → Fetched P → Lookups P V → Lookups P V
  worker_goes_on pool (account base_mint quote_mint) l =
      let info : PoolInfo P = record {
        base_mint = base_mint;
        quote_mint = quote_mint;
        base_decimals = none;
        quote_decimals = none;
      } in
      record l { shared = cached pool info l.shared; awaited = none; storing = some (pool, info) }
  worker_goes_on pool undecodable l = worker_fails l
  worker_goes_on pool unreachable l = worker_fails l

  -- A task that waits for a statement does nothing else.
  abbrev pub unless_waiting : Option (P × PoolInfo P) → Lookups P V → Lookups P V → Lookups P V
  unless_waiting none l next = next
  unless_waiting (some _) l next = l

  abbrev pub received : Option P → Lookups P V → Lookups P V
  received none l = worker_begins l.shared.requests l
  received (some _) l = l

  abbrev pub answered : Option P → (P → Fetched P) → Lookups P V → Lookups P V
  answered none node l = l
  answered (some pool) node l = worker_goes_on pool (node pool) l

module _ {P V : Type 0} ⦃e : Eq P⦄ (to_string : P → String) where
  -- What `save` does once its statement is answered.
  abbrev pub saved : Reply → P × PoolInfo P → Shared P V → Option (Shared P V)
  saved reply (pool, info) s = save_if_db to_string reply pool info s.db s

  abbrev pub processor_saved : Reply → Option (P × PoolInfo P) → Lookups P V → Option (Lookups P V)
  processor_saved reply none l = some l
  processor_saved reply (some entry) l =
      Option.map (λ s. record l { shared = s; creating = none }) (saved reply entry l.shared)

  abbrev pub worker_saved : Reply → Option (P × PoolInfo P) → Lookups P V → Option (Lookups P V)
  worker_saved reply none l = some l
  worker_saved reply (some entry) l =
      Option.map (λ s. record l { shared = s; storing = none }) (saved reply entry l.shared)

  -- None if a write to `pools` is never answered.
  unfoldable pub turn : Turn P → Lookups P V → Option (Lookups P V)
  unfolding request lookup_begins save_if_db
  turn (ask taken pool) l =
      some (unless_waiting l.creating l (record l { shared = request taken pool l.shared }))
  turn (create pool info) l = some (
      unless_waiting l.creating l
        (record l { shared = cached pool info l.shared; creating = some (pool, info) }))
  turn (created reply) l = processor_saved reply l.creating l
  turn receive l = some (unless_waiting l.storing l (received l.awaited l))
  turn (answer node) l = some (unless_waiting l.storing l (answered l.awaited node l))
  turn (stored_answer reply) l = worker_saved reply l.storing l

  unfoldable pub run_turns : List (Turn P) → Lookups P V → Option (Lookups P V)
  unfolding turn
  run_turns [] l = some l
  run_turns (t ∷ ts) l = then_turn (turn t l) (run_turns ts)
