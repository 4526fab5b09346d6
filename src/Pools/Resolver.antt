-- ===== src/Pools/Resolver.antt =====
-- `PoolResolver` and its worker task (src/pools.rs).
use solana_realtime_indexer.Prelude.{
  ℕ, String, List, [], ◌∷◌, ◌++◌, ℤ, pos, Bool, true, false, Option, none, some, Eq, get, insert,
  if◌then◌else◌, is_some, length, ltb, negsuc,
}
use mathlib.Core.Option
use solana_realtime_indexer.Db.Schema.{StoredPool, Db}
use solana_realtime_indexer.Db.Pools.{write_pool, load_pools}
use solana_realtime_indexer.Db.Result.{Reply, served, dropped, silent}
use solana_realtime_indexer.Metrics.{Metrics, inc}
use solana_realtime_indexer.Pools.{PoolInfo}

-- The shared state: the cache, the requests that the channel has taken, oldest first, the
-- database, if there is one, and the metrics.
pub record Shared (P V : Type 0) : Type 0 where
  pub cache : List (P × PoolInfo P)
  pub requests : List P
  pub db : Option (Db V)
  pub metrics : Metrics

-- What `get_account_data` and `Pool::decode` give the worker.
pub data Fetched (P : Type 0) : Type 0 where
  account : (base_mint quote_mint : P) → Fetched P
  undecodable unreachable : Fetched P

-- `d.and_then(|d| u8::try_from(d).ok())`.
abbrev pub as_u8 : Option ℤ → Option ℕ
as_u8 none = none
as_u8 (some (pos n)) = if ltb n 256 then some n else none
as_u8 (some (negsuc n)) = none

module _ {P V : Type 0} ⦃e : Eq P⦄ where
  -- `PoolResolver::request`, where the channel takes the request or is full.
  unfoldable pub request : Bool → P → Shared P V → Shared P V
  request taken pool s =
      if taken then record s { requests = s.requests ++ pool ∷ [] } else record s {
        metrics = record s.metrics { lookups_dropped = inc s.metrics.lookups_dropped };
      }

  -- One request at the worker, up to its call of the RPC node: true if there is a call.
  unfoldable pub lookup_begins : P → Shared P V → Bool × Shared P V
  lookup_begins pool s = if is_some (get pool s.cache) then (false, s) else (
    true,
    record s { metrics = record s.metrics { pool_lookups = inc s.metrics.pool_lookups } },
  )

module _ {P : Type 0} (to_string : P → String) where
  abbrev pub stored : P → PoolInfo P → StoredPool
  stored pool info = record {
    pool = to_string pool;
    base_mint = to_string info.base_mint;
    quote_mint = to_string info.quote_mint;
    base_decimals = Option.map pos info.base_decimals;
    quote_decimals = Option.map pos info.quote_decimals;
  }

module _ {P V : Type 0} ⦃e : Eq P⦄ (to_string : P → String) where
  -- `save`; none if the database never answers.
  unfoldable pub save : Reply → P → PoolInfo P → Db V → Metrics → Option (Db V × Metrics)
  save reply pool info db m =
      let written = write_pool (stored to_string pool info) db in
      elim reply [
        | served ↦ some (written, m)
        | dropped executed ↦
            some (
              if executed then written else db,
              record m { db_write_errors = inc m.db_write_errors },
            )
        | silent _ ↦ none
      ]

  -- `if let Some(db) = .. { save(..) }`, after the cache has been written.
  unfoldable pub save_if_db :
      Reply → P → PoolInfo P → Option (Db V) → Shared P V → Option (Shared P V)
  unfolding save
  save_if_db reply pool info none s = some s
  save_if_db reply pool info (some db) s = elim (save reply pool info db s.metrics) [
    | none ↦ none
    | some (db', m) ↦ some (record s { db = some db'; metrics = m })
  ]

  -- `PoolResolver::insert`.
  unfoldable pub insert_pool : Reply → P → PoolInfo P → Shared P V → Option (Shared P V)
  unfolding save_if_db
  insert_pool reply pool info s =
      save_if_db reply pool info s.db (record s { cache = insert pool info s.cache })

module _ {P : Type 0} ⦃e : Eq P⦄ where
  -- A turn of the loop of `prime`, with what the three keys of its row are read as, and the turns
  -- after it; a key that cannot be read ends the loop.
  abbrev pub read_row :
      Option P
      → Option P
      → Option P
      → StoredPool
      → (List (P × PoolInfo P) → Bool × List (P × PoolInfo P))
      → List (P × PoolInfo P)
      → Bool × List (P × PoolInfo P)
  read_row none base quote p rest cache = (false, cache)
  read_row (some pool) none quote p rest cache = (false, cache)
  read_row (some pool) (some base) none p rest cache = (false, cache)
  read_row (some pool) (some base) (some quote) p rest cache = rest (
      insert pool
        (record {
          base_mint = base;
          quote_mint = quote;
          base_decimals = as_u8 p.base_decimals;
          quote_decimals = as_u8 p.quote_decimals;
        })
        cache)

module _ {P : Type 0} ⦃e : Eq P⦄ (from_str : String → Option P) where
  -- The loop of `prime` over the stored pools: it stops at the first key that cannot be read, with
  -- the rows before it in the cache.
  unfoldable pub prime_rows : List StoredPool → List (P × PoolInfo P) → Bool × List (P × PoolInfo P)
  prime_rows [] cache = (true, cache)
  prime_rows (p ∷ ps) cache =
      read_row (from_str p.pool) (from_str p.base_mint) (from_str p.quote_mint) p (prime_rows ps)
        cache

module _ {P V : Type 0} ⦃e : Eq P⦄ (from_str : String → Option P) where
  -- `PoolResolver::prime`: how many pools were loaded, or none for an error, which a refused query
  -- is too.
  unfoldable pub prime : Bool → Shared P V → Option ℕ × Shared P V
  unfolding prime_rows
  prime answered s = elim s.db [
    | none ↦ (some 0, s)
    | some db ↦
        if answered
        then (let (complete, cache) = prime_rows from_str (load_pools db) s.cache in
            (if complete then some (length (load_pools db)) else none, record s { cache = cache }))
        else (none, s)
  ]
