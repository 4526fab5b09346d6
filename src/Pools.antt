-- ===== src/Pools.antt =====
-- src/pools.rs: which side of a pool is wrapped SOL, and the cache of pools with its lookups.
-- A public key is an abstract type `P` with an equality test; `to_string` and `from_str` are its
-- base-58 forms.
pub mod Orient
pub mod Resolver
pub mod Restart
pub mod Worker
pub mod Agree
pub mod Entries
pub mod Restarted
pub mod Turns
use solana_realtime_indexer.Prelude.{ℕ, Bool, Option}

pub record Trade (P : Type 0) : Type 0 where
  pub sol_amount : ℕ
  pub token_amount : ℕ
  pub token_mint : P
  pub is_buy : Bool

pub record PoolInfo (P : Type 0) : Type 0 where
  pub base_mint : P
  pub quote_mint : P
  pub base_decimals : Option ℕ
  pub quote_decimals : Option ℕ
