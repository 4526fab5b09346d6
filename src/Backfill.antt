-- ===== src/Backfill.antt =====
-- src/datasources/backfill.rs: blocks of past slots, fetched from an RPC node. What the node
-- answers is a function of the slot and of the attempt; a block is the updates that its
-- transactions give, a none for each transaction that cannot be decoded.
pub mod Fetch
pub mod Consume
use solana_realtime_indexer.Prelude.{
  ℕ, zero, suc, ◌+◌, ◌*◌, ◌-◌, List, [], ◌∷◌, ◌++◌, Bool, true, false, Option, none, some, leb,
  if◌then◌else◌,
}
use solana_realtime_indexer.Config.{rpc_max_attempts}

-- The waits that the loop has slept, in milliseconds, and its result; none for lack of fuel.
unfoldable pub fetch_loop : {B : Type 0} → (ℕ → Option B) → ℕ → ℕ → ℕ → Option (Option B × List ℕ)
fetch_loop node zero attempt wait = none
fetch_loop node (suc fuel) attempt wait =
    let rest = fetch_loop node fuel (attempt + 1) (wait * 2) in
    elim (node attempt) [
      | some block ↦ some (some block, [])
      | none ↦
          if leb rpc_max_attempts attempt
          then some (none, [])
          else elim rest [ none ↦ none | some (r, slept) ↦ some (r, wait ∷ slept) ]
    ]

unfoldable pub fetch_block : {B : Type 0} → (ℕ → Option B) → Option (Option B × List ℕ)
unfolding fetch_loop
fetch_block node = fetch_loop node rpc_max_attempts 1 200
