-- ===== src/Backfill/Fetch.antt =====
-- `fetch_block` of src/datasources/backfill.rs.
use solana_realtime_indexer.Prelude.{ℕ, List, [], ◌∷◌, Option, none, some, ◌≡◌, arith}
use solana_realtime_indexer.Backfill.{fetch_loop, fetch_block}

-- The first of the four answers that is a block.
abbrev pub first_of_four : {B : Type 0} → (ℕ → Option B) → Option B × List ℕ
first_of_four node = elim (node 1) [
  | some b ↦ (some b, [])
  | none ↦ elim (node 2) [
    | some b ↦ (some b, 200 ∷ [])
    | none ↦ elim (node 3) [
      | some b ↦ (some b, 200 ∷ 400 ∷ [])
      | none ↦ (node 4, 200 ∷ 400 ∷ 800 ∷ [])
    ]
  ]
]

-- The loop of `fetch_block` ends for every node: it asks at most four times, doubling its wait of
-- 200 ms after each failure, and gives the first block that it is sent, or none after four
-- failures.
pub fetch_block-returns :
    {B : Type 0} (node : ℕ → Option B) → fetch_block node ≡ some (first_of_four node)
unfolding fetch_block fetch_loop
fetch_block-returns node = ground arith
