-- ===== src/Backfill/Consume.antt =====
-- `BackfillDatasource::consume` (src/datasources/backfill.rs). What the crates make of a
-- transaction is a parameter: its decoded form, its metadata and its first signature.
pub mod Sent
use solana_realtime_indexer.Prelude.{
  ℕ, ◌+◌, List, [], ◌∷◌, ◌++◌, ℤ, Bool, true, false, Option, none, some, ltb, length, if◌then◌else◌,
}
use solana_realtime_indexer.Backfill.{fetch_block}

-- `EncodedTransactionWithStatusMeta`: the result of `decode`, and the metadata as it came.
pub record BlockTransaction (D R : Type 0) : Type 0 where
  pub decoded : Option D
  pub meta : Option R

pub record Block (D R : Type 0) : Type 0 where
  pub block_time : Option ℤ
  pub transactions : Option (List (BlockTransaction D R))

-- `TransactionUpdate`, less the fields that are constant here.
pub record Update (S D M : Type 0) : Type 0 where
  pub signature : S
  pub transaction : D
  pub meta : M
  pub slot : ℕ
  pub index : ℕ
  pub block_time : Option ℤ

module _ {A : Type 0} where
  -- One turn of the inner loop: `continue`, or a send, whose failure is the `return`. The channel
  -- takes updates up to `room` in all, and then its receiver is gone.
  abbrev pub send_next : ℕ → Option A → (List A → Bool × List A) → List A → Bool × List A
  send_next room none rest sent = rest sent
  send_next room (some update) rest sent =
      if ltb (length sent) room then rest (sent ++ update ∷ []) else (false, sent)

  -- The rest of the run, unless it has returned.
  abbrev pub unless_returned : Bool × List A → (List A → Bool × List A) → Bool × List A
  unless_returned (true, sent) rest = rest sent
  unless_returned (false, sent) rest = (false, sent)

module _ {S D R M : Type 0} (convert : R → Option M) (first_signature : D → Option S) where
  -- The four `let .. else { continue }` of the inner loop.
  unfoldable pub update_of : ℕ → Option ℤ → ℕ → BlockTransaction D R → Option (Update S D M)
  update_of slot block_time index tx = elim tx.decoded [
    | none ↦ none
    | some decoded ↦ elim tx.meta [
      | none ↦ none
      | some raw ↦ elim (convert raw) [
        | none ↦ none
        | some meta ↦ elim (first_signature decoded) [
          | none ↦ none
          | some signature ↦ some (record {
            signature = signature;
            transaction = decoded;
            meta = meta;
            slot = slot;
            index = index;
            block_time = block_time;
          })
        ]
      ]
    ]
  ]

  -- The inner loop over the transactions from `index` on; the flag is false after the `return`.
  unfoldable pub send_block :
      ℕ
      → ℕ
      → Option ℤ
      → ℕ
      → List (BlockTransaction D R)
      → List (Update S D M)
      → Bool × List (Update S D M)
  unfolding update_of
  send_block room slot block_time index [] sent = (true, sent)
  send_block room slot block_time index (tx ∷ txs) sent =
      send_next room (update_of slot block_time index tx)
        (send_block room slot block_time (index + 1) txs) sent

  -- What `fetch_block` gives for a slot: `node` answers the attempts.
  abbrev pub block_at : (ℕ → ℕ → Option (Block D R)) → ℕ → Option (Block D R)
  block_at node slot = elim (fetch_block (node slot)) [ none ↦ none | some (block, _) ↦ block ]

  -- `let Some(transactions) = .. else { continue }`.
  abbrev pub send_listed :
      ℕ
      → ℕ
      → Option ℤ
      → Option (List (BlockTransaction D R))
      → List (Update S D M)
      → Bool × List (Update S D M)
  send_listed room slot block_time none sent = (true, sent)
  send_listed room slot block_time (some txs) sent = send_block room slot block_time 0 txs sent

  abbrev pub send_fetched :
      ℕ → ℕ → Option (Block D R) → List (Update S D M) → Bool × List (Update S D M)
  send_fetched room slot none sent = (true, sent)
  send_fetched room slot (some block) sent =
      send_listed room slot block.block_time block.transactions sent

  -- The loop over the slots, where `cancelled` is the token's state when a slot is reached.
  unfoldable pub consume_slots :
      (ℕ → ℕ → Option (Block D R))
      → (ℕ → Bool)
      → ℕ
      → List ℕ
      → List (Update S D M)
      → Bool × List (Update S D M)
  unfolding send_block fetch_block
  consume_slots node cancelled room [] sent = (true, sent)
  consume_slots node cancelled room (slot ∷ slots) sent =
      if cancelled slot
      then (true, sent)
      else unless_returned (send_fetched room slot (block_at node slot) sent)
          (consume_slots node cancelled room slots)

  -- The answer of `get_blocks` and then the loop; none for its error.
  unfoldable pub consume :
      Option (List ℕ) → (ℕ → ℕ → Option (Block D R)) → (ℕ → Bool) → ℕ → Option (List (Update S D M))
  unfolding consume_slots
  consume none node cancelled room = none
  consume (some slots) node cancelled room = some (consume_slots node cancelled room slots []).1
