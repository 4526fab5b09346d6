-- ===== src/Writer/Atomic.antt =====
-- The transaction of `write_batch` (src/writer.rs) against a description of it as one update.
use solana_realtime_indexer.Prelude.{
  ◌≡◌, refl, String, List, [], ◌∷◌, map, true, false, some, ℤ, ◌⊎◌, inl, inr, arith, sym,
}
use solana_realtime_indexer.Identity.{key_eq}
use solana_realtime_indexer.Table.{insert_rows}
use solana_realtime_indexer.Db.Schema.{PendingWrite, RepairedTrade, Db, event_key, trade_key}
use solana_realtime_indexer.Db.Result.{SqlResult-cases, ok, Reply, served, dropped, silent}
use solana_realtime_indexer.Db.Write.{
  write_events, write_trades, write_checkpoint, trade_pairs, insert_trades,
}
use solana_realtime_indexer.Writer.Flush.{
  Attempt, Attempt-cases, done, failed, commit, elapsed, Trips, stage, write_batch,
}

module _ {V : Type 0} where
  -- A whole batch as one update of the tables: rows that are new, and the checkpoint.
  unfoldable pub applied : List (PendingWrite V) → ℤ → String → Db V → Db V
  applied batch slot signature db = record db {
    events = insert_rows event_key (map (λ r. r.event) batch) db.events;
    trades = insert_rows trade_key (trade_pairs batch) db.trades;
    checkpoint = some (record { last_completed_slot = slot; last_completed_signature = signature });
  }

  pub insert_trades-ok :
      (rows : List RepairedTrade) (d d' : Db V)
      → insert_trades rows d ≡ ok d'
      → d' ≡ record d { trades = insert_rows trade_key rows d.trades }
  unfolding insert_trades
  insert_trades-ok rows d d' h = ground arith

  pub write_trades-ok :
      (batch : List (PendingWrite V)) (d d' : Db V)
      → write_trades batch d ≡ ok d'
      → d' ≡ record d { trades = insert_rows trade_key (trade_pairs batch) d.trades }
  unfolding write_trades insert_rows
  write_trades-ok batch d d' h = ground (arith, insert_trades-ok (trade_pairs batch) d d')

  -- A transaction that reaches its commit has applied the whole batch.
  pub stage-applied :
      (t : Trips) (batch : List (PendingWrite V)) (slot : ℤ) (signature : String) (db tx : Db V)
      → stage t batch slot signature db ≡ done tx
      → tx ≡ applied batch slot signature db
  unfolding stage applied write_events write_checkpoint trade_pairs insert_rows
  stage-applied t [] slot signature db tx h = ground arith
  stage-applied t (r ∷ rs) slot signature db tx h =
      elim (SqlResult-cases (write_trades (r ∷ rs) (write_events (r ∷ rs) db))) [
        | inl (d, e) ↦ ground (arith, write_trades-ok (r ∷ rs) (write_events (r ∷ rs) db) d e)
        | inr (x, e) ↦ ground arith
      ]

-- The tables after an attempt: all of the batch if it returned; otherwise none of it, or all of
-- it where the server carried out the commit and its answer was lost.
abbrev pub AllOrNothing : {V : Type 0} → Reply → Db V → Db V → Attempt (Unit {0}) × Db V → Type 0
AllOrNothing reply db full (done _, after) = after ≡ full
AllOrNothing reply db full (failed _, after) =
    (after ≡ db) ⊎ ((after ≡ full) × (reply ≡ dropped true))
AllOrNothing reply db full (elapsed, after) =
    (after ≡ db) ⊎ ((after ≡ full) × (reply ≡ silent true))

module _ {V : Type 0} where
  commit-AllOrNothing :
      (reply : Reply) (db tx : Db V) → AllOrNothing reply db tx (commit reply db tx)
  unfolding commit
  commit-AllOrNothing served db tx = refl
  commit-AllOrNothing (dropped true) db tx = inr (refl, refl)
  commit-AllOrNothing (dropped false) db tx = inl refl
  commit-AllOrNothing (silent true) db tx = inr (refl, refl)
  commit-AllOrNothing (silent false) db tx = inl refl

  -- Whatever the network does to the five round trips, a flush's transaction writes the whole
  -- batch with its checkpoint, or leaves the tables alone: if the attempt returned it is all of
  -- the batch, and if it failed or timed out it is all of it only where the commit itself was
  -- carried out unheard.
  pub write_batch_atomic :
      (t : Trips) (batch : List (PendingWrite V)) (slot : ℤ) (signature : String) (db : Db V)
      → AllOrNothing t.commit db
          (applied batch slot signature db)
          (write_batch t batch slot signature db)
  unfolding write_batch
  write_batch_atomic t batch slot signature db =
      elim (Attempt-cases (stage t batch slot signature db)) [
        | inl (tx, e) ↦
            rw (e, write_batch)
              (rw (sym (stage-applied t batch slot signature db tx e))
                (commit-AllOrNothing t.commit db tx))
        | inr (inl (x, e)) ↦ rw (e, write_batch) (inl refl)
        | inr (inr e) ↦ rw (e, write_batch) (inl refl)
      ]
