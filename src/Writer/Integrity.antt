-- ===== src/Writer/Integrity.antt =====
-- A flush's transaction keeps the constraints of the schema (src/writer.rs, `write_batch`).
use solana_realtime_indexer.Prelude.{◌≡◌, refl, String, List, [], ◌∷◌, true, false, ℤ}
use solana_realtime_indexer.Db.Schema.{PendingWrite, Db}
use solana_realtime_indexer.Db.Result.{SqlResult, ok, err, Reply, served, dropped, silent}
use solana_realtime_indexer.Db.Write.{trade_pairs}
use solana_realtime_indexer.Db.Integrity.{
  IsWellFormed, write_events-IsWellFormed, write_trades-IsWellFormed, write_checkpoint-IsWellFormed,
}
use solana_realtime_indexer.Writer.Flush.{
  Attempt, done, failed, elapsed, Trips, stage, commit, write_batch, ◌>>=◌, round_trip,
  unless_empty,
}

module _ {V : Type 0} where
  -- What the staging of the transaction has come to.
  abbrev StagedWell : Attempt (Db V) → Type 0
  StagedWell (done tx) = IsWellFormed tx
  StagedWell (failed e) = Unit
  StagedWell elapsed = Unit

  bind-StagedWell :
      (m : Attempt (Db V)) (f : Db V → Attempt (Db V))
      → StagedWell m
      → ((tx : Db V) → IsWellFormed tx → StagedWell (f tx))
      → StagedWell (m >>= f)
  bind-StagedWell (done tx) f h k = k tx h
  bind-StagedWell (failed e) f h k = tt
  bind-StagedWell elapsed f h k = tt

  trip-StagedWell :
      (reply : Reply) (r : SqlResult (Db V))
      → ((tx : Db V) → r ≡ ok tx → IsWellFormed tx)
      → StagedWell (round_trip reply r)
  trip-StagedWell served (ok tx) f = f tx refl
  trip-StagedWell served (err e) f = tt
  trip-StagedWell (dropped x) r f = tt
  trip-StagedWell (silent x) r f = tt

  -- A statement that always succeeds.
  sure-StagedWell :
      (reply : Reply) (tx : Db V) → IsWellFormed tx → StagedWell (round_trip reply (ok tx))
  sure-StagedWell served tx w = w
  sure-StagedWell (dropped x) tx w = tt
  sure-StagedWell (silent x) tx w = tt

  unless_empty-StagedWell :
      {A : Type 0} (rows : List A) (tx : Db V) (written : Attempt (Db V))
      → IsWellFormed tx
      → StagedWell written
      → StagedWell (unless_empty rows tx written)
  unless_empty-StagedWell [] tx written w h = w
  unless_empty-StagedWell (r ∷ rs) tx written w h = h

  stage-StagedWell :
      (t : Trips) (batch : List (PendingWrite V)) (slot : ℤ) (signature : String) (db : Db V)
      → IsWellFormed db
      → StagedWell (stage t batch slot signature db)
  unfolding stage
  stage-StagedWell t batch slot signature db w =
      bind-StagedWell (round_trip t.begin (ok db)) _ (sure-StagedWell t.begin db w) λ d₁ w₁.
        bind-StagedWell _ _
          (unless_empty-StagedWell batch d₁ _ w₁
            (sure-StagedWell t.events _ (write_events-IsWellFormed batch d₁ w₁)))
          λ d₂ w₂.
            bind-StagedWell _ _
              (unless_empty-StagedWell (trade_pairs batch) d₂ _ w₂
                (trip-StagedWell t.trades _ (λ d e. write_trades-IsWellFormed batch d₂ d w₂ e)))
              λ d₃ w₃.
                sure-StagedWell t.checkpoint _ (write_checkpoint-IsWellFormed slot signature d₃ w₃)

  commit-IsWellFormed :
      (reply : Reply) (db tx : Db V)
      → IsWellFormed db
      → IsWellFormed tx
      → IsWellFormed (commit reply db tx).1
  unfolding commit
  commit-IsWellFormed served db tx w v = v
  commit-IsWellFormed (dropped true) db tx w v = v
  commit-IsWellFormed (dropped false) db tx w v = w
  commit-IsWellFormed (silent true) db tx w v = v
  commit-IsWellFormed (silent false) db tx w v = w

  -- Whatever the round trips do and whatever the batch holds, the transaction of a flush keeps
  -- the constraints of the schema: the primary keys of `events` and `trades`, the side of a
  -- trade, the range of its amounts, and the event behind every trade.
  pub write_batch-IsWellFormed :
      (t : Trips) (batch : List (PendingWrite V)) (slot : ℤ) (signature : String) (db : Db V)
      → IsWellFormed db
      → IsWellFormed (write_batch t batch slot signature db).1
  unfolding write_batch
  write_batch-IsWellFormed t batch slot signature db w =
      go (stage t batch slot signature db) (stage-StagedWell t batch slot signature db w)
    where
      go :
          (a : Attempt (Db V))
          → StagedWell a
          → IsWellFormed
              (elim a as (λ _. Attempt (Unit {0}) × Db V) [
                | failed e ↦ (failed e, db)
                | elapsed ↦ (elapsed, db)
                | done tx ↦ commit t.commit db tx
              ]).1
      go (done tx) h = commit-IsWellFormed t.commit db tx w h
      go (failed e) h = w
      go elapsed h = w
