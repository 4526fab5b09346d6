-- ===== src/Writer/Flush.antt =====
-- `flush` and `write_batch` of src/writer.rs.
use solana_realtime_indexer.Prelude.{
  ◌≡◌, refl, ◌⊎◌, inl, inr, ℕ, ◌-◌, String, List, [], ◌∷◌, Option, none, some, ℤ, leb_ℤ, as_u64,
  if◌then◌else◌,
}
use solana_realtime_indexer.Db.Schema.{PendingWrite, Db}
use solana_realtime_indexer.Db.Result.{
  SqlError, SqlResult, ok, err, connection, Reply, served, dropped, silent,
}
use solana_realtime_indexer.Db.Write.{
  write_events, write_trades, write_checkpoint, write_dead_letters, trade_pairs,
}
use solana_realtime_indexer.Metrics.{Metrics, inc, set_committed_slot}
use solana_realtime_indexer.Metrics.Histogram.{observe}

-- What the future under `tokio::time::timeout` has come to: `elapsed` once no answer came.
pub data Attempt (A : Type 0) : Type 0 where
  done : A → Attempt A
  failed : SqlError → Attempt A
  elapsed : Attempt A

pub Attempt-cases :
    {A : Type 0} (a : Attempt A)
    → ((x : A) × (a ≡ done x)) ⊎ ((e : SqlError) × (a ≡ failed e)) ⊎ (a ≡ elapsed)
Attempt-cases (done x) = inl (x, refl)
Attempt-cases (failed e) = inr (inl (e, refl))
Attempt-cases elapsed = inr (inr refl)

infixl 5 ◌>>=◌
abbrev pub ◌>>=◌ : {A B : Type 0} → Attempt A → (A → Attempt B) → Attempt B
done a >>= f = f a
failed e >>= f = failed e
elapsed >>= f = elapsed

abbrev pub lift : {A : Type 0} → SqlResult A → Attempt A
lift (ok a) = done a
lift (err e) = failed e

-- The five round trips of a flush, and what becomes of each.
pub record Trips : Type 0 where
  pub begin : Reply
  pub events : Reply
  pub trades : Reply
  pub checkpoint : Reply
  pub commit : Reply
  pub dead_letters : Reply

-- The tables, the rows in memory and the metrics: what the writer task owns and writes.
pub record State (V : Type 0) : Type 0 where
  pub db : Db V
  pub batch : List (PendingWrite V)
  pub metrics : Metrics

-- The clock's readings: how long the write took, and the time after it.
pub record Clock : Type 0 where
  pub took : ℕ
  pub now : ℕ

module _ {V : Type 0} where
  -- A statement inside the transaction, on the transaction's own view of the tables.
  abbrev pub round_trip : Reply → SqlResult (Db V) → Attempt (Db V)
  round_trip served r = lift r
  round_trip (dropped _) r = failed connection
  round_trip (silent _) r = elapsed

  abbrev pub unless_empty : {A : Type 0} → List A → Db V → Attempt (Db V) → Attempt (Db V)
  unless_empty [] tx written = done tx
  unless_empty (_ ∷ _) tx written = written

  -- The transaction up to the commit, where a list of no rows makes no round trip.
  unfoldable pub stage : Trips → List (PendingWrite V) → ℤ → String → Db V → Attempt (Db V)
  stage t batch slot signature db = do
    tx ← round_trip t.begin (ok db)
    tx ← unless_empty batch tx (round_trip t.events (ok (write_events batch tx)))
    tx ← unless_empty (trade_pairs batch) tx (round_trip t.trades (write_trades batch tx))
    round_trip t.checkpoint (ok (write_checkpoint slot signature tx))

  -- `tx.commit()`: the transaction's view `tx` takes the place of `db` once the server commits.
  unfoldable pub commit : Reply → Db V → Db V → Attempt (Unit {0}) × Db V
  commit served db tx = (done tt, tx)
  commit (dropped executed) db tx = (failed connection, if executed then tx else db)
  commit (silent executed) db tx = (elapsed, if executed then tx else db)

  -- `write_batch`: what the caller learns, and the tables afterwards. A transaction that is
  -- dropped is rolled back.
  unfoldable pub write_batch :
      Trips → List (PendingWrite V) → ℤ → String → Db V → Attempt (Unit {0}) × Db V
  unfolding stage commit
  write_batch t batch slot signature db = elim (stage t batch slot signature db) [
    | failed e ↦ (failed e, db)
    | elapsed ↦ (elapsed, db)
    | done tx ↦ commit t.commit db tx
  ]

  abbrev pub later : PendingWrite V → PendingWrite V → PendingWrite V
  later best r = if leb_ℤ best.event.slot r.event.slot then r else best

  -- `iter().max_by_key(|r| r.event.slot)`, which takes the last of several maxima.
  unfoldable pub max_by_slot : PendingWrite V → List (PendingWrite V) → PendingWrite V
  max_by_slot best [] = best
  max_by_slot best (r ∷ rs) = max_by_slot (later best r) rs

  -- The loop over the batch that observes `queued_at.elapsed()`.
  unfoldable pub observe_rows : ℕ → List (PendingWrite V) → Metrics → Metrics
  observe_rows now [] m = m
  observe_rows now (r ∷ rs) m =
      observe_rows now rs
        (record m { receive_to_committed = observe (now - r.queued_at) m.receive_to_committed })

  -- `for _ in batch.iter() { inc(&DEAD_LETTERS) }`.
  unfoldable pub count_dead : List (PendingWrite V) → Metrics → Metrics
  count_dead [] m = m
  count_dead (r ∷ rs) m = count_dead rs (record m { dead_letters = inc m.dead_letters })

-- `describe` is the `Display` of `sqlx::Error`.
module _ {V : Type 0} (describe : SqlError → String) where
  -- A failed batch is parked: rows and error go to `dead_letters`, and the counter moves only
  -- once that is known to have worked. None for a statement that has got a connection (or the pool
  -- returns an error, which is `dropped`) and is then never answered.
  unfoldable pub park : Reply → String → State V → Option (State V)
  park reply error s =
      let parked = write_dead_letters s.batch error s.db in
      let m = record s.metrics { db_write_errors = inc s.metrics.db_write_errors } in
      elim reply [
        | served ↦ some (record { db = parked; batch = []; metrics = count_dead s.batch m })
        | dropped executed ↦
            some (record { db = if executed then parked else s.db; batch = []; metrics = m })
        | silent _ ↦ none
      ]

  -- The branch on the outcome of the attempt.
  unfoldable pub conclude : Trips → Clock → ℤ → Attempt (Unit {0}) → State V → Option (State V)
  unfolding park
  conclude t c slot (done _) s = some (record {
    db = s.db;
    batch = [];
    metrics = set_committed_slot (as_u64 slot) (
        observe_rows c.now s.batch
          (record s.metrics { flush_time = observe c.took s.metrics.flush_time }));
  })
  conclude t c slot (failed e) s = park t.dead_letters (describe e) s
  conclude t c slot elapsed s = park t.dead_letters "flush timed out after 10s" s

  unfoldable pub flush_rows : Trips → Clock → PendingWrite V → State V → Option (State V)
  unfolding write_batch conclude
  flush_rows t c newest s =
      let slot = newest.event.slot in
      let (attempt, db) = write_batch t s.batch slot newest.event.signature s.db in
      conclude t c slot attempt (record s { db = db })

  -- The `let Some(..) = .. else { return }` on the newest row, which an empty batch lacks.
  unfoldable pub flush_newest : List (PendingWrite V) → Trips → Clock → State V → Option (State V)
  unfolding flush_rows max_by_slot
  flush_newest [] t c s = some s
  flush_newest (r ∷ rs) t c s = flush_rows t c (max_by_slot r rs) s

  unfoldable pub flush : Trips → Clock → State V → Option (State V)
  unfolding flush_newest
  flush t c s = flush_newest s.batch t c s
