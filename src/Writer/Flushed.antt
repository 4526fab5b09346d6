-- ===== src/Writer/Flushed.antt =====
-- A flush returns, with an empty batch and every row of it kept (src/writer.rs, `flush`).
use solana_realtime_indexer.Prelude.{
  ◌≡◌, refl, String, List, [], ◌∷◌, true, false, Option, none, some, ℤ, inl, inr,
}
use solana_realtime_indexer.Db.Schema.{PendingWrite, Db}
use solana_realtime_indexer.Db.Result.{SqlError, Reply, served, dropped, silent}
use solana_realtime_indexer.Writer.Flush.{
  Attempt, done, failed, elapsed, Trips, Clock, State, write_batch, max_by_slot, park, conclude,
  flush, flush_rows, flush_newest,
}
use solana_realtime_indexer.Writer.Atomic.{AllOrNothing, applied, write_batch_atomic}
use solana_realtime_indexer.Writer.Kept.{parks, Keeps, IsKept, applied-Keeps, letters-Keeps}

-- The flush has returned: the batch is empty, and its rows are kept.
abbrev pub Flushed : {V : Type 0} → List (PendingWrite V) → Db V → Option (State V) → Type 0
Flushed batch db none = ⊥
Flushed batch db (some s) = (s.batch ≡ []) × Keeps batch db s.db

module _ {V : Type 0} (describe : SqlError → String) where
  park-Flushed :
      (reply : Reply) (error : String) (db : Db V) (s : State V)
      → parks reply ≡ true
      → ((r : PendingWrite V) → IsKept db r → IsKept s.db r)
      → Flushed s.batch db (park describe reply error s)
  unfolding park
  park-Flushed served error db s h f = (refl, letters-Keeps s.batch error db s.db f)
  park-Flushed (dropped true) error db s h f = (refl, letters-Keeps s.batch error db s.db f)
  park-Flushed (dropped false) error db s h f = cc
  park-Flushed (silent x) error db s h f = cc

  conclude-Flushed :
      (t : Trips) (c : Clock) (slot : ℤ) (signature : String) (attempt : Attempt (Unit {0}))
      (db : Db V) (s : State V)
      → parks t.dead_letters ≡ true
      → AllOrNothing t.commit db (applied s.batch slot signature db) (attempt, s.db)
      → Flushed s.batch db (conclude describe t c slot attempt s)
  unfolding conclude
  conclude-Flushed t c slot signature (done x) db s h a =
      (refl, rw a (applied-Keeps s.batch slot signature db))
  conclude-Flushed t c slot signature (failed e) db s h (inl same) =
      park-Flushed t.dead_letters (describe e) db s h (λ r k. rw same k)
  conclude-Flushed t c slot signature (failed e) db s h (inr (all, _)) =
      park-Flushed t.dead_letters (describe e) db s h
        λ r k. rw all ((applied-Keeps s.batch slot signature db).others r k)
  conclude-Flushed t c slot signature elapsed db s h (inl same) =
      park-Flushed t.dead_letters "flush timed out after 10s" db s h (λ r k. rw same k)
  conclude-Flushed t c slot signature elapsed db s h (inr (all, _)) =
      park-Flushed t.dead_letters "flush timed out after 10s" db s h
        λ r k. rw all ((applied-Keeps s.batch slot signature db).others r k)

  flush_rows-Flushed :
      (t : Trips) (c : Clock) (newest : PendingWrite V) (s : State V)
      → parks t.dead_letters ≡ true
      → Flushed s.batch s.db (flush_rows describe t c newest s)
  unfolding flush_rows
  flush_rows-Flushed t c newest s h =
      let w = write_batch t s.batch newest.event.slot newest.event.signature s.db in
      conclude-Flushed t c newest.event.slot newest.event.signature w.0 s.db (record s { db = w.1 })
        h (write_batch_atomic t s.batch newest.event.slot newest.event.signature s.db)

  flush_newest-Flushed :
      (batch : List (PendingWrite V)) (t : Trips) (c : Clock) (s : State V)
      → s.batch ≡ batch
      → parks t.dead_letters ≡ true
      → Flushed s.batch s.db (flush_newest describe batch t c s)
  unfolding flush_newest
  flush_newest-Flushed [] t c s e h = (e, record { rows = rw e tt; others = λ r k. k })
  flush_newest-Flushed (r ∷ rs) t c s e h = flush_rows-Flushed t c (max_by_slot r rs) s h

  -- Where the server carries out the statement that parks a failed batch, every flush returns
  -- with the batch empty, each of its rows in `events` or in `dead_letters`, and nothing that
  -- was kept before is lost, whatever becomes of the other five round trips.
  pub flush-Flushed :
      (t : Trips) (c : Clock) (s : State V)
      → parks t.dead_letters ≡ true
      → Flushed s.batch s.db (flush describe t c s)
  unfolding flush
  flush-Flushed t c s h = flush_newest-Flushed s.batch t c s refl h
