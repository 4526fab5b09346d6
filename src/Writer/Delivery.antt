-- ===== src/Writer/Delivery.antt =====
-- What the writer promises for the rows that it is sent (src/writer.rs): `flush` on its own, and
-- the task of `spawn_writer` from its start.
use solana_realtime_indexer.Prelude.{
  ◌≡◌, String, List, [], true, Option, none, some, inl, inr, All, All-In, arith,
}
use solana_realtime_indexer.Db.Schema.{PendingWrite, Db}
use solana_realtime_indexer.Db.Result.{SqlError}
use solana_realtime_indexer.Metrics.{Metrics}
use solana_realtime_indexer.Writer.Flush.{Trips, Clock, State, flush}
use solana_realtime_indexer.Writer.Kept.{parks, IsKept}
use solana_realtime_indexer.Writer.Flushed.{Flushed, flush-Flushed}
use solana_realtime_indexer.Writer.Loop.{Turn, writer_loop}
use solana_realtime_indexer.Writer.Lossless.{
  IsHeld, Drained, received, has_closed, writer_loop-Drained,
}

-- The flush has returned with an empty batch, and the row is in the database.
abbrev pub Delivered : {V : Type 0} → PendingWrite V → Option (State V) → Type 0
Delivered r none = ⊥
Delivered r (some s) = (s.batch ≡ []) × IsKept s.db r

module _ {V : Type 0} (describe : SqlError → String) where
  Flushed-Delivered :
      (s : State V) (r : PendingWrite V) (o : Option (State V))
      → Flushed s.batch s.db o
      → IsHeld s r
      → Delivered r o
  Flushed-Delivered s r none f h = f
  Flushed-Delivered s r (some s') f (inl k) = (f.0, f.1.others r k)
  Flushed-Delivered s r (some s') f (inr m) = (f.0, All-In _ s.batch f.1.rows m)

  -- Where the server carries out the statement that parks a failed batch, a flush returns with
  -- the batch empty, and a row that was in the batch, in `events` or in `dead_letters` before is
  -- in `events` or in `dead_letters` after it, whatever becomes of the other five round trips.
  flush_delivers :
      (t : Trips) (c : Clock) (s : State V) (r : PendingWrite V)
      → parks t.dead_letters ≡ true
      → IsHeld s r
      → Delivered r (flush describe t c s)
  flush_delivers t c s r p h = Flushed-Delivered s r _ (flush-Flushed describe t c s p) h

  abbrev pub start : Db V → Metrics → State V
  start db m = record { db = db; batch = []; metrics = m }

  -- Where every flush can park a batch that fails, the writer task loses no row: it runs through
  -- its turns, it has left the loop exactly if its channel has ended, and each row that it has
  -- received is in `events`, in `dead_letters` or in the batch, which is empty after the end of
  -- the channel and has fewer than 100 rows before it.
  pub writer_loop_lossless :
      (turns : List (Turn V)) (db : Db V) (m : Metrics)
      → All (λ (t : Turn V). parks t.trips.dead_letters ≡ true) turns
      → Drained (received turns) (has_closed turns) (writer_loop describe turns (start db m))
  writer_loop_lossless turns db m p =
      writer_loop-Drained describe turns [] (start db m) p (omega arith) tt
