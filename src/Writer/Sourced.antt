-- ===== src/Writer/Sourced.antt =====
-- The writer task adds to `events` only rows that it received (src/writer.rs).
use solana_realtime_indexer.Prelude.{
  String, List, [], ◌∷◌, map, Bool, true, false, Option, none, some, ℤ, inl, inr, All, All-append,
  Bool-cases, leb, length,
}
use solana_realtime_indexer.Identity.{key_eq}
use solana_realtime_indexer.Db.Schema.{EventRow, PendingWrite, Db, event_key}
use solana_realtime_indexer.Db.Result.{SqlError, Reply, served, dropped, silent}
use solana_realtime_indexer.Db.Write.{write_dead_letters}
use solana_realtime_indexer.Table.Laws.{All-insert_rows}
use solana_realtime_indexer.Writer.Flush.{
  Attempt, done, failed, elapsed, Trips, Clock, State, write_batch, max_by_slot, park, conclude,
  flush, flush_rows, flush_newest,
}
use solana_realtime_indexer.Writer.Atomic.{AllOrNothing, applied, write_batch_atomic}
use solana_realtime_indexer.Writer.Loop.{
  Arm, row, closed, tick, then_stop, select, batch_size, push,
}
use solana_realtime_indexer.Writer.Lossless.{rows_of}

pub All-of_map :
    {A B : Type 0} (P : B → Type 0) (f : A → B) (xs : List A)
    → All (λ x. P (f x)) xs
    → All P (map f xs)
All-of_map P f [] h = tt
All-of_map P f (x ∷ xs) h = (h.0, All-of_map P f xs h.1)

module _ {V : Type 0} (P : EventRow V → Type 0) where
  -- What is so of the event of each row.
  abbrev pub HaveEvents : List (PendingWrite V) → Type 0
  HaveEvents rows = All (λ (r : PendingWrite V). P r.event) rows

  -- What is so of each event in memory and in the table.
  abbrev pub IsSourced : State V → Type 0
  IsSourced s = HaveEvents s.batch × All P s.db.events

  abbrev pub Sourced : Option (State V) → Type 0
  Sourced none = Unit
  Sourced (some s) = IsSourced s

  abbrev pub Turned : Option (State V × Bool) → Type 0
  Turned none = Unit
  Turned (some (s, stopped)) = IsSourced s

  applied-events :
      (batch : List (PendingWrite V)) (slot : ℤ) (signature : String) (db : Db V)
      → HaveEvents batch
      → All P db.events
      → All P (applied batch slot signature db).events
  unfolding applied
  applied-events batch slot signature db new old =
      All-insert_rows event_key P (map (λ r. r.event) batch) db.events
        (All-of_map P (λ r. r.event) batch new) old

  push-IsSourced :
      (r : PendingWrite V) (s : State V) → P r.event → IsSourced s → IsSourced (push r s)
  push-IsSourced r s p (rows, old) = (All-append _ s.batch (r ∷ []) rows (p, tt), old)

  then_stop-Turned : (stop : Bool) (o : Option (State V)) → Sourced o → Turned (then_stop stop o)
  then_stop-Turned stop none h = tt
  then_stop-Turned stop (some s) h = h

module _ {V : Type 0} (P : EventRow V → Type 0) (describe : SqlError → String) where
  park-Sourced :
      (reply : Reply) (error : String) (s : State V)
      → All P s.db.events
      → Sourced P (park describe reply error s)
  unfolding park write_dead_letters
  park-Sourced served error s h = (tt, h)
  park-Sourced (dropped true) error s h = (tt, h)
  park-Sourced (dropped false) error s h = (tt, h)
  park-Sourced (silent x) error s h = tt

  conclude-Sourced :
      (t : Trips) (c : Clock) (slot : ℤ) (attempt : Attempt (Unit {0})) (s : State V)
      → All P s.db.events
      → Sourced P (conclude describe t c slot attempt s)
  unfolding conclude
  conclude-Sourced t c slot (done x) s h = (tt, h)
  conclude-Sourced t c slot (failed e) s h = park-Sourced t.dead_letters (describe e) s h
  conclude-Sourced t c slot elapsed s h =
      park-Sourced t.dead_letters "flush timed out after 10s" s h

  tried-events :
      (reply : Reply) (db full : Db V) (tried : Attempt (Unit {0}) × Db V)
      → AllOrNothing reply db full tried
      → All P db.events
      → All P full.events
      → All P tried.1.events
  tried-events reply db full (done _, after) a old new = rw a new
  tried-events reply db full (failed _, after) (inl same) old new = rw same old
  tried-events reply db full (failed _, after) (inr (all, _)) old new = rw all new
  tried-events reply db full (elapsed, after) (inl same) old new = rw same old
  tried-events reply db full (elapsed, after) (inr (all, _)) old new = rw all new

  flush_newest-Sourced :
      (batch : List (PendingWrite V)) (t : Trips) (c : Clock) (s : State V)
      → IsSourced P s
      → Sourced P (flush_newest describe batch t c s)
  unfolding flush_newest flush_rows
  flush_newest-Sourced [] t c s h = h
  flush_newest-Sourced (r ∷ rs) t c s (rows, old) =
      let newest : PendingWrite V = max_by_slot r rs in
      let slot : ℤ = newest.event.slot in
      let signature : String = newest.event.signature in
      let w : Attempt (Unit {0}) × Db V = write_batch t s.batch slot signature s.db in
      conclude-Sourced t c slot w.0 (record s { db = w.1 })
        (tried-events t.commit s.db (applied s.batch slot signature s.db) w
          (write_batch_atomic t s.batch slot signature s.db) old
          (applied-events P s.batch slot signature s.db rows old))

  flush-Sourced :
      (t : Trips) (c : Clock) (s : State V) → IsSourced P s → Sourced P (flush describe t c s)
  unfolding flush
  flush-Sourced t c s h = flush_newest-Sourced s.batch t c s h

  -- A turn of the writer task, whatever becomes of its statements: what is so of each event in the
  -- table, in the batch and in the row received is so of each afterwards.
  pub select-Turned :
      (arm : Arm V) (t : Trips) (c : Clock) (s : State V)
      → HaveEvents P (rows_of arm)
      → IsSourced P s
      → Turned P (select describe arm t c s)
  unfolding select
  select-Turned (row r) t c s p h = elim (Bool-cases (leb batch_size (length (push r s).batch))) [
    | inl full ↦
        rw full
          (then_stop-Turned P false _ (flush-Sourced t c (push r s) (push-IsSourced P r s p.0 h)))
    | inr short ↦ rw short (push-IsSourced P r s p.0 h)
  ]
  select-Turned closed t c s p h = then_stop-Turned P true _ (flush-Sourced t c s h)
  select-Turned tick t c s p h = then_stop-Turned P false _ (flush-Sourced t c s h)
