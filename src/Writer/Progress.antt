-- ===== src/Writer/Progress.antt =====
-- What the checkpoint says, and what a repeated batch does (src/writer.rs).
use solana_realtime_indexer.Prelude.{
  ◌≡◌, refl, sym, subst, String, List, ◌∷◌, map, Bool, Option, none, some, ℤ, inl, inr, ◌≤ℤ◌, ◌<ℤ◌,
  All, All-In, In, ◌∙◌,
}
use solana_realtime_indexer.Table.Laws.{insert_rows-insert_rows}
use solana_realtime_indexer.Identity.{key_eq}
use solana_realtime_indexer.Db.Schema.{PendingWrite, Checkpoint, Db, event_key, trade_key}
use solana_realtime_indexer.Db.Result.{SqlError}
use solana_realtime_indexer.Db.Write.{trade_pairs}
use solana_realtime_indexer.Metrics.{Metrics}
use solana_realtime_indexer.Writer.Flush.{
  Attempt, done, failed, elapsed, Trips, Clock, State, write_batch, max_by_slot, flush, flush_rows,
  flush_newest, conclude,
}
use solana_realtime_indexer.Writer.Atomic.{AllOrNothing, applied, write_batch_atomic}
use solana_realtime_indexer.Writer.Latest.{max_by_slot-In, All-le-max_by_slot}
use solana_realtime_indexer.Writer.Loop.{Turn, writer_loop}
use solana_realtime_indexer.Writer.Lossless.{rows_of}
use solana_realtime_indexer.Writer.Delivery.{start}
use solana_realtime_indexer.Writer.Checkpoint.{IsOnChain, IsSound, EndsTurn, writer_loop-EndsTurn}

module _ {V : Type 0} where
  applied-applied :
      (batch : List (PendingWrite V)) (slot : ℤ) (signature : String) (db : Db V)
      → applied batch slot signature (applied batch slot signature db)
        ≡ applied batch slot signature db
  unfolding applied
  applied-applied batch slot signature db = simp (
    insert_rows-insert_rows event_key (map (λ (r : PendingWrite V). r.event) batch) db.events,
    insert_rows-insert_rows trade_key (trade_pairs batch) db.trades,
  )

  same-or_full :
      (t : Trips) (db full : Db V) (w : Attempt (Unit {0}) × Db V)
      → full ≡ db
      → AllOrNothing t.commit db full w
      → w.1 ≡ db
  same-or_full t db full (done x, after) e a = a ∙ e
  same-or_full t db full (failed x, after) e (inl a) = a
  same-or_full t db full (failed x, after) e (inr (a, _)) = a ∙ e
  same-or_full t db full (elapsed, after) e (inl a) = a
  same-or_full t db full (elapsed, after) e (inr (a, _)) = a ∙ e

  full_if_done :
      (t : Trips) (db full : Db V) (w : Attempt (Unit {0}) × Db V)
      → w.0 ≡ done tt
      → AllOrNothing t.commit db full w
      → w.1 ≡ full
  full_if_done t db full (done x, after) e a = a
  full_if_done t db full (failed x, after) e a = cc
  full_if_done t db full (elapsed, after) e a = cc

  -- Writing a batch again after it has been committed changes nothing, whatever the network does
  -- the second time: the conflicts are skipped, and the checkpoint is the same.
  pub write_batch-write_batch :
      (t u : Trips) (batch : List (PendingWrite V)) (slot : ℤ) (signature : String) (db : Db V)
      → (write_batch t batch slot signature db).0 ≡ done tt
      → (write_batch u batch slot signature (write_batch t batch slot signature db).1).1
        ≡ (write_batch t batch slot signature db).1
  write_batch-write_batch t u batch slot signature db h =
      let db' = (write_batch t batch slot signature db).1 in
      let full =
        full_if_done t db _ (write_batch t batch slot signature db) h
          (write_batch_atomic t batch slot signature db) in
      same-or_full u db' (applied batch slot signature db') (write_batch u batch slot signature db')
        (rw full (applied-applied batch slot signature db))
        (write_batch_atomic u batch slot signature db')

-- A stored checkpoint with this slot and signature.
abbrev checkpoint_at : ℤ → String → Option Checkpoint
checkpoint_at slot signature =
    some (record { last_completed_slot = slot; last_completed_signature = signature })

-- The flush has returned, and the checkpoint is that of the batch's newest row.
abbrev pub Recorded : {V : Type 0} → PendingWrite V → Option (State V) → Type 0
Recorded newest none = ⊥
Recorded newest (some s) = s.db.checkpoint ≡ checkpoint_at newest.event.slot newest.event.signature

module _ {V : Type 0} (describe : SqlError → String) where
  abbrev pub Commits : Trips → PendingWrite V → State V → Type 0
  Commits t newest s =
      (write_batch t s.batch newest.event.slot newest.event.signature s.db).0 ≡ done tt

  applied-checkpoint :
      (batch : List (PendingWrite V)) (slot : ℤ) (signature : String) (db : Db V)
      → (applied batch slot signature db).checkpoint ≡ checkpoint_at slot signature
  unfolding applied
  applied-checkpoint batch slot signature db = refl

  conclude-Recorded :
      (t : Trips) (c : Clock) (newest : PendingWrite V) (s : State V)
      (w : Attempt (Unit {0}) × Db V)
      → w.0 ≡ done tt
      → w.1.checkpoint ≡ checkpoint_at newest.event.slot newest.event.signature
      → Recorded newest (conclude describe t c newest.event.slot w.0 (record s { db = w.1 }))
  unfolding conclude
  conclude-Recorded t c newest s (done x, db) h e = e
  conclude-Recorded t c newest s (failed x, db) h e = cc
  conclude-Recorded t c newest s (elapsed, db) h e = cc

  flush_rows-Recorded :
      (t : Trips) (c : Clock) (newest : PendingWrite V) (s : State V)
      → Commits t newest s
      → Recorded newest (flush_rows describe t c newest s)
  unfolding flush_rows
  flush_rows-Recorded t c newest s h =
      let w = write_batch t s.batch newest.event.slot newest.event.signature s.db in
      conclude-Recorded t c newest s w h (
        rw
          (full_if_done t s.db _ w h
            (write_batch_atomic t s.batch newest.event.slot newest.event.signature s.db))
          (applied-checkpoint s.batch newest.event.slot newest.event.signature s.db))

  flush-Recorded :
      (t : Trips) (c : Clock) (r : PendingWrite V) (rs : List (PendingWrite V)) (s : State V)
      → s.batch ≡ r ∷ rs
      → Commits t (max_by_slot r rs) s
      → Recorded (max_by_slot r rs) (flush describe t c s)
  unfolding flush flush_newest
  flush-Recorded t c r rs s e h =
      subst
        (λ (b : List (PendingWrite V)). Recorded (max_by_slot r rs) (flush_newest describe b t c s))
        (sym e) (flush_rows-Recorded t c (max_by_slot r rs) s h)

  -- When the transaction of a flush returns, so does the flush, and the checkpoint is the slot
  -- and the signature of a row of the batch than which no row of the batch is later.
  flush_records_newest :
      (t : Trips) (c : Clock) (r : PendingWrite V) (rs : List (PendingWrite V)) (s : State V)
      → s.batch ≡ r ∷ rs
      → Commits t (max_by_slot r rs) s
      → (newest : PendingWrite V) × In newest s.batch
        × All (λ (x : PendingWrite V). x.event.slot ≤ℤ newest.event.slot) s.batch
        × Recorded newest (flush describe t c s)
  flush_records_newest t c r rs s e h = (
    max_by_slot r rs,
    rw e (max_by_slot-In r rs),
    rw e (All-le-max_by_slot r rs),
    flush-Recorded t c r rs s e h,
  )

  -- The checkpoint may move back: when the transaction of a flush returns, and every row of its
  -- batch is of an earlier slot than the stored checkpoint, then the checkpoint that the flush
  -- leaves is of an earlier slot than the one before.
  pub flush_regresses :
      (t : Trips) (c : Clock) (r : PendingWrite V) (rs : List (PendingWrite V)) (s : State V)
      (old : Checkpoint)
      → s.batch ≡ r ∷ rs
      → Commits t (max_by_slot r rs) s
      → s.db.checkpoint ≡ some old
      → All (λ (x : PendingWrite V). x.event.slot <ℤ old.last_completed_slot) s.batch
      → (newest : PendingWrite V) × Recorded newest (flush describe t c s)
        × (newest.event.slot <ℤ old.last_completed_slot)
  flush_regresses t c r rs s old e h stored earlier = (
    max_by_slot r rs,
    flush-Recorded t c r rs s e h,
    All-In _ s.batch {a = max_by_slot r rs} earlier (rw e (max_by_slot-In r rs)),
  )

  module _ (slot_of : String → ℤ) where
    -- The checkpoint never claims what was not written: if the rows received name the slots that
    -- hold their transactions, and the tables start so that the checkpoint, if there is one, is
    -- the slot and the signature of a stored event, then they are so after any turns of the
    -- writer task that it returns from, whatever the network does.
    pub checkpoint_covered :
        (turns : List (Turn V)) (db : Db V) (m : Metrics) (s : State V) (stopped : Bool)
        → All
            (λ (x : Turn V).
              All (λ (r : PendingWrite V). IsOnChain slot_of r.event) (rows_of x.arm))
            turns
        → IsSound slot_of db
        → writer_loop describe turns (start describe db m) ≡ some (s, stopped)
        → IsSound slot_of s.db
    checkpoint_covered turns db m s stopped on sound e =
        let end : EndsTurn slot_of (writer_loop describe turns (start describe db m)) =
          writer_loop-EndsTurn slot_of describe turns (start describe db m) on (sound, tt) in
        let after : EndsTurn slot_of (some (s, stopped)) = subst (EndsTurn slot_of) e end in after.0
