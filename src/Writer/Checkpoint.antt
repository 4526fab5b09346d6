-- ===== src/Writer/Checkpoint.antt =====
-- The checkpoint against the events (src/writer.rs, `flush`).
use solana_realtime_indexer.Prelude.{
  ◌≡◌, refl, sym, ◌∙◌, ap, String, List, [], ◌∷◌, map, Bool, true, false, Option, none, some, ℤ,
  inl, inr, All, In, All-In, All-append, Option-cases, Bool-cases, leb, length,
}
use solana_realtime_indexer.Identity.{EventKey, key_eq}
use solana_realtime_indexer.Table.{find, contains}
use solana_realtime_indexer.Table.Laws.{find-In, find-key, All-insert_rows}
use solana_realtime_indexer.Db.Schema.{EventRow, PendingWrite, Checkpoint, Db, event_key}
use solana_realtime_indexer.Db.Result.{SqlError, Reply, served, dropped, silent}
use solana_realtime_indexer.Db.Write.{write_dead_letters}
use solana_realtime_indexer.Writer.Flush.{
  Attempt, done, failed, elapsed, Trips, Clock, State, write_batch, max_by_slot, park, conclude,
  flush, flush_rows, flush_newest,
}
use solana_realtime_indexer.Writer.Atomic.{AllOrNothing, applied, write_batch_atomic}
use solana_realtime_indexer.Writer.Kept.{applied-IsStored}
use solana_realtime_indexer.Writer.Latest.{max_by_slot-In}
use solana_realtime_indexer.Writer.Loop.{
  Arm, row, closed, tick, Turn, then_stop, resume, select, writer_loop, push, batch_size,
}
use solana_realtime_indexer.Writer.Lossless.{rows_of}

-- `slot_of` is the chain's own record of the slot that holds a transaction.
module _ {V : Type 0} (slot_of : String → ℤ) where
  abbrev pub IsOnChain : EventRow V → Type 0
  IsOnChain e = e.slot ≡ slot_of e.signature

  -- The checkpoint names a slot and a signature of a stored event.
  abbrev pub IsCovered : List (EventRow V) → Option Checkpoint → Type 0
  IsCovered events none = Unit
  IsCovered events (some c) =
      (e : EventRow V) × In e events
      × (e.signature ≡ c.last_completed_signature)
      × (e.slot ≡ c.last_completed_slot)

  pub record IsSound (db : Db V) : Type 0 where
    pub on_chain : All IsOnChain db.events
    pub covered : IsCovered db.events db.checkpoint

  events-IsOnChain :
      (batch : List (PendingWrite V))
      → All (λ (r : PendingWrite V). IsOnChain r.event) batch
      → All IsOnChain (map (λ (r : PendingWrite V). r.event) batch)
  events-IsOnChain [] h = tt
  events-IsOnChain (r ∷ rs) h = (h.0, events-IsOnChain rs h.1)

  covered_by :
      (events : List (EventRow V)) (newest : EventRow V)
      → All IsOnChain events
      → IsOnChain newest
      → contains event_key (event_key newest) events ≡ true
      → (e : EventRow V) × In e events × (e.signature ≡ newest.signature) × (e.slot ≡ newest.slot)
  covered_by events newest all on h =
      elim (Option-cases (find event_key (event_key newest) events)) [
        | inl fresh ↦ cc
        | inr (e, found) ↦
            let m = find-In event_key (event_key newest) events e found in
            let same =
              ap (λ (k : EventKey). k.signature)
                (find-key event_key (event_key newest) events e found) in
            (e, m, same, All-In IsOnChain events all m ∙ ap slot_of same ∙ sym on)
      ]

  applied-IsSound :
      (batch : List (PendingWrite V)) (newest : PendingWrite V) (db : Db V)
      → In newest batch
      → All (λ (r : PendingWrite V). IsOnChain r.event) batch
      → IsSound db
      → IsSound (applied batch newest.event.slot newest.event.signature db)
  applied-IsSound batch newest db m h s =
      let stored =
        All-In _ batch (applied-IsStored batch newest.event.slot newest.event.signature db) m in
      unfold applied in
      let all =
        All-insert_rows event_key IsOnChain (map (λ (r : PendingWrite V). r.event) batch) db.events
          (events-IsOnChain batch h) s.on_chain in
      record { on_chain = all; covered = covered_by _ newest.event all (All-In _ batch h m) stored }

  abbrev pub IsReady : State V → Type 0
  IsReady s = IsSound s.db × All (λ (r : PendingWrite V). IsOnChain r.event) s.batch

  abbrev Ends : Option (State V) → Type 0
  Ends none = Unit
  Ends (some s) = IsReady s

  abbrev pub EndsTurn : Option (State V × Bool) → Type 0
  EndsTurn none = Unit
  EndsTurn (some (s, stopped)) = IsReady s

  letters-IsSound :
      (batch : List (PendingWrite V)) (error : String) (db : Db V)
      → IsSound db
      → IsSound (write_dead_letters batch error db)
  unfolding write_dead_letters
  letters-IsSound batch error db s = record { on_chain = s.on_chain; covered = s.covered }

  module _ (describe : SqlError → String) where
    park-Ends :
        (reply : Reply) (error : String) (s : State V)
        → IsSound s.db
        → Ends (park describe reply error s)
    unfolding park
    park-Ends served error s h = (letters-IsSound s.batch error s.db h, tt)
    park-Ends (dropped true) error s h = (letters-IsSound s.batch error s.db h, tt)
    park-Ends (dropped false) error s h = (h, tt)
    park-Ends (silent x) error s h = tt

    conclude-Ends :
        (t : Trips) (c : Clock) (slot : ℤ) (attempt : Attempt (Unit {0})) (s : State V)
        → IsSound s.db
        → Ends (conclude describe t c slot attempt s)
    unfolding conclude
    conclude-Ends t c slot (done x) s h = (h, tt)
    conclude-Ends t c slot (failed e) s h = park-Ends t.dead_letters (describe e) s h
    conclude-Ends t c slot elapsed s h = park-Ends t.dead_letters "flush timed out after 10s" s h

    attempt-IsSound :
        (reply : Reply) (db full : Db V) (w : Attempt (Unit {0}) × Db V)
        → IsSound db
        → IsSound full
        → AllOrNothing reply db full w
        → IsSound w.1
    attempt-IsSound reply db full (done x, after) h f a = rw a f
    attempt-IsSound reply db full (failed e, after) h f (inl a) = rw a h
    attempt-IsSound reply db full (failed e, after) h f (inr (a, _)) = rw a f
    attempt-IsSound reply db full (elapsed, after) h f (inl a) = rw a h
    attempt-IsSound reply db full (elapsed, after) h f (inr (a, _)) = rw a f

    flush_rows-Ends :
        (t : Trips) (c : Clock) (newest : PendingWrite V) (s : State V)
        → In newest s.batch
        → IsReady s
        → Ends (flush_rows describe t c newest s)
    unfolding flush_rows
    flush_rows-Ends t c newest s m (h, b) =
        let w = write_batch t s.batch newest.event.slot newest.event.signature s.db in
        conclude-Ends t c newest.event.slot w.0 (record s { db = w.1 })
          (attempt-IsSound t.commit s.db _ w h (applied-IsSound s.batch newest s.db m b h)
            (write_batch_atomic t s.batch newest.event.slot newest.event.signature s.db))

    flush_newest-Ends :
        (batch : List (PendingWrite V)) (t : Trips) (c : Clock) (s : State V)
        → s.batch ≡ batch
        → IsReady s
        → Ends (flush_newest describe batch t c s)
    unfolding flush_newest
    flush_newest-Ends [] t c s e h = h
    flush_newest-Ends (r ∷ rs) t c s e h =
        flush_rows-Ends t c (max_by_slot r rs) s (rw e (max_by_slot-In r rs)) h

    flush-Ends : (t : Trips) (c : Clock) (s : State V) → IsReady s → Ends (flush describe t c s)
    unfolding flush
    flush-Ends t c s h = flush_newest-Ends s.batch t c s refl h

    then_stop-EndsTurn : (stop : Bool) (o : Option (State V)) → Ends o → EndsTurn (then_stop stop o)
    then_stop-EndsTurn stop none h = h
    then_stop-EndsTurn stop (some s) h = h

    push-IsReady :
        (r : PendingWrite V) (s : State V) → IsOnChain r.event → IsReady s → IsReady (push r s)
    push-IsReady r s on (h, b) = (h, All-append _ s.batch _ b (on, tt))

    select-EndsTurn :
        (arm : Arm V) (t : Trips) (c : Clock) (s : State V)
        → All (λ (r : PendingWrite V). IsOnChain r.event) (rows_of arm)
        → IsReady s
        → EndsTurn (select describe arm t c s)
    unfolding select
    select-EndsTurn (row r) t c s on h =
        elim (Bool-cases (leb batch_size (length (push r s).batch))) [
          | inl full ↦
              rw full
                (then_stop-EndsTurn false _ (flush-Ends t c (push r s) (push-IsReady r s on.0 h)))
          | inr short ↦ rw short (push-IsReady r s on.0 h)
        ]
    select-EndsTurn closed t c s on h = then_stop-EndsTurn true _ (flush-Ends t c s h)
    select-EndsTurn tick t c s on h = then_stop-EndsTurn false _ (flush-Ends t c s h)

    pub writer_loop-EndsTurn :
        (turns : List (Turn V)) (s : State V)
        → All
            (λ (t : Turn V). All (λ (r : PendingWrite V). IsOnChain r.event) (rows_of t.arm))
            turns
        → IsReady s
        → EndsTurn (writer_loop describe turns s)
    unfolding writer_loop
    writer_loop-EndsTurn [] s on h = h
    writer_loop-EndsTurn (turn ∷ turns) s on h =
        go (select describe turn.arm turn.trips turn.clock s)
          (select-EndsTurn turn.arm turn.trips turn.clock s on.0 h)
          (λ s' h'. writer_loop-EndsTurn turns s' on.1 h')
      where
        go :
            (o : Option (State V × Bool))
            → EndsTurn o
            → ((s' : State V) → IsReady s' → EndsTurn (writer_loop describe turns s'))
            → EndsTurn (resume (writer_loop describe turns) o)
        go none e f = tt
        go (some (s', true)) e f = e
        go (some (s', false)) e f = f s' e
