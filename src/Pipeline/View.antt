-- ===== src/Pipeline/View.antt =====
-- What a run of `run_pipeline` leaves in `events`, as a set of keys (src/pipeline.rs, src/writer.rs).
use solana_realtime_indexer.Prelude.{
  String, List, [], Bool, true, ◌||◌, none, ◌≡◌, ◌↔◌, ◌⊎◌, inl, inr, refl, subst, arith, In, All-In,
  All-of_In,
}
use mathlib.Core.Path.{fun_ext}
use solana_realtime_indexer.Identity.{EventKey, key_eq}
use solana_realtime_indexer.Db.Schema.{
  EventRow, PendingWrite, Db, event_key, letter_key, pending_key,
}
use solana_realtime_indexer.Db.Result.{SqlError}
use solana_realtime_indexer.Table.{contains}
use solana_realtime_indexer.Table.Laws.{contains-In, contains-found}
use solana_realtime_indexer.Writer.Flush.{State}
use solana_realtime_indexer.Writer.Kept.{IsKept}
use solana_realtime_indexer.Writer.Loop.{row, closed, tick}
use solana_realtime_indexer.Writer.Lossless.{IsHeld, IsFlushed}
use solana_realtime_indexer.Pipeline.{
  Parks, Running, Step, send, refuse, drop_pipeline, receive, end_queue, fire, elsewhere, Reach,
  start, later,
}
use solana_realtime_indexer.Pipeline.Placed.{kept-IsHeld}
use solana_realtime_indexer.Pipeline.Reached.{Inv, Reach-Inv, turned}
use solana_realtime_indexer.Pipeline.Stopped.{stopped-IsKept}
use solana_realtime_indexer.Pipeline.Exact.{IsAlone, Reach-events}

-- The table `events`, its order and its payloads forgotten.
abbrev pub View : Type 0
View = EventKey → Bool

module _ {V : Type 0} where
  abbrev pub view : Db V → View
  view db k = contains event_key k db.events

  -- What a run promises: the keys that were there and those of its rows.
  abbrev pub add_rows : List (PendingWrite V) → View → View
  add_rows rows v k = v k || contains pending_key k rows

  stored-kept :
      (db : Db V) (r : PendingWrite V)
      → db.dead_letters ≡ []
      → IsKept db r
      → view db (pending_key r) ≡ true
  stored-kept db r none_parked (inl stored) = stored
  stored-kept db r none_parked (inr parked) =
      let (l, m, _) = contains-found letter_key db.dead_letters (pending_key r) parked in
      absurd (subst (In l) none_parked m)

  -- A row that is written again to the table.
  abbrev again : EventRow V → PendingWrite V
  again e = record { event = e; trade = none; queued_at = 0 }

same_test : (a b c : Bool) → ((a ≡ true) ↔ ((b ≡ true) ⊎ (c ≡ true))) → a ≡ (b || c)
same_test a b c h = ground arith

module _ {V : Type 0} (describe : SqlError → String) where
  Step-IsHeld :
      (rows : List (PendingWrite V)) {s t : Running V} (x : PendingWrite V)
      → Inv rows s
      → Step Parks describe s t
      → IsHeld s.writer x
      → IsHeld t.writer x
  Step-IsHeld rows x inv (send r rs e up room) h = h
  Step-IsHeld rows x inv (refuse r rs e gone) h = h
  Step-IsHeld rows x inv (drop_pipeline e) h = h
  Step-IsHeld rows {s} x inv (receive r rs trips clock w stop up e p o) h =
      (turned describe s rows (row r) trips clock w stop inv up p o).3 x h
  Step-IsHeld rows {s} x inv (end_queue trips clock w stop up e gone p o) h =
      (turned describe s rows closed trips clock w stop inv up p o).3 x h
  Step-IsHeld rows {s} x inv (fire trips clock w stop up p o) h =
      (turned describe s rows tick trips clock w stop inv up p o).3 x h
  Step-IsHeld rows {s} x inv (elsewhere db keeps) h =
      kept-IsHeld s.writer (record s.writer { db = db }) x keeps refl h

  Reach-IsHeld :
      (rows : List (PendingWrite V)) (w : State V) {s : Running V} (x : PendingWrite V)
      → w.batch ≡ []
      → Reach Parks describe rows w s
      → IsHeld w x
      → IsHeld s.writer x
  Reach-IsHeld rows w x empty start h = h
  Reach-IsHeld rows w x empty (later r st) h =
      Step-IsHeld rows x (Reach-Inv describe rows w empty r) st (Reach-IsHeld rows w x empty r h)

  -- The batch is empty once the task has stopped.
  held-IsKept :
      (rows : List (PendingWrite V)) (s : Running V) (x : PendingWrite V)
      → Inv rows s
      → s.stopped ≡ true
      → IsHeld s.writer x
      → IsKept s.writer.db x
  held-IsKept rows s x inv done (inl k) = k
  held-IsKept rows s x inv done (inr m) =
      absurd (subst (In x) (subst (λ b. IsFlushed b s.writer) done inv.flushed) m)

  IsFrom : List (PendingWrite V) → Db V → EventKey → Type 0
  IsFrom rows db k = (view db k ≡ true) ⊎ (contains pending_key k rows ≡ true)

  stopped-IsFrom :
      (rows : List (PendingWrite V)) (w : State V) (s : Running V) (k : EventKey)
      → w.batch ≡ []
      → (r : Reach Parks describe rows w s) → IsAlone r
      → view s.writer.db k ≡ true
      → IsFrom rows w.db k
  unfolding IsFrom
  stopped-IsFrom rows w s k empty r alone here =
      let (e, m, same) = contains-found event_key s.writer.db.events k here in
      let P : EventRow V → Type 0 = λ x. IsFrom rows w.db (event_key x) in
      let (_, _, (_, events)) =
        Reach-events describe P rows w r alone
          (All-of_In _ rows (λ x n. inr (contains-In pending_key rows x n)))
          (
            rw empty tt,
            All-of_In _ w.db.events (λ x n. inl (contains-In event_key w.db.events x n)),
          ) in
      subst (IsFrom rows w.db) same (All-In P s.writer.db.events events m)

  from-stopped :
      (rows : List (PendingWrite V)) (w : State V) (s : Running V) (k : EventKey)
      → w.batch ≡ []
      → Reach Parks describe rows w s
      → s.stopped ≡ true
      → s.writer.db.dead_letters ≡ []
      → IsFrom rows w.db k
      → view s.writer.db k ≡ true
  unfolding IsFrom
  from-stopped rows w s k empty r done none_parked (inl old) =
      let (e, m, same) = contains-found event_key w.db.events k old in
      rw (← same) (
        stored-kept s.writer.db (again e) none_parked (
          held-IsKept rows s (again e) (Reach-Inv describe rows w empty r) done (
            Reach-IsHeld rows w (again e) empty r
              (inl (inl (contains-In event_key w.db.events e m))))))
  from-stopped rows w s k empty r done none_parked (inr new) =
      let (x, m, same) = contains-found pending_key rows k new in
      rw (← same) (
        stored-kept s.writer.db x none_parked
          (All-In (IsKept s.writer.db) rows (stopped-IsKept describe rows w s empty r done).0 m))

  -- A run that starts from any tables, in which each flush that failed parks its batch, and which
  -- is the only one to add rows to `events`, refines an update of a set: when its writer task has
  -- stopped with nothing in `dead_letters`, the keys in `events` are those that were there and
  -- those of the rows of the stream, no more and no less, whatever the order of the tasks' steps
  -- and however the rows were batched. (A batch whose parking fails too is lost, and is not among
  -- these runs.)
  pub stopped-view :
      (rows : List (PendingWrite V)) (w : State V) (s : Running V)
      → w.batch ≡ []
      → (r : Reach Parks describe rows w s) → IsAlone r
      → s.stopped ≡ true
      → s.writer.db.dead_letters ≡ []
      → view s.writer.db ≡ add_rows rows (view w.db)
  unfolding IsFrom
  stopped-view rows w s empty r alone done none_parked = fun_ext (λ k.
      same_test (view s.writer.db k) (view w.db k) (contains pending_key k rows)
        (stopped-IsFrom rows w s k empty r alone, from-stopped rows w s k empty r done none_parked))
