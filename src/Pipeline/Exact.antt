-- ===== src/Pipeline/Exact.antt =====
-- What a run of `run_pipeline` adds to `events`, as a set of keys (src/pipeline.rs, src/writer.rs).
use solana_realtime_indexer.Prelude.{
  String, List, [], ◌∷◌, Bool, some, ◌≡◌, subst, All-In, All-append, All-of_In, In,
}
use solana_realtime_indexer.Identity.{key_eq}
use solana_realtime_indexer.Db.Schema.{EventRow, PendingWrite}
use solana_realtime_indexer.Db.Result.{SqlError}
use solana_realtime_indexer.Writer.Flush.{State, Trips, Clock}
use solana_realtime_indexer.Writer.Loop.{Arm, row, closed, tick, select}
use solana_realtime_indexer.Writer.Lossless.{rows_of}
use solana_realtime_indexer.Writer.Sourced.{HaveEvents, IsSourced, Turned, select-Turned}
use solana_realtime_indexer.Pipeline.{
  Parks, Running, Step, send, refuse, drop_pipeline, receive, end_queue, fire, elsewhere, Reach,
  start, later,
}

module _ {V : Type 0} {describe : SqlError → String} where
  -- If the step is one of another task, it adds no row to `events`.
  abbrev pub AddsNone : {s t : Running V} → Step Parks describe s t → Type 0
  AddsNone (send _ _ _ _ _) = Unit
  AddsNone (refuse _ _ _ _) = Unit
  AddsNone (drop_pipeline _) = Unit
  AddsNone (receive _ _ _ _ _ _ _ _ _ _) = Unit
  AddsNone (end_queue _ _ _ _ _ _ _ _ _) = Unit
  AddsNone (fire _ _ _ _ _ _ _) = Unit
  AddsNone {s} (elsewhere db _) = (e : EventRow V) → In e db.events → In e s.writer.db.events

  -- The run is the only one that adds rows to `events`.
  abbrev pub IsAlone :
      {rows : List (PendingWrite V)} {w : State V} {s : Running V}
      → Reach Parks describe rows w s
      → Type 0
  IsAlone start = Unit
  IsAlone (later r st) = IsAlone r × AddsNone st

abbrev IsSourcedRun : {V : Type 0} → (EventRow V → Type 0) → Running V → Type 0
IsSourcedRun P s = HaveEvents P s.to_send × HaveEvents P s.queue × IsSourced P s.writer

module _ {V : Type 0} (describe : SqlError → String) (P : EventRow V → Type 0) where
  turned-IsSourced :
      (arm : Arm V) (trips : Trips) (clock : Clock) (w w' : State V) (stop : Bool)
      → select describe arm trips clock w ≡ some (w', stop)
      → HaveEvents P (rows_of arm)
      → IsSourced P w
      → IsSourced P w'
  turned-IsSourced arm trips clock w w' stop o new h =
      subst (Turned P) o (select-Turned P describe arm trips clock w new h)

  Step-IsSourcedRun :
      {s t : Running V} (st : Step Parks describe s t)
      → AddsNone st
      → IsSourcedRun P s
      → IsSourcedRun P t
  Step-IsSourcedRun {s} (send r rs e up room) alone (ts, q, h) =
      let now : HaveEvents P (r ∷ rs) = subst (HaveEvents P) e ts in
      (now.1, All-append _ s.queue (r ∷ []) q (now.0, tt), h)
  Step-IsSourcedRun {s} (refuse r rs e gone) alone (ts, q, h) =
      ((subst (HaveEvents P) e ts).1, q, h)
  Step-IsSourcedRun (drop_pipeline e) alone h = h
  Step-IsSourcedRun {s} (receive r rs trips clock w stop up e p o) alone (ts, q, h) =
      let now : HaveEvents P (r ∷ rs) = subst (HaveEvents P) e q in
      (ts, now.1, turned-IsSourced (row r) trips clock s.writer w stop o (now.0, tt) h)
  Step-IsSourcedRun {s} (end_queue trips clock w stop up e gone p o) alone (ts, q, h) =
      (ts, q, turned-IsSourced closed trips clock s.writer w stop o tt h)
  Step-IsSourcedRun {s} (fire trips clock w stop up p o) alone (ts, q, h) =
      (ts, q, turned-IsSourced tick trips clock s.writer w stop o tt h)
  Step-IsSourcedRun {s} (elsewhere db keeps) alone (ts, q, (rows, old)) =
      (ts, q, (rows, All-of_In P db.events (λ e m. All-In P s.writer.db.events old (alone e m))))

  -- What is so of each row of the stream and of each row that `events` held before is so of each
  -- row in `events`, at any time.
  pub Reach-events :
      (rows : List (PendingWrite V)) (w : State V) {s : Running V}
      (r : Reach Parks describe rows w s)
      → IsAlone r
      → HaveEvents P rows
      → IsSourced P w
      → IsSourcedRun P s
  Reach-events rows w start alone new old = (new, tt, old)
  Reach-events rows w (later r st) alone new old =
      Step-IsSourcedRun st alone.1 (Reach-events rows w r alone.0 new old)
