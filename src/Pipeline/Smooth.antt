-- ===== src/Pipeline/Smooth.antt =====
-- A run of `run_pipeline` whose statements are all answered (src/pipeline.rs, src/writer.rs).
use solana_realtime_indexer.Prelude.{
  String, List, [], ◌∷◌, Bool, true, false, Option, some, none, ◌≡◌, sym, ap, subst, inl, inr, ℤ,
  All, All-append, In, Bool-cases, leb, length,
}
use solana_realtime_indexer.Db.Schema.{PendingWrite, Db}
use solana_realtime_indexer.Db.Result.{SqlError}
use solana_realtime_indexer.Db.Integrity.{IsWellFormed}
use solana_realtime_indexer.Writer.Flush.{
  done, State, Trips, Clock, conclude, max_by_slot, flush_rows, flush_newest, flush,
}
use solana_realtime_indexer.Writer.Atomic.{applied}
use solana_realtime_indexer.Writer.Admitted.{IsAnswered, IsSound, sound-applied}
use solana_realtime_indexer.Writer.Integrity.{write_batch-IsWellFormed}
use solana_realtime_indexer.Writer.Loop.{
  Arm, row, closed, tick, select, then_stop, push, batch_size,
}
use solana_realtime_indexer.Writer.Lossless.{rows_of}
use solana_realtime_indexer.Pipeline.{
  Parks, Running, Step, send, refuse, drop_pipeline, receive, end_queue, fire, elsewhere, Reach,
  start, later,
}
use solana_realtime_indexer.Pipeline.Exact.{AddsNone, IsAlone}

-- The other tasks leave these tables as they are.
abbrev pub IsLeft : {V : Type 0} → Db V → Db V → Type 0
IsLeft db db' =
    (db'.events ≡ db.events) × (db'.trades ≡ db.trades) × (db'.dead_letters ≡ db.dead_letters)

module _ {V : Type 0} {describe : SqlError → String} where
  -- The statements of the step are answered, or it leaves the tables as they are.
  abbrev pub IsSmoothStep : {s t : Running V} → Step Parks describe s t → Type 0
  IsSmoothStep (send _ _ _ _ _) = Unit
  IsSmoothStep (refuse _ _ _ _) = Unit
  IsSmoothStep (drop_pipeline _) = Unit
  IsSmoothStep (receive _ _ trips _ _ _ _ _ _ _) = IsAnswered trips
  IsSmoothStep (end_queue trips _ _ _ _ _ _ _ _) = IsAnswered trips
  IsSmoothStep (fire trips _ _ _ _ _ _) = IsAnswered trips
  IsSmoothStep {s} (elsewhere db _) = IsLeft s.writer.db db

  abbrev pub IsSmooth :
      {rows : List (PendingWrite V)} {w : State V} {s : Running V}
      → Reach Parks describe rows w s
      → Type 0
  IsSmooth start = Unit
  IsSmooth (later r st) = IsSmooth r × IsSmoothStep st

  smooth-AddsNone : {s t : Running V} (st : Step Parks describe s t) → IsSmoothStep st → AddsNone st
  smooth-AddsNone (send _ _ _ _ _) h = tt
  smooth-AddsNone (refuse _ _ _ _) h = tt
  smooth-AddsNone (drop_pipeline _) h = tt
  smooth-AddsNone (receive _ _ _ _ _ _ _ _ _ _) h = tt
  smooth-AddsNone (end_queue _ _ _ _ _ _ _ _ _) h = tt
  smooth-AddsNone (fire _ _ _ _ _ _ _) h = tt
  smooth-AddsNone (elsewhere db _) h = λ e m. subst (In e) h.0 m

  pub smooth-IsAlone :
      {rows : List (PendingWrite V)} {w : State V} {s : Running V}
      (r : Reach Parks describe rows w s)
      → IsSmooth r
      → IsAlone r
  smooth-IsAlone start h = tt
  smooth-IsAlone (later r st) h = (smooth-IsAlone r h.0, smooth-AddsNone st h.1)

module _ {V : Type 0} where
  -- Nothing was refused so far, and no row in memory will be.
  pub record IsClean (s : State V) : Type 0 where
    pub well : IsWellFormed s.db
    pub none_parked : s.db.dead_letters ≡ []
    pub sound : All IsSound s.batch

  abbrev Clean : Option (State V) → Type 0
  Clean none = Unit
  Clean (some s) = IsClean s

  abbrev pub CleanTurn : Option (State V × Bool) → Type 0
  CleanTurn none = Unit
  CleanTurn (some (s, stop)) = IsClean s

  then_stop-CleanTurn :
      (stop : Bool) (o : Option (State V)) → Clean o → CleanTurn (then_stop stop o)
  then_stop-CleanTurn stop none h = tt
  then_stop-CleanTurn stop (some s) h = h

  push-IsClean : (r : PendingWrite V) (s : State V) → IsSound r → IsClean s → IsClean (push r s)
  push-IsClean r s p h = record {
    well = h.well;
    none_parked = h.none_parked;
    sound = All-append IsSound s.batch (r ∷ []) h.sound (p, tt);
  }

  applied-IsClean :
      (t : Trips) (slot : ℤ) (signature : String) (s : State V)
      → IsAnswered t
      → IsClean s
      → IsWellFormed (applied s.batch slot signature s.db)
        × ((applied s.batch slot signature s.db).dead_letters ≡ [])
  unfolding applied
  applied-IsClean t slot signature s a h = (
    subst IsWellFormed
        (ap (λ x. x.1) (sound-applied t s.batch slot signature s.db a h.well h.sound))
        (write_batch-IsWellFormed t s.batch slot signature s.db h.well),
    h.none_parked,
  )

module _ {V : Type 0} (describe : SqlError → String) where
  done-Clean :
      (t : Trips) (c : Clock) (slot : ℤ) (s : State V)
      → IsWellFormed s.db
      → s.db.dead_letters ≡ []
      → Clean (conclude describe t c slot (done tt) s)
  unfolding conclude
  done-Clean t c slot s w e = record { well = w; none_parked = e; sound = tt }

  flush_newest-Clean :
      (batch : List (PendingWrite V)) (t : Trips) (c : Clock) (s : State V)
      → IsAnswered t
      → IsClean s
      → Clean (flush_newest describe batch t c s)
  unfolding flush_newest flush_rows
  flush_newest-Clean [] t c s a h = h
  flush_newest-Clean (r ∷ rs) t c s a h =
      let newest : PendingWrite V = max_by_slot r rs in
      let slot : ℤ = newest.event.slot in
      let signature : String = newest.event.signature in
      let (well, none_parked) = applied-IsClean t slot signature s a h in
      subst (λ x. Clean (conclude describe t c slot x.0 (record s { db = x.1 })))
        (sym (sound-applied t s.batch slot signature s.db a h.well h.sound))
        (done-Clean t c slot (record s { db = applied s.batch slot signature s.db }) well
          none_parked)

  flush-Clean :
      (t : Trips) (c : Clock) (s : State V)
      → IsAnswered t
      → IsClean s
      → Clean (flush describe t c s)
  unfolding flush
  flush-Clean t c s a h = flush_newest-Clean s.batch t c s a h

  pub select-CleanTurn :
      (arm : Arm V) (t : Trips) (c : Clock) (s : State V)
      → IsAnswered t
      → All IsSound (rows_of arm)
      → IsClean s
      → CleanTurn (select describe arm t c s)
  unfolding select
  select-CleanTurn (row r) t c s a p h =
      elim (Bool-cases (leb batch_size (length (push r s).batch))) [
        | inl full ↦
            rw full
              (then_stop-CleanTurn false _ (flush-Clean t c (push r s) a (push-IsClean r s p.0 h)))
        | inr short ↦ rw short (push-IsClean r s p.0 h)
      ]
  select-CleanTurn closed t c s a p h = then_stop-CleanTurn true _ (flush-Clean t c s a h)
  select-CleanTurn tick t c s a p h = then_stop-CleanTurn false _ (flush-Clean t c s a h)
