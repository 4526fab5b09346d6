-- ===== src/Pipeline/Stopped.antt =====
-- What a run of `run_pipeline` leaves behind, and that it can always end (src/pipeline.rs).
use solana_realtime_indexer.Prelude.{
  String, List, [], ◌∷◌, ◌++◌, Bool, true, false, Option, some, none, ◌≡◌, refl, inl, inr, ap,
  arith, subst, length, All, All-of_In, In, Bool-cases,
}
use solana_realtime_indexer.Db.Schema.{PendingWrite}
use solana_realtime_indexer.Db.Result.{SqlError}
use solana_realtime_indexer.Writer.Flush.{State, Trips, Clock}
use solana_realtime_indexer.Writer.Kept.{parks, IsKept}
use solana_realtime_indexer.Writer.Loop.{Arm, row, closed, select}
use solana_realtime_indexer.Writer.Lossless.{IsFlushed, Selected, select-Selected}
use solana_realtime_indexer.Pipeline.{
  Parks, Running, Step, send, drop_pipeline, receive, end_queue, Reach,
}
use solana_realtime_indexer.Pipeline.Placed.{IsPlaced}
use solana_realtime_indexer.Pipeline.Reached.{Inv, Step-Inv, Reach-Inv}

-- The run goes on from one state to the other.
pub data Leads {V : Type 0} (describe : SqlError → String) : Running V → Running V → Type 0 where
  stay : {s : Running V} → Leads describe s s
  go : {s t u : Running V} → Step Parks describe s t → Leads describe t u → Leads describe s u

-- Some way to go on stops the writer task.
abbrev pub CanStop : {V : Type 0} → (SqlError → String) → Running V → Type 0
CanStop {V} describe s = (t : Running V) × Leads describe s t × (t.stopped ≡ true)

module _ {V : Type 0} (describe : SqlError → String) where
  placed-IsKept :
      (s : Running V) (r : PendingWrite V)
      → s.to_send ≡ []
      → s.queue ≡ []
      → s.writer.batch ≡ []
      → IsPlaced s r
      → IsKept s.writer.db r
  placed-IsKept s r sent empty flushed (inl m) = absurd (subst (In r) sent m)
  placed-IsKept s r sent empty flushed (inr (inl m)) = absurd (subst (In r) empty m)
  placed-IsKept s r sent empty flushed (inr (inr (inl k))) = k
  placed-IsKept s r sent empty flushed (inr (inr (inr m))) = absurd (subst (In r) flushed m)

  -- When the writer task has stopped, whatever the order in which the tasks took their steps and
  -- whatever became of the statements, as long as each flush that failed parked its batch: every row
  -- that the run was to write is in `events` or in `dead_letters`, and none is left to send.
  pub stopped-IsKept :
      (rows : List (PendingWrite V)) (w : State V) (s : Running V)
      → w.batch ≡ []
      → Reach Parks describe rows w s
      → s.stopped ≡ true
      → All (IsKept s.writer.db) rows × (s.to_send ≡ [])
  stopped-IsKept rows w s empty r done =
      let inv = Reach-Inv describe rows w empty r in
      let (drained, dropped) = inv.ended done in
      let flushed : s.writer.batch ≡ [] = subst (λ b. IsFlushed b s.writer) done inv.flushed in
      (
        All-of_In (IsKept s.writer.db) rows
            (λ x m. placed-IsKept s x (inv.handed dropped) drained flushed (inv.placed x m)),
        inv.handed dropped,
      )

  Selected-some :
      (w : State V) (arm : Arm V) (o : Option (State V × Bool))
      → Selected w arm o
      → (w' : State V) × (stop : Bool) × (o ≡ some (w', stop)) × Selected w arm (some (w', stop))
  Selected-some w arm none sel = absurd sel
  Selected-some w arm (some (w', stop)) sel = (w', stop, refl, sel)

  CanStop-step :
      {s t : Running V} → Step Parks describe s t → CanStop describe t → CanStop describe s
  CanStop-step st (u, leads, done) = (u, go st leads, done)

  module _ (rows : List (PendingWrite V)) (trips : Trips) (clock : Clock)
      (p : parks trips.dead_letters ≡ true) where
    -- A turn of the writer task ends.
    turn-ends :
        (arm : Arm V) (s : Running V)
        → Inv rows s
        → s.stopped ≡ false
        → (w : State V) × (stop : Bool) × (select describe arm trips clock s.writer
            ≡ some (w, stop))
          × Selected s.writer arm (some (w, stop))
    turn-ends arm s inv up = Selected-some s.writer arm (select describe arm trips clock s.writer) (
        select-Selected describe arm trips clock s.writer p
          (subst (λ b. IsFlushed b s.writer) up inv.flushed))

    last-CanStop :
        (s : Running V)
        → Inv rows s
        → s.stopped ≡ false
        → s.queue ≡ []
        → s.connected ≡ false
        → CanStop describe s
    last-CanStop s inv up empty gone =
        let (w, stop, o, sel) = turn-ends closed s inv up in
        (
          record s { writer = w; stopped = stop },
          go (end_queue trips clock w stop up empty gone p o) stay,
          sel.0,
        )

    -- The writer task empties the channel, and the run goes on from there.
    drain-CanStop :
        (q : List (PendingWrite V)) (s : Running V)
        → Inv rows s
        → s.stopped ≡ false
        → s.queue ≡ q
        → ((t : Running V)
            → Inv rows t
            → t.stopped ≡ false
            → t.queue ≡ []
            → t.to_send ≡ s.to_send
            → t.connected ≡ s.connected
            → CanStop describe t)
        → CanStop describe s
    drain-CanStop [] s inv up e next = next s inv up e refl refl
    drain-CanStop (r ∷ q) s inv up e next =
        let (w, stop, o, sel) = turn-ends (row r) s inv up in
        let st = receive r q trips clock w stop up e p o in
        CanStop-step st (
          drain-CanStop q (record s { queue = q; writer = w; stopped = stop })
            (Step-Inv describe rows st inv) sel.0 refl next)

    dropped-CanStop :
        (s : Running V)
        → Inv rows s
        → s.stopped ≡ false
        → s.queue ≡ []
        → s.to_send ≡ []
        → CanStop describe s
    dropped-CanStop s inv up empty sent =
        let st = drop_pipeline sent in
        CanStop-step st (
          last-CanStop (record s { connected = false }) (Step-Inv describe rows st inv) up empty
            refl)

    -- The processors hand over a row each time that the channel is empty.
    send-CanStop :
        (rs : List (PendingWrite V)) (s : Running V)
        → Inv rows s
        → s.stopped ≡ false
        → s.to_send ≡ rs
        → s.queue ≡ []
        → CanStop describe s
    send-CanStop [] s inv up e empty = dropped-CanStop s inv up empty e
    send-CanStop (r ∷ rs) s inv up e empty =
        let st = send r rs e up (omega (arith, ap length empty)) in
        let s' : Running V = record s { to_send = rs; queue = s.queue ++ r ∷ [] } in
        CanStop-step st (
          drain-CanStop (s.queue ++ r ∷ []) s' (Step-Inv describe rows st inv) up refl
            (λ t inv' up' empty' sent _. send-CanStop rs t inv' up' sent empty'))

    Inv-CanStop : (s : Running V) → Inv rows s → CanStop describe s
    Inv-CanStop s inv = elim (Bool-cases s.stopped) [
      | inl done ↦ (s, stay, done)
      | inr up ↦
          drain-CanStop s.queue s inv up refl
            (λ t inv' up' empty _ _. send-CanStop t.to_send t inv' up' refl empty)
    ]

  -- A run never comes to a state in which its tasks wait for each other: from each state that it can
  -- come to, there is a way on to the end of the writer task, also if every statement fails as long
  -- as the failed batches are parked (`trips` and `clock` are what each flush of it meets).
  pub Reach-CanStop :
      (rows : List (PendingWrite V)) (w : State V) (trips : Trips) (clock : Clock) (s : Running V)
      → w.batch ≡ []
      → parks trips.dead_letters ≡ true
      → Reach Parks describe rows w s
      → CanStop describe s
  Reach-CanStop rows w trips clock s empty p r =
      Inv-CanStop rows trips clock p s (Reach-Inv describe rows w empty r)
