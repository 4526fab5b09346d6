-- ===== src/Pipeline/Reached.antt =====
-- What holds in every state that `run_pipeline` comes to (src/pipeline.rs, src/writer.rs).
use solana_realtime_indexer.Prelude.{
  String, List, [], ◌∷◌, ◌++◌, Bool, true, false, some, ◌≡◌, ◌<◌, ◌≤◌, ◌⊎◌, ◌≢◌, refl, sym, inl, ap,
  ◌∙◌, arith, subst, length, length-append, In,
}
use solana_realtime_indexer.Config.{write_queue_size}
use solana_realtime_indexer.Db.Schema.{PendingWrite}
use solana_realtime_indexer.Db.Result.{SqlError}
use solana_realtime_indexer.Writer.Flush.{State, Trips, Clock}
use solana_realtime_indexer.Writer.Kept.{parks, IsKept}
use solana_realtime_indexer.Writer.Loop.{Arm, row, closed, tick, select}
use solana_realtime_indexer.Writer.Lossless.{IsHeld, IsFlushed, Selected, select-Selected}
use solana_realtime_indexer.Pipeline.{
  Parks, Running, spawned, Step, send, refuse, drop_pipeline, receive, end_queue, fire, elsewhere,
  Reach, start, later,
}
use solana_realtime_indexer.Pipeline.Placed.{
  IsPlaced, sent-IsPlaced, turned-IsPlaced, kept-IsPlaced, IsFlushed-same,
}

true-false : true ≢ false
true-false h = cc

module _ {V : Type 0} where
  cons-nil : {r : PendingWrite V} {rs : List (PendingWrite V)} → (r ∷ rs) ≢ []
  cons-nil h = cc

  pub record Inv (rows : List (PendingWrite V)) (s : Running V) : Type 0 where
    pub placed : (r : PendingWrite V) → In r rows → IsPlaced s r
    -- the channel is never over its capacity
    pub bounded : length s.queue ≤ write_queue_size
    -- the batch is short of its size, and empty in the end
    pub flushed : IsFlushed s.stopped s.writer
    -- the task leaves its loop when the channel is empty and has no sender left
    pub ended : s.stopped ≡ true → (s.queue ≡ []) × (s.connected ≡ false)
    -- the pipeline has handed over all its rows before it is dropped
    pub handed : s.connected ≡ false → s.to_send ≡ []

module _ {V : Type 0} (describe : SqlError → String) where
  pub turned :
      (s : Running V) (rows : List (PendingWrite V)) (arm : Arm V) (trips : Trips) (clock : Clock)
      (w : State V) (stop : Bool)
      → Inv rows s
      → s.stopped ≡ false
      → parks trips.dead_letters ≡ true
      → select describe arm trips clock s.writer ≡ some (w, stop)
      → Selected s.writer arm (some (w, stop))
  turned s rows arm trips clock w stop inv up p o = subst (Selected s.writer arm) o (
      select-Selected describe arm trips clock s.writer p
        (subst (λ b. IsFlushed b s.writer) up inv.flushed))

  send-Inv :
      (s : Running V) (rows : List (PendingWrite V)) (r : PendingWrite V)
      (rs : List (PendingWrite V))
      → s.to_send ≡ r ∷ rs
      → s.stopped ≡ false
      → length s.queue < write_queue_size
      → Inv rows s
      → Inv rows (record s { to_send = rs; queue = s.queue ++ r ∷ [] })
  send-Inv s rows r rs e up room inv = record {
    placed = λ x m.
        sent-IsPlaced r x rs s.queue s.writer
          (subst (λ l. In x l ⊎ In x s.queue ⊎ IsHeld s.writer x) e (inv.placed x m));
    bounded = omega (arith, length-append s.queue (r ∷ []));
    flushed = inv.flushed;
    ended = λ h. absurd (true-false (sym h ∙ up));
    handed = λ h. absurd (cons-nil (sym e ∙ inv.handed h));
  }

  receive-Inv :
      (s : Running V) (rows : List (PendingWrite V)) (r : PendingWrite V)
      (rs : List (PendingWrite V)) (w : State V) (stop : Bool)
      → s.queue ≡ r ∷ rs
      → Selected s.writer (row r) (some (w, stop))
      → Inv rows s
      → Inv rows (record s { queue = rs; writer = w; stopped = stop })
  receive-Inv s rows r rs w stop e sel inv = record {
    placed = λ x m.
        turned-IsPlaced (row r) x s.to_send rs s.writer w stop sel
          (subst (λ l. In x s.to_send ⊎ In x l ⊎ IsHeld s.writer x) e (inv.placed x m));
    bounded = omega (arith, inv.bounded, ap length e);
    flushed = sel.1;
    ended = λ h. absurd (true-false (sym h ∙ sel.0));
    handed = inv.handed;
  }

  end-Inv :
      (s : Running V) (rows : List (PendingWrite V)) (w : State V) (stop : Bool)
      → s.queue ≡ []
      → s.connected ≡ false
      → Selected s.writer closed (some (w, stop))
      → Inv rows s
      → Inv rows (record s { writer = w; stopped = stop })
  end-Inv s rows w stop e gone sel inv = record {
    placed = λ x m. turned-IsPlaced closed x s.to_send s.queue s.writer w stop sel (inv.placed x m);
    bounded = inv.bounded;
    flushed = sel.1;
    ended = λ h. (e, gone);
    handed = inv.handed;
  }

  fire-Inv :
      (s : Running V) (rows : List (PendingWrite V)) (w : State V) (stop : Bool)
      → Selected s.writer tick (some (w, stop))
      → Inv rows s
      → Inv rows (record s { writer = w; stopped = stop })
  fire-Inv s rows w stop sel inv = record {
    placed = λ x m. turned-IsPlaced tick x s.to_send s.queue s.writer w stop sel (inv.placed x m);
    bounded = inv.bounded;
    flushed = sel.1;
    ended = λ h. absurd (true-false (sym h ∙ sel.0));
    handed = inv.handed;
  }

  other-Inv :
      (s : Running V) (rows : List (PendingWrite V)) (w : State V)
      → ((r : PendingWrite V) → IsKept s.writer.db r → IsKept w.db r)
      → s.writer.batch ≡ w.batch
      → Inv rows s
      → Inv rows (record s { writer = w })
  other-Inv s rows w keeps same inv = record {
    placed = λ x m. kept-IsPlaced x s.to_send s.queue s.writer w keeps same (inv.placed x m);
    bounded = inv.bounded;
    flushed = IsFlushed-same s.stopped s.writer w same inv.flushed;
    ended = inv.ended;
    handed = inv.handed;
  }

  pub Step-Inv :
      {s t : Running V} (rows : List (PendingWrite V))
      → Step Parks describe s t
      → Inv rows s
      → Inv rows t
  Step-Inv {s} rows (send r rs e up room) inv = send-Inv s rows r rs e up room inv
  Step-Inv {s} rows (refuse r rs e gone) inv =
      absurd (cons-nil (sym e ∙ inv.handed (inv.ended gone).1))
  Step-Inv {s} rows (drop_pipeline e) inv = record {
    placed = inv.placed;
    bounded = inv.bounded;
    flushed = inv.flushed;
    ended = λ h. ((inv.ended h).0, refl);
    handed = λ _. e;
  }
  Step-Inv {s} rows (receive r rs trips clock w stop up e p o) inv =
      receive-Inv s rows r rs w stop e (turned s rows (row r) trips clock w stop inv up p o) inv
  Step-Inv {s} rows (end_queue trips clock w stop up e gone p o) inv =
      end-Inv s rows w stop e gone (turned s rows closed trips clock w stop inv up p o) inv
  Step-Inv {s} rows (fire trips clock w stop up p o) inv =
      fire-Inv s rows w stop (turned s rows tick trips clock w stop inv up p o) inv
  Step-Inv {s} rows (elsewhere db keeps) inv =
      other-Inv s rows (record s.writer { db = db }) keeps refl inv

  start-Inv :
      (rows : List (PendingWrite V)) (w : State V) → w.batch ≡ [] → Inv rows (spawned rows w)
  start-Inv rows w empty = record {
    placed = λ x m. inl m;
    bounded = omega arith;
    flushed = omega (arith, ap length empty);
    ended = λ h. absurd (true-false (sym h));
    handed = λ h. absurd (true-false h);
  }

  -- In every state that a run comes to in which each flush that failed has parked its batch: each
  -- row of the stream is still to be sent, in the channel, in the batch, or in `events` or
  -- `dead_letters`; the channel holds at most its capacity; the batch is short of 100 rows, and
  -- empty once the writer task has stopped; that happens only when the channel is empty and the
  -- pipeline dropped, which in turn has no row left to send.
  pub Reach-Inv :
      (rows : List (PendingWrite V)) (w : State V) {s : Running V}
      → w.batch ≡ []
      → Reach Parks describe rows w s
      → Inv rows s
  Reach-Inv rows w empty start = start-Inv rows w empty
  Reach-Inv rows w empty (later r st) = Step-Inv rows st (Reach-Inv rows w empty r)
