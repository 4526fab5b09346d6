-- ===== src/Writer/Lossless.antt =====
-- No row that the writer task receives is lost (the task of `spawn_writer` in src/writer.rs).
use solana_realtime_indexer.Prelude.{
  ◌≡◌, refl, ◌<◌, String, List, [], ◌∷◌, ◌++◌, Bool, true, false, ◌||◌, Option, none, some, ◌⊎◌,
  inl, inr, arith, if◌then◌else◌, All, In, All-In, All-map, length, leb, Bool-cases, In-append_left,
  In-append_right, append-nil, append_assoc, All-append,
}
use solana_realtime_indexer.Db.Schema.{PendingWrite}
use solana_realtime_indexer.Db.Result.{SqlError}
use solana_realtime_indexer.Writer.Flush.{Trips, Clock, State}
use solana_realtime_indexer.Writer.Kept.{parks, IsKept}
use solana_realtime_indexer.Writer.Flushed.{Flushed, flush-Flushed}
use solana_realtime_indexer.Writer.Loop.{
  Arm, row, closed, tick, Turn, then_stop, select, writer_loop, batch_size, push, resume,
}

module _ {V : Type 0} where
  -- The row is in the database, or still in the batch.
  abbrev pub IsHeld : State V → PendingWrite V → Type 0
  IsHeld s r = IsKept s.db r ⊎ In r s.batch

  -- The batch is short of the size at which it is flushed.
  abbrev pub HasRoom : State V → Type 0
  HasRoom s = length s.batch < batch_size

  abbrev pub rows_of : Arm V → List (PendingWrite V)
  rows_of (row r) = r ∷ []
  rows_of closed = []
  rows_of tick = []

  abbrev pub is_closed : Arm V → Bool
  is_closed (row r) = false
  is_closed closed = true
  is_closed tick = false

  -- The rows that the task receives before its channel ends.
  unfoldable pub received : List (Turn V) → List (PendingWrite V)
  received [] = []
  received (t ∷ ts) =
      let rest = received ts in if is_closed t.arm then [] else rows_of t.arm ++ rest

  unfoldable pub has_closed : List (Turn V) → Bool
  has_closed [] = false
  has_closed (t ∷ ts) = is_closed t.arm || has_closed ts

  -- The batch after the `break` is empty.
  abbrev pub IsFlushed : Bool → State V → Type 0
  IsFlushed true s = s.batch ≡ []
  IsFlushed false s = HasRoom s

  -- What a turn from `s` has come to.
  abbrev pub Selected : State V → Arm V → Option (State V × Bool) → Type 0
  Selected s arm none = ⊥
  Selected s arm (some (s', stopped)) =
      (stopped ≡ is_closed arm)
      × IsFlushed stopped s'
      × All (IsHeld s') (rows_of arm)
      × ((r : PendingWrite V) → IsHeld s r → IsHeld s' r)

  Flushed-IsHeld :
      (s s' : State V)
      → Flushed s.batch s.db (some s')
      → (r : PendingWrite V) → IsHeld s r
      → IsHeld s' r
  Flushed-IsHeld s s' f r (inl k) = inl (f.1.others r k)
  Flushed-IsHeld s s' f r (inr m) = inl (All-In _ s.batch f.1.rows m)

  then_stop-Selected :
      (arm : Arm V) (stop : Bool) (s : State V) (o : Option (State V))
      → stop ≡ is_closed arm
      → rows_of arm ≡ []
      → Flushed s.batch s.db o
      → Selected s arm (then_stop stop o)
  then_stop-Selected arm stop s none e n f = f
  then_stop-Selected arm true s (some s') e n f = (e, f.0, rw n tt, Flushed-IsHeld s s' f)
  then_stop-Selected arm false s (some s') e n f =
      (e, rw (f.0) (omega arith), rw n tt, Flushed-IsHeld s s' f)

  push-IsHeld :
      (r : PendingWrite V) (s : State V) (x : PendingWrite V) → IsHeld s x → IsHeld (push r s) x
  push-IsHeld r s x (inl k) = inl k
  push-IsHeld r s x (inr m) = inr (In-append_left x s.batch (r ∷ []) m)

  pushed-IsHeld : (r : PendingWrite V) (s : State V) → IsHeld (push r s) r
  pushed-IsHeld r s = inr (In-append_right r s.batch (r ∷ []) (inl refl))

  pushed-Selected :
      (r : PendingWrite V) (s : State V) (o : Option (State V))
      → Flushed (push r s).batch s.db o
      → Selected s (row r) (then_stop false o)
  pushed-Selected r s none f = f
  pushed-Selected r s (some s') f = (
    refl,
    rw (f.0) (omega arith),
    (Flushed-IsHeld (push r s) s' f r (pushed-IsHeld r s), tt),
    λ x k. Flushed-IsHeld (push r s) s' f x (push-IsHeld r s x k),
  )

  abbrev pub Drained : List (PendingWrite V) → Bool → Option (State V × Bool) → Type 0
  Drained rows ended none = ⊥
  Drained rows ended (some (s, stopped)) =
      (stopped ≡ ended) × IsFlushed stopped s × All (IsHeld s) rows

  resume-Drained :
      (arm : Arm V) (s : State V) (rows later : List (PendingWrite V)) (ended : Bool)
      (next : State V → Option (State V × Bool)) (o : Option (State V × Bool))
      → ((s' : State V) (rows' : List (PendingWrite V))
          → HasRoom s'
          → All (IsHeld s') rows'
          → Drained (rows' ++ later) ended (next s'))
      → Selected s arm o
      → All (IsHeld s) rows
      → Drained
          (rows ++ (if is_closed arm then [] else rows_of arm ++ later))
          (is_closed arm || ended)
          (resume next o)
  resume-Drained arm s rows later ended next none go f h = f
  resume-Drained closed s rows later ended next (some (s', true)) go f h =
      (refl, f.1, rw append-nil (All-map _ _ rows f.3 h))
  resume-Drained closed s rows later ended next (some (s', false)) go f h = cc (f.0)
  resume-Drained (row r) s rows later ended next (some (s', true)) go f h = cc (f.0)
  resume-Drained (row r) s rows later ended next (some (s', false)) go f h =
      rw (← append_assoc)
        (go s' (rows ++ r ∷ []) f.1 (All-append _ rows _ (All-map _ _ rows f.3 h) f.2))
  resume-Drained tick s rows later ended next (some (s', true)) go f h = cc (f.0)
  resume-Drained tick s rows later ended next (some (s', false)) go f h =
      go s' rows f.1 (All-map _ _ rows f.3 h)

module _ {V : Type 0} (describe : SqlError → String) where
  pub select-Selected :
      (arm : Arm V) (t : Trips) (c : Clock) (s : State V)
      → parks t.dead_letters ≡ true
      → HasRoom s
      → Selected s arm (select describe arm t c s)
  unfolding select
  select-Selected (row r) t c s p room =
      elim (Bool-cases (leb batch_size (length (push r s).batch))) [
        | inl full ↦ rw full (pushed-Selected r s _ (flush-Flushed describe t c (push r s) p))
        | inr short ↦ rw short (refl, ground (arith), (pushed-IsHeld r s, tt), push-IsHeld r s)
      ]
  select-Selected closed t c s p room =
      then_stop-Selected closed true s _ refl refl (flush-Flushed describe t c s p)
  select-Selected tick t c s p room =
      then_stop-Selected tick false s _ refl refl (flush-Flushed describe t c s p)

  -- Rows come in as in `received`, and a run that meets no silent parking ends as `Drained` says:
  pub writer_loop-Drained :
      (turns : List (Turn V)) (rows : List (PendingWrite V)) (s : State V)
      → All (λ (t : Turn V). parks t.trips.dead_letters ≡ true) turns
      → HasRoom s
      → All (IsHeld s) rows
      → Drained (rows ++ received turns) (has_closed turns) (writer_loop describe turns s)
  unfolding writer_loop received has_closed
  writer_loop-Drained [] rows s p room h = (refl, room, rw append-nil h)
  writer_loop-Drained (turn ∷ turns) rows s p room h =
      resume-Drained turn.arm s rows (received turns) (has_closed turns)
        (writer_loop describe turns) (select describe turn.arm turn.trips turn.clock s)
        (λ s' rows' room' h'. writer_loop-Drained turns rows' s' p.1 room' h')
        (select-Selected turn.arm turn.trips turn.clock s p.0 room) h
