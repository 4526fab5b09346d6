-- ===== src/Writer/Loop.antt =====
-- The task of `spawn_writer` in src/writer.rs: a `select!` between the channel and a timer.
use solana_realtime_indexer.Prelude.{
  ℕ, String, List, [], ◌∷◌, ◌++◌, Bool, true, false, Option, none, some, leb, if◌then◌else◌, length,
}
use solana_realtime_indexer.Db.Schema.{PendingWrite}
use solana_realtime_indexer.Db.Result.{SqlError}
use solana_realtime_indexer.Writer.Flush.{State, Trips, Clock, flush}

abbrev pub batch_size : ℕ
batch_size = 100

-- What `select!` yields: a row, the end of the channel, or the timer.
pub data Arm (V : Type 0) : Type 0 where
  row : PendingWrite V → Arm V
  closed : Arm V
  tick : Arm V

-- One turn of the loop, with what the network and the clock do if it flushes.
pub record Turn (V : Type 0) : Type 0 where
  pub arm : Arm V
  pub trips : Trips
  pub clock : Clock

-- The turn goes on with the state that the flush returned, and leaves the loop if told to.
abbrev pub then_stop : {V : Type 0} → Bool → Option (State V) → Option (State V × Bool)
then_stop stop none = none
then_stop stop (some s) = some (s, stop)

-- The next turn runs unless the loop has been left.
abbrev pub resume :
    {V : Type 0}
    → (State V → Option (State V × Bool))
    → Option (State V × Bool)
    → Option (State V × Bool)
resume next none = none
resume next (some (s, true)) = some (s, true)
resume next (some (s, false)) = next s

-- `batch.push(row)`.
abbrev pub push : {V : Type 0} → PendingWrite V → State V → State V
push r s = record s { batch = s.batch ++ r ∷ [] }

module _ {V : Type 0} (describe : SqlError → String) where
  -- One turn; the flag is true after the `break`.
  unfoldable pub select : Arm V → Trips → Clock → State V → Option (State V × Bool)
  select (row r) t c s =
      if leb batch_size (length (push r s).batch)
      then then_stop false (flush describe t c (push r s))
      else some (push r s, false)
  select closed t c s = then_stop true (flush describe t c s)
  select tick t c s = then_stop false (flush describe t c s)

  -- The turns up to the `break`, or up to the end of the list; none once a flush never returns.
  unfoldable pub writer_loop : List (Turn V) → State V → Option (State V × Bool)
  writer_loop [] s = some (s, false)
  writer_loop (turn ∷ turns) s =
      resume (writer_loop turns) (select turn.arm turn.trips turn.clock s)
