-- ===== src/Gaps.antt =====
-- src/gaps.rs: the watermark that notices jumps of the slot number, and the task that records gaps.
-- A sender that is given a message either takes it or refuses it (its channel is full or closed);
-- which of the two is an argument, `taken`.
pub mod Watermark
pub mod Recorder
pub mod Sent
use solana_realtime_indexer.Prelude.{
  ℕ, ◌+◌, ◌-◌, ◌%◌, max, String, List, [], ◌∷◌, ◌++◌, Bool, true, false, ◌||◌, ◌==◌, leb,
  if◌then◌else◌, as_i64, u64_mod, Option, none, some,
}
use solana_realtime_indexer.Config.{slot_gap_tolerance}
use solana_realtime_indexer.Db.Schema.{Db}
use solana_realtime_indexer.Db.Gaps.{write_gap}
use solana_realtime_indexer.Db.Result.{Reply, served, dropped, silent}
use solana_realtime_indexer.Metrics.{Metrics, inc, set_head_slot}

-- `DatasourceDisconnection`, with its time in microseconds.
pub record Disconnection : Type 0 where
  pub source : String
  pub disconnect_time : ℕ
  pub last_slot_before_disconnect : ℕ
  pub first_slot_after_reconnect : ℕ
  pub missed_slots : ℕ

-- What `check_slot` reads and writes: the shared watermark, the metrics, and the messages that
-- the channel of gaps has taken, oldest first.
pub record Watch : Type 0 where
  pub watermark : ℕ
  pub metrics : Metrics
  pub sent : List Disconnection

-- One call: the slot, the time, and whether the channel takes a message now.
pub record Sight : Type 0 where
  pub slot : ℕ
  pub now : ℕ
  pub taken : Bool

abbrev pub watermark_gap : ℕ → ℕ → ℕ → Disconnection
watermark_gap previous slot now = record {
  source = "watermark";
  disconnect_time = now;
  last_slot_before_disconnect = previous;
  first_slot_after_reconnect = slot;
  missed_slots = (slot + u64_mod - previous) % u64_mod;
}

-- The first flag says whether the caller has a sender at all.
unfoldable pub check_slot : Bool → Sight → Watch → Watch
check_slot attached at w =
    let previous = w.watermark in
    let next = record w {
      watermark = max previous at.slot;
      metrics = set_head_slot at.slot w.metrics;
    } in
    if previous == 0 || leb at.slot ((previous + slot_gap_tolerance) % u64_mod)
    then next
    else if attached
    then (if at.taken
        then record next { sent = w.sent ++ watermark_gap previous at.slot at.now ∷ [] }
        else next)
    else next

unfoldable pub check_slots : Bool → List Sight → Watch → Watch
check_slots attached [] w = w
check_slots attached (at ∷ rest) w = check_slots attached rest (check_slot attached at w)

-- What the recorder task owns and writes.
pub record Ledger (V : Type 0) : Type 0 where
  pub db : Db V
  pub metrics : Metrics

module _ {V : Type 0} where
  -- `match written`: the row is counted if it is new, and an error is counted as one.
  unfoldable pub count_written : Bool × Db V → Metrics → Ledger V
  count_written (true, db) m = record {
    db = db;
    metrics = record m { gap_detected = inc m.gap_detected };
  }
  count_written (false, db) m = record { db = db; metrics = m }

  abbrev pub write_message : Disconnection → Db V → Bool × Db V
  write_message gap =
      write_gap (as_i64 gap.last_slot_before_disconnect) (as_i64 gap.first_slot_after_reconnect)
        (as_i64 gap.missed_slots) gap.disconnect_time gap.source

  -- One message of the recorder's loop; none if the database never answers.
  unfoldable pub record_gap : Reply → Disconnection → Ledger V → Option (Ledger V)
  unfolding count_written write_gap
  record_gap reply gap l =
      let failed = record l.metrics { db_write_errors = inc l.metrics.db_write_errors } in
      elim reply [
        | served ↦ some (count_written (write_message gap l.db) l.metrics)
        | dropped executed ↦ some (record {
          db = if executed then (write_message gap l.db).1 else l.db;
          metrics = failed;
        })
        | silent _ ↦ none
      ]

  -- The `while let` loop, over the messages received and what becomes of each statement.
  unfoldable pub gap_recorder : List (Reply × Disconnection) → Ledger V → Option (Ledger V)
  gap_recorder [] l = some l
  gap_recorder ((reply, gap) ∷ rest) l = elim (record_gap reply gap l) [
    | none ↦ none
    | some l' ↦ gap_recorder rest l'
  ]
