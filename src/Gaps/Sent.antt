-- ===== src/Gaps/Sent.antt =====
-- What the messages of the watermark and the rows of the recorder look like (src/gaps.rs).
use solana_realtime_indexer.Prelude.{
  ℕ, ◌<◌, List, [], ◌∷◌, ◌++◌, map, Bool, Option, none, some, ◌≡◌, ◌⊎◌, refl, inl, inr, All,
  All-append, All-of_In, In, Bool-cases, leb, ◌==◌, ◌||◌, ◌+◌, ◌%◌, u64_mod,
}
use solana_realtime_indexer.Config.{slot_gap_tolerance}
use solana_realtime_indexer.Table.{contains}
use solana_realtime_indexer.Db.Schema.{GapRow}
use solana_realtime_indexer.Db.Gaps.{gap_range, range_eq, write_gap}
use solana_realtime_indexer.Gaps.{
  Disconnection, Watch, Sight, Ledger, watermark_gap, check_slot, check_slots, count_written,
  write_message, record_gap, gap_recorder,
}
use solana_realtime_indexer.Gaps.Recorder.{answered, message_range}

-- The slot at which the gap was noticed is below the bound.
abbrev pub EndsBelow : ℕ → Disconnection → Type 0
EndsBelow bound gap = gap.first_slot_after_reconnect < bound

check_slot-EndsBelow :
    (bound : ℕ) (a : Bool) (at : Sight) (w : Watch)
    → at.slot < bound
    → All (EndsBelow bound) w.sent
    → All (EndsBelow bound) (check_slot a at w).sent
unfolding check_slot
check_slot-EndsBelow bound a at w low h =
    let near : Bool =
      w.watermark == 0 || leb at.slot ((w.watermark + slot_gap_tolerance) % u64_mod) in
    elim (Bool-cases near) [
      | inl quiet ↦ rw quiet h
      | inr far ↦
          let more : All (EndsBelow bound)
              (w.sent ++ watermark_gap w.watermark at.slot at.now ∷ []) =
            All-append (EndsBelow bound) w.sent _ h (low, tt) in
          elim (Bool-cases a) [
            | inl attached ↦ elim (Bool-cases at.taken) [
              | inl taken ↦ rw (far, attached, taken) more
              | inr full ↦ rw (far, attached, full) h
            ]
            | inr alone ↦ rw (far, alone) h
          ]
    ]

-- Each gap that is reported ends at a slot that was seen.
pub check_slots-EndsBelow :
    (bound : ℕ) (a : Bool) (seen : List Sight) (w : Watch)
    → All (λ (at : Sight). at.slot < bound) seen
    → All (EndsBelow bound) w.sent
    → All (EndsBelow bound) (check_slots a seen w).sent
unfolding check_slots
check_slots-EndsBelow bound a [] w low h = h
check_slots-EndsBelow bound a (at ∷ rest) w low h =
    check_slots-EndsBelow bound a rest (check_slot a at w) low.1
      (check_slot-EndsBelow bound a at w low.0 h)

-- A row of the table that was there before, or one that waits for its recovery.
abbrev pub IsOldOrOpen : List GapRow → GapRow → Type 0
IsOldOrOpen old row = In row old ⊎ (row.status ≡ "open")

module _ {V : Type 0} where
  abbrev pub OldOrOpen : List GapRow → Option (Ledger V) → Type 0
  OldOrOpen old none = Unit
  OldOrOpen old (some l) = All (IsOldOrOpen old) l.db.stream_gaps

  written-OldOrOpen :
      (old : List GapRow) (gap : Disconnection) (l : Ledger V)
      → All (IsOldOrOpen old) l.db.stream_gaps
      → All (IsOldOrOpen old) (count_written (write_message gap l.db) l.metrics).db.stream_gaps
  unfolding count_written write_gap
  written-OldOrOpen old gap l h =
      elim (Bool-cases (contains gap_range (message_range gap) l.db.stream_gaps)) [
        | inl known ↦ rw known h
        | inr new ↦ rw new (All-append (IsOldOrOpen old) l.db.stream_gaps _ h (inr refl, tt))
      ]

  gap_recorder-OldOrOpen_from :
      (old : List GapRow) (gaps : List Disconnection) (l : Ledger V)
      → All (IsOldOrOpen old) l.db.stream_gaps
      → OldOrOpen old (gap_recorder (map answered gaps) l)
  unfolding gap_recorder record_gap
  gap_recorder-OldOrOpen_from old [] l h = h
  gap_recorder-OldOrOpen_from old (gap ∷ gaps) l h =
      gap_recorder-OldOrOpen_from old gaps (count_written (write_message gap l.db) l.metrics)
        (written-OldOrOpen old gap l h)

  -- The recorder adds rows with the status 'open' only.
  pub gap_recorder-OldOrOpen :
      (gaps : List Disconnection) (l : Ledger V)
      → OldOrOpen l.db.stream_gaps (gap_recorder (map answered gaps) l)
  gap_recorder-OldOrOpen gaps l =
      gap_recorder-OldOrOpen_from l.db.stream_gaps gaps l
        (All-of_In (IsOldOrOpen l.db.stream_gaps) l.db.stream_gaps (λ row m. inl m))
