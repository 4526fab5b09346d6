-- ===== src/Recover/Healing.antt =====
-- From the slots that the indexer misses to the ranges that a recovery fetches (src/gaps.rs,
-- `write_gap` and `open_gaps` of src/db.rs, src/recover.rs).
use solana_realtime_indexer.Prelude.{
  ℕ, ◌-◌, ◌≤◌, ◌<◌, ◌≢◌, String, Bool, List, [], ◌∷◌, map, true, false, Option, none, some, ◌≡◌,
  ◌⊎◌, sym, ap, ◌∙◌, arith, inl, inr, In, In-map, All, All-map, All-In, Bool-cases, as_u64,
  as_u64-as_i64, u64_mod, ◌=?◌, =?_iff, string_eq,
}
use solana_realtime_indexer.Config.{gap_overlap_slots}
use solana_realtime_indexer.Table.Laws.{IsKeyed, contains-found}
use solana_realtime_indexer.Db.Schema.{GapRow, EventRow, Db}
use solana_realtime_indexer.Db.Gaps.{gap_range, range_eq}
use solana_realtime_indexer.Db.Result.{Reply}
use solana_realtime_indexer.Gaps.{Disconnection, Watch, Sight, Ledger, check_slots, gap_recorder}
use solana_realtime_indexer.Gaps.Watermark.{
  IsHeard, IsPassed, IsEnclosed, highest, watermark_covers,
}
use solana_realtime_indexer.Gaps.Recorder.{
  Recorded, HasRange, message_range, answered, gap_recorder_records,
}
use solana_realtime_indexer.Gaps.Sent.{
  EndsBelow, check_slots-EndsBelow, IsOldOrOpen, OldOrOpen, gap_recorder-OldOrOpen,
}
use solana_realtime_indexer.Recover.{OpenGap, open_rows, open_gaps, run_recover}
use solana_realtime_indexer.Recover.Fetched.{IsFetcher, IsHealed, run_recover-IsHealed}

-- Slot numbers that leave room for the overlap in 64 bits.
abbrev pub highest_start : ℕ
highest_start = u64_mod - gap_overlap_slots

-- A gap of the table that no recovery takes up: it is closed, or was left 'recovering' by one that an
-- error stopped. The slot lies in it.
abbrev pub IsSettled : ℕ → List GapRow → Type 0
IsSettled x rows =
    (g : GapRow) × In g rows
    × (g.status ≢ "open")
    × (as_u64 g.start_slot < x)
    × (x < as_u64 g.end_slot)

abbrev pub of_row : GapRow → OpenGap
of_row g = record { gap_id = g.gap_id; start_slot = g.start_slot; end_slot = g.end_slot }

open_rows-In :
    (rows : List GapRow) (g : GapRow)
    → In g rows
    → g.status ≡ "open"
    → In (of_row g) (open_rows rows)
unfolding open_rows
open_rows-In [] g m o = absurd m
open_rows-In (r ∷ rows) g (inl e) o =
    rw ((=?_iff r.status "open").1 (ap (λ x. x.status) (sym e) ∙ o)) (inl (ap of_row e))
open_rows-In (r ∷ rows) g (inr m) o = elim (Bool-cases (r.status =? "open")) [
  | inl waiting ↦ rw waiting (inr (open_rows-In rows g m o))
  | inr other ↦ rw other (open_rows-In rows g m o)
]

-- The ends of a message, in the row with its range.
row-ends :
    (gap : Disconnection) (g : GapRow)
    → gap.last_slot_before_disconnect < u64_mod
    → gap.first_slot_after_reconnect < u64_mod
    → gap_range g ≡ message_range gap
    → (as_u64 g.start_slot ≡ gap.last_slot_before_disconnect)
      × (as_u64 g.end_slot ≡ gap.first_slot_after_reconnect)
row-ends gap g low high same = (
  ap (λ r. as_u64 r.0) same ∙ as_u64-as_i64 gap.last_slot_before_disconnect low,
  ap (λ r. as_u64 r.1) same ∙ as_u64-as_i64 gap.first_slot_after_reconnect high,
)

-- The channel has room for a gap that this slot reveals.
abbrev pub IsTaken : Sight → Type 0
IsTaken at = (at.taken ≡ true) × (at.slot < highest_start)

taken-IsHeard : (at : Sight) → IsTaken at → IsHeard at
taken-IsHeard at t = (t.0, omega (arith, t.1))

module _ {V : Type 0} (reply : ℕ → String → Reply) (run_pipeline : ℕ × ℕ → Db V → Bool × Db V)
    (now : ℕ) (Holds : ℕ × ℕ → List (EventRow V) → Type 0) (fetcher : IsFetcher Holds run_pipeline)
    (query : Reply) where
  -- The table holds a range with the slot.
  abbrev pub IsFetched : ℕ → List (EventRow V) → Type 0
  IsFetched x events = (a : ℕ × ℕ) × Holds a events × (a.0 ≤ x) × (x ≤ a.1)

  -- What is fetched for a gap holds each slot within the gap.
  healed-IsFetched :
      (x : ℕ) (gap : OpenGap) (events : List (EventRow V))
      → as_u64 gap.start_slot < x
      → x < as_u64 gap.end_slot
      → as_u64 gap.end_slot < highest_start
      → IsHealed reply run_pipeline now Holds fetcher events gap
      → IsFetched x events
  healed-IsFetched x gap events low high room (a, m, above, below) =
      (a, m, omega arith, omega arith)

  -- A slot within a row of the table is fetched, or was settled before.
  row_heals :
      (x : ℕ) (old : List GapRow) (db : Db V) (g : GapRow)
      → In g db.stream_gaps
      → IsOldOrOpen old g
      → as_u64 g.start_slot < x
      → x < as_u64 g.end_slot
      → as_u64 g.end_slot < highest_start
      → (run_recover reply run_pipeline now query db).finished ≡ true
      → IsFetched x (run_recover reply run_pipeline now query db).db.events ⊎ IsSettled x old
  row_heals x old db g m known low high room finished =
      let events = (run_recover reply run_pipeline now query db).db.events in
      elim (Bool-cases (g.status =? "open")) [
        | inl waiting ↦ inl (
            healed-IsFetched x (of_row g) events low high room (
              All-In (IsHealed reply run_pipeline now Holds fetcher events) (open_gaps db)
                (run_recover-IsHealed reply run_pipeline now Holds fetcher query db finished)
                (open_rows-In db.stream_gaps g m ((=?_iff g.status "open").0 waiting))))
        | inr other ↦ elim known [
          | inl before ↦ inr (g, before, (λ o. ground (arith, =?_iff g.status "open")), low, high)
          | inr o ↦ absurd (ground (arith, =?_iff g.status "open"))
        ]
      ]

  -- The recorder has returned, and a recovery from the tables that it leaves fetches the slot, or
  -- finds it settled, or is stopped by an error.
  abbrev pub Heals : ℕ → List GapRow → Option (Ledger V) → Type 0
  Heals x old none = ⊥
  Heals x old (some l) =
      ((run_recover reply run_pipeline now query l.db).finished ≡ false)
      ⊎ IsFetched x (run_recover reply run_pipeline now query l.db).db.events
      ⊎ IsSettled x old

  message-Heals :
      (x : ℕ) (gaps : List Disconnection) (gap : Disconnection) (l : Ledger V)
      (o : Option (Ledger V))
      → Recorded l (map message_range gaps) o
      → OldOrOpen l.db.stream_gaps o
      → In gap gaps
      → gap.last_slot_before_disconnect < x
      → x < gap.first_slot_after_reconnect
      → gap.first_slot_after_reconnect < highest_start
      → Heals x l.db.stream_gaps o
  message-Heals x gaps gap l none recorded known m low high room = recorded
  message-Heals x gaps gap l (some l') (grows, ranges) known m low high room =
      let has : HasRange (message_range gap) l' =
        All-In (λ range. HasRange range l') (map message_range gaps) ranges
          (In-map message_range gaps gap m) in
      let (g, n, same) = contains-found gap_range l'.db.stream_gaps (message_range gap) has in
      let (start, end) = row-ends gap g (omega arith) (omega arith) same in
      elim (Bool-cases (run_recover reply run_pipeline now query l'.db).finished) [
        | inr stopped ↦ inl stopped
        | inl finished ↦ inr (
            row_heals x l.db.stream_gaps l'.db g n
              (All-In (IsOldOrOpen l.db.stream_gaps) l'.db.stream_gaps known n)
              (omega (arith, start)) (omega (arith, end)) (omega (arith, end)) finished)
      ]

  enclosed-Heals :
      (x : ℕ) (gaps : List Disconnection) (l : Ledger V)
      → IsKeyed gap_range l.db.stream_gaps
      → All (EndsBelow highest_start) gaps
      → IsEnclosed x gaps
      → Heals x l.db.stream_gaps (gap_recorder (map answered gaps) l)
  enclosed-Heals x gaps l unique room (gap, m, low, high) =
      message-Heals x gaps gap l (gap_recorder (map answered gaps) l)
        (gap_recorder_records gaps l unique) (gap_recorder-OldOrOpen gaps l) m low high
        (All-In (EndsBelow highest_start) gaps room m)

  -- From a running watermark on, with the sender of gaps attached, a channel that has room and a
  -- database that answers the recorder, and slot numbers that leave room for the overlap in 64
  -- bits: the recorder takes all that the watermark reports, and each slot above the watermark and
  -- up to the greatest one seen has a slot that was seen at it or fewer than 50 after it; or
  -- `events` holds, after the next recovery, what a pipeline brings into it over a range of blocks
  -- with the slot; or the slot lies in a gap that `stream_gaps` had before with another status
  -- than 'open' (closed, or left 'recovering' by a recovery that was stopped, which none takes up
  -- again); or that recovery is stopped by an error. It is given that a pipeline which returns
  -- without an error brings in its range (`Holds`), and that none undoes it for another.
  pub watermark-Heals :
      (x : ℕ) (seen : List Sight) (w : Watch) (l : Ledger V)
      → w.sent ≡ []
      → IsKeyed gap_range l.db.stream_gaps
      → All IsTaken seen
      → w.watermark ≢ 0
      → w.watermark < highest_start
      → w.watermark < x
      → x ≤ highest w.watermark seen
      → IsPassed x seen
        ⊎ Heals x l.db.stream_gaps (gap_recorder (map answered (check_slots true seen w).sent) l)
  watermark-Heals x seen w l none_sent unique taken n small low high =
      elim (watermark_covers x seen w (All-map IsTaken IsHeard seen taken-IsHeard taken) n
        (omega arith) low high) [
          | inl passed ↦ inl passed
          | inr enclosed ↦ inr (
              enclosed-Heals x (check_slots true seen w).sent l unique
                (check_slots-EndsBelow highest_start true seen w
                  (All-map IsTaken _ seen (λ at t. t.1) taken) (rw none_sent tt))
                enclosed)
        ]
