-- ===== src/Gaps/Recorder.antt =====
-- What the recorder task leaves in `stream_gaps` (src/gaps.rs, `spawn_gap_recorder`).
use solana_realtime_indexer.Prelude.{
  ℕ, ◌+◌, ◌%◌, List, [], ◌∷◌, ◌++◌, ℤ, true, Option, none, some, ◌≡◌, refl, subst, ◌∙◌, map,
  append-nil, append_assoc, All-append, All-map, inl, All, arith, u64_mod, if◌then◌else◌, length,
  as_i64,
}
use solana_realtime_indexer.Table.{contains, insert_row, insert_rows}
use solana_realtime_indexer.Table.Laws.{
  IsKeyed, insert_rows-IsKeyed, length-insert_row, contains-insert_rows_old, contains-insert_rows,
}
use solana_realtime_indexer.Db.Schema.{GapRow}
use solana_realtime_indexer.Db.Gaps.{gap_range, range_eq, write_gap}
use solana_realtime_indexer.Db.Result.{Reply, served}
use solana_realtime_indexer.Metrics.{inc}
use solana_realtime_indexer.Gaps.{
  Disconnection, Ledger, count_written, write_message, record_gap, gap_recorder,
}

abbrev pub message_range : Disconnection → ℤ × ℤ
message_range gap = (as_i64 gap.last_slot_before_disconnect, as_i64 gap.first_slot_after_reconnect)

abbrev pub answered : Disconnection → Reply × Disconnection
answered gap = (served, gap)

module _ {V : Type 0} where
  abbrev pub HasRange : ℤ × ℤ → Ledger V → Type 0
  HasRange range l = contains gap_range range l.db.stream_gaps ≡ true

  -- From `l` to `l'` the table keeps its rows and its unique ranges, and the counter has moved by
  -- as many rows as the table has grown.
  pub record Grows (l l' : Ledger V) : Type 0 where
    pub unique : IsKeyed gap_range l'.db.stream_gaps
    pub added : ℕ
    pub rows : length l'.db.stream_gaps ≡ length l.db.stream_gaps + added
    pub counted : l'.metrics.gap_detected % u64_mod ≡ (l.metrics.gap_detected + added) % u64_mod

  served_step : Disconnection → Ledger V → Ledger V
  served_step gap l = count_written (write_message gap l.db) l.metrics

  step-table :
      (gap : Disconnection) (l : Ledger V)
      → (row : GapRow) × (gap_range row ≡ message_range gap)
        × ((served_step gap l).db.stream_gaps ≡ insert_row gap_range row l.db.stream_gaps)
  unfolding served_step count_written write_gap insert_row
  step-table gap l = (
    record {
      gap_id = l.db.next_gap_id;
      start_slot = (message_range gap).0;
      end_slot = (message_range gap).1;
      missed_slots = as_i64 gap.missed_slots;
      detected_at = gap.disconnect_time;
      recovered_at = none;
      recovery_method = none;
      status = "open";
      detected_by = gap.source;
    },
    refl,
    ground arith,
  )

  step-counted :
      (gap : Disconnection) (l : Ledger V)
      → (served_step gap l).metrics.gap_detected % u64_mod
        ≡ (l.metrics.gap_detected
            + (if contains gap_range (message_range gap) l.db.stream_gaps then 0 else 1))
          % u64_mod
  unfolding served_step count_written write_gap inc
  step-counted gap l = ground arith

  step-Grows :
      (gap : Disconnection) (l : Ledger V)
      → IsKeyed gap_range l.db.stream_gaps
      → Grows l (served_step gap l)
  unfolding insert_rows
  step-Grows gap l u =
      let (row, range, table) = step-table gap l in
      record {
        unique = rw table (insert_rows-IsKeyed gap_range (row ∷ []) l.db.stream_gaps u);
        added = if contains gap_range (message_range gap) l.db.stream_gaps then 0 else 1;
        rows = rw table (length-insert_row gap_range row l.db.stream_gaps ∙ rw range);
        counted = step-counted gap l;
      }

  step-HasRange :
      (gap : Disconnection) (l : Ledger V) → HasRange (message_range gap) (served_step gap l)
  unfolding insert_rows
  step-HasRange gap l =
      let (row, range, table) = step-table gap l in
      rw (table, ← range)
        (contains-insert_rows gap_range (row ∷ []) l.db.stream_gaps row (inl refl))

  step-HasRange_old :
      (range : ℤ × ℤ) (gap : Disconnection) (l : Ledger V)
      → HasRange range l
      → HasRange range (served_step gap l)
  unfolding insert_rows
  step-HasRange_old range gap l h =
      let (row, _, table) = step-table gap l in
      rw table (contains-insert_rows_old gap_range range (row ∷ []) l.db.stream_gaps h)

  Grows-trans : (a b c : Ledger V) → Grows a b → Grows b c → Grows a c
  Grows-trans a b c g h = record {
    unique = h.unique;
    added = g.added + h.added;
    rows = omega (arith, g.rows, h.rows);
    counted = omega (arith, g.counted, h.counted);
  }

  -- The recorder has returned: it has grown the table, and each of the ranges is in it.
  abbrev pub Recorded : Ledger V → List (ℤ × ℤ) → Option (Ledger V) → Type 0
  Recorded l ranges none = ⊥
  Recorded l ranges (some l') = Grows l l' × All (λ range. HasRange range l') ranges

  grown-Recorded :
      (l l' : Ledger V) (ranges : List (ℤ × ℤ)) (o : Option (Ledger V))
      → Grows l l'
      → Recorded l' ranges o
      → Recorded l ranges o
  grown-Recorded l l' ranges none g r = r
  grown-Recorded l l' ranges (some l'') g r = (Grows-trans l l' l'' g r.0, r.1)

  pub gap_recorder-Recorded :
      (gaps : List Disconnection) (ranges : List (ℤ × ℤ)) (l : Ledger V)
      → IsKeyed gap_range l.db.stream_gaps
      → All (λ range. HasRange range l) ranges
      → Recorded l (ranges ++ map message_range gaps) (gap_recorder (map answered gaps) l)
  unfolding gap_recorder record_gap served_step
  gap_recorder-Recorded [] ranges l u h =
      rw append-nil (record { unique = u; added = 0; rows = omega arith; counted = omega arith }, h)
  gap_recorder-Recorded (gap ∷ gaps) ranges l u h =
      let l' = served_step gap l in
      let g = step-Grows gap l u in
      grown-Recorded l l' _ _ g (
        subst (λ (rs : List (ℤ × ℤ)). Recorded l' rs (gap_recorder (map answered gaps) l'))
          (append_assoc ranges (message_range gap ∷ []) (map message_range gaps))
          (gap_recorder-Recorded gaps (ranges ++ message_range gap ∷ []) l' g.unique (
            All-append _ ranges _ (All-map _ _ ranges (λ r k. step-HasRange_old r gap l k) h)
              (step-HasRange gap l, tt))))

  -- While the database answers, the recorder takes every message it is sent: afterwards the range
  -- of each is in `stream_gaps`, no range is there twice, however often it was reported, and the
  -- counter of gaps has moved by the number of rows that are new.
  pub gap_recorder_records :
      (gaps : List Disconnection) (l : Ledger V)
      → IsKeyed gap_range l.db.stream_gaps
      → Recorded l (map message_range gaps) (gap_recorder (map answered gaps) l)
  gap_recorder_records gaps l u = gap_recorder-Recorded gaps [] l u tt
