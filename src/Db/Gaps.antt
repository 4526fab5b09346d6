-- ===== src/Db/Gaps.antt =====
-- `write_gap` of src/db.rs, on the table `stream_gaps`.
use solana_realtime_indexer.Prelude.{
  ℕ, ◌+◌, String, [], ◌∷◌, ◌++◌, ℤ, eqb_ℤ, eqb_ℤ_iff, Bool, true, false, ◌&&◌, none, Eq, ◌≡◌, ◌↔◌,
  if◌then◌else◌, arith,
}
use solana_realtime_indexer.Table.{contains}
use solana_realtime_indexer.Db.Schema.{GapRow, Db}

abbrev pub range_beq : ℤ × ℤ → ℤ × ℤ → Bool
range_beq a b = eqb_ℤ a.0 b.0 && eqb_ℤ a.1 b.1

pub range_beq_iff : (a b : ℤ × ℤ) → (range_beq a b ≡ true) ↔ (a ≡ b)
range_beq_iff a b = ground (arith, eqb_ℤ_iff a.0 b.0, eqb_ℤ_iff a.1 b.1)

instance abbrev pub range_eq : Eq (ℤ × ℤ)
range_eq = record { beq = range_beq; beq_iff = range_beq_iff }

-- UNIQUE (start_slot, end_slot).
abbrev pub gap_range : GapRow → ℤ × ℤ
gap_range g = (g.start_slot, g.end_slot)

module _ {V : Type 0} where
  -- Whether a row was inserted, and the tables. The sequence moves on either way.
  unfoldable pub write_gap : ℤ → ℤ → ℤ → ℕ → String → Db V → Bool × Db V
  write_gap start_slot end_slot missed_slots detected_at detected_by db =
      let row : GapRow = record {
        gap_id = db.next_gap_id;
        start_slot = start_slot;
        end_slot = end_slot;
        missed_slots = missed_slots;
        detected_at = detected_at;
        recovered_at = none;
        recovery_method = none;
        status = "open";
        detected_by = detected_by;
      } in
      let next = record db { next_gap_id = db.next_gap_id + 1 } in
      if contains gap_range (start_slot, end_slot) db.stream_gaps
      then (false, next)
      else (true, record next { stream_gaps = db.stream_gaps ++ row ∷ [] })
