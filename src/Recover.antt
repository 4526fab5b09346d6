-- ===== src/Recover.antt =====
-- `run_recover` (src/recover.rs), with `open_gaps` and `mark_gap` of src/db.rs. The pipeline over a
-- range of blocks is a parameter: what it leaves in the database, and whether it returns an error.
pub mod Covered
pub mod Fetched
pub mod Stages
pub mod Moves
pub mod Progress
pub mod Healing
use solana_realtime_indexer.Prelude.{
  ℕ, ◌+◌, ◌-◌, ◌%◌, String, List, [], ◌∷◌, ◌++◌, map, Bool, true, false, ◌&&◌, Option, none, some,
  Eq, ◌=?◌, ◌==◌, leb, as_u64, u64_mod, ℤ, if◌then◌else◌, string_eq,
}
use solana_realtime_indexer.Config.{gap_overlap_slots}
use solana_realtime_indexer.Db.Schema.{GapRow, Db}
use solana_realtime_indexer.Db.Result.{Reply, served, dropped, silent}

pub record OpenGap : Type 0 where
  pub gap_id : ℕ
  pub start_slot : ℤ
  pub end_slot : ℤ

-- WHERE status = 'open'; `stream_gaps` is in the order of `gap_id`.
unfoldable pub open_rows : List GapRow → List OpenGap
open_rows [] = []
open_rows (g ∷ gs) =
    if g.status =? "open"
    then record { gap_id = g.gap_id; start_slot = g.start_slot; end_slot = g.end_slot }
      ∷ open_rows gs
    else open_rows gs

-- The two CASE expressions and the status.
abbrev pub marked : ℕ → String → GapRow → GapRow
marked now status g = record g {
  status = status;
  recovered_at = if status =? "closed" then some now else g.recovered_at;
  recovery_method = if status =? "closed" then some "rpc-block-fetch" else g.recovery_method;
}

module _ {V : Type 0} where
  abbrev pub open_gaps : Db V → List OpenGap
  open_gaps db = open_rows db.stream_gaps

  unfoldable pub mark_gap : ℕ → ℕ → String → Db V → Db V
  mark_gap now gap_id status db = record db {
    stream_gaps = map (λ g. if g.gap_id == gap_id then marked now status g else g) db.stream_gaps;
  }

abbrev pub covers : ℕ × ℕ → ℕ × ℕ → Bool
covers range a = leb a.0 range.0 && leb range.1 a.1

-- `covered.iter().any(..)`.
unfoldable pub any_covers : ℕ × ℕ → List (ℕ × ℕ) → Bool
any_covers range [] = false
any_covers range (a ∷ as') = if covers range a then true else any_covers range as'

-- `saturating_sub`, and an addition that wraps.
abbrev pub widened : OpenGap → ℕ × ℕ
widened gap =
    (as_u64 gap.start_slot - gap_overlap_slots, (as_u64 gap.end_slot + gap_overlap_slots) % u64_mod)

-- The vector `covered`, and the database; `finished` is false if an error, or a
-- statement that no answer comes to, ended the run.
pub record Recovery (V : Type 0) : Type 0 where
  pub covered : List (ℕ × ℕ)
  pub db : Db V
  pub finished : Bool

-- `mark_gap(..).await`: whether it returned `Ok`, and the database.
unfoldable pub statement : {V : Type 0} → Reply → (Db V → Db V) → Db V → Bool × Db V
statement served run db = (true, run db)
statement (dropped executed) run db = (false, if executed then run db else db)
statement (silent executed) run db = (false, if executed then run db else db)

-- What becomes of the statement that gives a gap a status is `reply`; a pipeline says whether it
-- returned `Ok`, and what it left in the database.
module _ {V : Type 0} (reply : ℕ → String → Reply) (run_pipeline : ℕ × ℕ → Db V → Bool × Db V)
    (now : ℕ) where
  abbrev pub mark : ℕ → String → Db V → Bool × Db V
  mark gap_id status db = statement (reply gap_id status) (mark_gap now gap_id status) db

  -- The last `mark_gap` of the body.
  abbrev pub close : OpenGap → List (ℕ × ℕ) → Db V → Recovery V
  close gap covered db =
      let closing = mark gap.gap_id "closed" db in
      record { covered = covered; db = closing.1; finished = closing.0 }

  -- From `run_pipeline` on, where the first `mark_gap` succeeded.
  unfoldable pub fetch_gap : OpenGap → List (ℕ × ℕ) → Bool × Db V → Recovery V
  fetch_gap gap covered (false, db) = record { covered = covered; db = db; finished = false }
  fetch_gap gap covered (true, db) = close gap (covered ++ widened gap ∷ []) db

  unfoldable pub run_gap : OpenGap → List (ℕ × ℕ) → Bool × Db V → Recovery V
  unfolding fetch_gap
  run_gap gap covered (false, db) = record { covered = covered; db = db; finished = false }
  run_gap gap covered (true, db) = fetch_gap gap covered (run_pipeline (widened gap) db)

  -- The body of the loop.
  unfoldable pub recover_gap : OpenGap → List (ℕ × ℕ) → Db V → Recovery V
  unfolding any_covers run_gap mark_gap statement
  recover_gap gap covered db =
      if any_covers (widened gap) covered
      then close gap covered db
      else run_gap gap covered (mark gap.gap_id "recovering" db)

  unfoldable pub recover_loop : List OpenGap → List (ℕ × ℕ) → Db V → Recovery V
  unfolding recover_gap
  recover_loop [] covered db = record { covered = covered; db = db; finished = true }
  recover_loop (gap ∷ gaps) covered db =
      let r = recover_gap gap covered db in
      elim r.finished [ true ↦ recover_loop gaps r.covered r.db | false ↦ r ]

  -- The query for the open gaps, and the loop over them.
  unfoldable pub run_recover : Reply → Db V → Recovery V
  unfolding recover_loop
  run_recover served db = recover_loop (open_gaps db) [] db
  run_recover (dropped _) db = record { covered = []; db = db; finished = false }
  run_recover (silent _) db = record { covered = []; db = db; finished = false }
