-- ===== src/Verify/Run.antt =====
-- `run_verify` and `run_verify_range` of src/verify.rs: the events that a pipeline without a database
-- logs, against those that a query finds in `events`.
use solana_realtime_indexer.Prelude.{
  ℕ, String, List, [], ◌∷◌, map, ℤ, Bool, true, false, ◌&&◌, Option, none, some, ◌=?◌,
  if◌then◌else◌, as_i64, leb_ℤ, string_eq,
}
use solana_realtime_indexer.Identity.{EventId}
use solana_realtime_indexer.Db.Schema.{EventRow, Db}
use solana_realtime_indexer.Db.Result.{Reply, served, dropped, silent}
use solana_realtime_indexer.Verify.{row_id, report}

-- SELECT .. FROM events WHERE ..
unfoldable pub select_where :
    {V : Type 0} → (EventRow V → Bool) → List (EventRow V) → List (EventRow V)
select_where holds [] = []
select_where holds (r ∷ rs) = if holds r then r ∷ select_where holds rs else select_where holds rs

-- signature = ANY($1), for the signatures of the expected events.
unfoldable pub is_any : String → List EventId → Bool
is_any signature [] = false
is_any signature (e ∷ es) = if signature =? e.signature then true else is_any signature es

-- slot BETWEEN $1 AND $2
abbrev pub is_between : ℕ → ℕ → ℤ → Bool
is_between from to slot = leb_ℤ (as_i64 from) slot && leb_ℤ slot (as_i64 to)

module _ {V : Type 0} where
  -- From the query on: whether the two sets are the same, none if the query fails.
  unfoldable pub compare_rows : (EventRow V → Bool) → List EventId → Reply → Db V → Option Bool
  unfolding select_where report
  compare_rows holds expected served db =
      some (report expected (map row_id (select_where holds db.events)))
  compare_rows holds expected (dropped _) db = none
  compare_rows holds expected (silent _) db = none

  -- The first argument is the log that the pipeline leaves, none if it returns an error.
  unfoldable pub run_verify : Option (List EventId) → Reply → Db V → Option Bool
  unfolding is_any compare_rows
  run_verify none reply db = none
  run_verify (some expected) reply db =
      compare_rows (λ r. is_any r.signature expected) expected reply db

  unfoldable pub run_verify_range : ℕ → ℕ → Option (List EventId) → Reply → Db V → Option Bool
  unfolding compare_rows
  run_verify_range from to none reply db = none
  run_verify_range from to (some expected) reply db =
      compare_rows (λ r. is_between from to r.slot) expected reply db
