-- ===== src/Recover/Moves.antt =====
-- How far one turn of a recovery takes its gap (the loop of `run_recover` in src/recover.rs).
use solana_realtime_indexer.Prelude.{
  ℕ, String, Bool, true, false, List, map, ◌≡◌, ◌⊎◌, refl, sym, ap, ◌∙◌, inl, inr, Bool-cases,
  if◌then◌else◌, arith,
}
use solana_realtime_indexer.Db.Schema.{GapRow, Db}
use solana_realtime_indexer.Db.Result.{Reply, served, dropped, silent}
use solana_realtime_indexer.Recover.{
  OpenGap, mark_gap, any_covers, widened, statement, mark, close, fetch_gap, run_gap, recover_gap,
}
use solana_realtime_indexer.Recover.Stages.{
  Stage, untouched, recovering, closed, at_gap, map-map, map_same, map_id, at_gap-untouched,
  at_gap-recovering,
}

-- What one `mark_gap` makes of the rows: the stage that it is for, or nothing if it failed.
abbrev pub Marks : ℕ → ℕ → Stage → List GapRow → (ok : Bool) → List GapRow → Type 0
Marks now gap_id stage rows ok rows' =
    (s : Stage) × (rows' ≡ map (at_gap now gap_id s) rows)
    × ((s ≡ stage) ⊎ ((ok ≡ false) × (s ≡ untouched)))

-- What the body of the loop makes of the rows.
abbrev pub Moves : ℕ → ℕ → List GapRow → (finished : Bool) → List GapRow → Type 0
Moves now gap_id rows finished rows' =
    (s : Stage) × (rows' ≡ map (at_gap now gap_id s) rows) × ((s ≡ closed) ⊎ (finished ≡ false))

module _ {V : Type 0} (reply : ℕ → String → Reply) (run_pipeline : ℕ × ℕ → Db V → Bool × Db V)
    (now : ℕ)
    (keeps : (range : ℕ × ℕ) (db : Db V)
      → (run_pipeline range db).1.stream_gaps ≡ db.stream_gaps) where
  executed-Marks :
      (gap_id : ℕ) (stage : Stage) (run : Db V → Db V) (db : Db V) (executed : Bool)
      → (run db).stream_gaps ≡ map (at_gap now gap_id stage) db.stream_gaps
      → Marks now gap_id stage db.stream_gaps false (if executed then run db else db).stream_gaps
  executed-Marks gap_id stage run db true runs = (stage, runs, inl refl)
  executed-Marks gap_id stage run db false runs = (
    untouched,
    sym (map_id (at_gap now gap_id untouched) (at_gap-untouched now gap_id) db.stream_gaps),
    inr (refl, refl),
  )

  statement-Marks :
      (gap_id : ℕ) (stage : Stage) (run : Db V → Db V) (db : Db V) (r : Reply)
      → (run db).stream_gaps ≡ map (at_gap now gap_id stage) db.stream_gaps
      → Marks now gap_id stage db.stream_gaps
          (statement r run db).0
          (statement r run db).1.stream_gaps
  unfolding statement
  statement-Marks gap_id stage run db served runs = (stage, runs, inl refl)
  statement-Marks gap_id stage run db (dropped x) runs = executed-Marks gap_id stage run db x runs
  statement-Marks gap_id stage run db (silent x) runs = executed-Marks gap_id stage run db x runs

  mark-closed :
      (gap_id : ℕ) (db : Db V)
      → Marks now gap_id closed db.stream_gaps
          (mark reply run_pipeline now gap_id "closed" db).0
          (mark reply run_pipeline now gap_id "closed" db).1.stream_gaps
  unfolding mark_gap
  mark-closed gap_id db =
      statement-Marks gap_id closed (mark_gap now gap_id "closed") db (reply gap_id "closed") refl

  mark-recovering :
      (gap_id : ℕ) (db : Db V)
      → Marks now gap_id recovering db.stream_gaps
          (mark reply run_pipeline now gap_id "recovering" db).0
          (mark reply run_pipeline now gap_id "recovering" db).1.stream_gaps
  unfolding mark_gap
  mark-recovering gap_id db =
      statement-Marks gap_id recovering (mark_gap now gap_id "recovering") db
        (reply gap_id "recovering") refl

  later :
      (gap_id : ℕ) (ok : Bool) (s : Stage)
      → ((s ≡ closed) ⊎ ((ok ≡ false) × (s ≡ untouched)))
      → (s' : Stage) × ((g : GapRow)
          → at_gap now gap_id s (at_gap now gap_id recovering g) ≡ at_gap now gap_id s' g)
        × ((s' ≡ closed) ⊎ (ok ≡ false))
  later gap_id ok s (inl e) = (closed, (λ g. rw e (at_gap-recovering now gap_id g)), inl refl)
  later gap_id ok s (inr (failed, e)) = (
    recovering,
    (λ g. rw e (at_gap-untouched now gap_id (at_gap now gap_id recovering g))),
    inr failed,
  )

  close-Moves :
      (gap : OpenGap) (covered : List (ℕ × ℕ)) (db : Db V)
      → let r = close reply run_pipeline now gap covered db in
        Moves now gap.gap_id db.stream_gaps r.finished r.db.stream_gaps
  close-Moves gap covered db =
      let (s, e, c) = mark-closed gap.gap_id db in
      (s, e, elim c [ inl done ↦ inl done | inr (failed, _) ↦ inr failed ])

  fetch_gap-Moves :
      (gap : OpenGap) (covered : List (ℕ × ℕ)) (ran : Bool × Db V) (rows : List GapRow)
      → ran.1.stream_gaps ≡ map (at_gap now gap.gap_id recovering) rows
      → let r = fetch_gap reply run_pipeline now gap covered ran in
        Moves now gap.gap_id rows r.finished r.db.stream_gaps
  unfolding fetch_gap
  fetch_gap-Moves gap covered (false, db) rows before = (recovering, before, inr refl)
  fetch_gap-Moves gap covered (true, db) rows before =
      let (s, e, c) = mark-closed gap.gap_id db in
      let (s', same, c') =
        later gap.gap_id (mark reply run_pipeline now gap.gap_id "closed" db).0 s c in
      (
        s',
        e
            ∙ ap (map (at_gap now gap.gap_id s)) before
            ∙ map-map (at_gap now gap.gap_id recovering) (at_gap now gap.gap_id s) rows
            ∙ map_same (λ g. at_gap now gap.gap_id s (at_gap now gap.gap_id recovering g))
                (at_gap now gap.gap_id s') same rows,
        c',
      )

  run_gap-Moves :
      (gap : OpenGap) (covered : List (ℕ × ℕ)) (marked : Bool × Db V) (rows : List GapRow)
      → Marks now gap.gap_id recovering rows marked.0 marked.1.stream_gaps
      → let r = run_gap reply run_pipeline now gap covered marked in
        Moves now gap.gap_id rows r.finished r.db.stream_gaps
  unfolding run_gap
  run_gap-Moves gap covered (false, db) rows (s, e, c) = (s, e, inr refl)
  run_gap-Moves gap covered (true, db) rows (s, e, inl c) =
      fetch_gap-Moves gap covered (run_pipeline (widened gap) db) rows
        (keeps (widened gap) db ∙ e ∙ ap (λ x. map (at_gap now gap.gap_id x) rows) c)
  run_gap-Moves gap covered (true, db) rows (s, e, inr (failed, _)) = ground arith

  pub recover_gap-Moves :
      (gap : OpenGap) (covered : List (ℕ × ℕ)) (db : Db V)
      → let r = recover_gap reply run_pipeline now gap covered db in
        Moves now gap.gap_id db.stream_gaps r.finished r.db.stream_gaps
  unfolding recover_gap
  recover_gap-Moves gap covered db = elim (Bool-cases (any_covers (widened gap) covered)) [
    | inl old ↦ rw old (close-Moves gap covered db)
    | inr new ↦ rw new (
        run_gap-Moves gap covered (mark reply run_pipeline now gap.gap_id "recovering" db)
          db.stream_gaps (mark-recovering gap.gap_id db))
  ]
