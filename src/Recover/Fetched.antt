-- ===== src/Recover/Fetched.antt =====
-- That a recovery really fetches what it counts as covered (`run_recover` in src/recover.rs).
use solana_realtime_indexer.Prelude.{
  ℕ, ◌+◌, ◌-◌, ◌%◌, ◌≤◌, String, Bool, List, [], ◌∷◌, ◌++◌, true, false, ◌≡◌, refl, inl, inr,
  Bool-cases, All, All-map, All-append, All-In, if◌then◌else◌, as_u64, u64_mod,
}
use solana_realtime_indexer.Db.Schema.{EventRow, Db}
use solana_realtime_indexer.Db.Result.{Reply, served, dropped, silent}
use solana_realtime_indexer.Recover.{
  OpenGap, widened, any_covers, mark, mark_gap, statement, fetch_gap, run_gap, recover_gap,
  recover_loop, run_recover, open_gaps, Recovery,
}
use solana_realtime_indexer.Recover.Covered.{
  Covers, run_recover-Covers, recover_loop-goes_on, recover_loop-stops,
}

-- `Holds range events` says that the blocks of a range have left what they should in `events`. A
-- pipeline that returns `Ok` brings that about, and no pipeline undoes it.
pub record IsFetcher {V : Type 0} (Holds : ℕ × ℕ → List (EventRow V) → Type 0)
    (run_pipeline : ℕ × ℕ → Db V → Bool × Db V) : Type 0 where
  pub fetches :
      (range : ℕ × ℕ) (db : Db V)
      → (run_pipeline range db).0 ≡ true
      → Holds range (run_pipeline range db).1.events
  pub keeps :
      (range a : ℕ × ℕ) (db : Db V) → Holds a db.events → Holds a (run_pipeline range db).1.events

module _ {V : Type 0} (reply : ℕ → String → Reply) (run_pipeline : ℕ × ℕ → Db V → Bool × Db V)
    (now : ℕ) (Holds : ℕ × ℕ → List (EventRow V) → Type 0)
    (fetcher : IsFetcher Holds run_pipeline) where
  abbrev AllHold : Recovery V → Type 0
  AllHold r = All (λ a. Holds a r.db.events) r.covered

  -- The statement on a gap leaves `events` alone.
  mark-AllHold :
      (gap_id : ℕ) (status : String) (covered : List (ℕ × ℕ)) (db : Db V)
      → All (λ a. Holds a db.events) covered
      → All (λ a. Holds a (mark reply run_pipeline now gap_id status db).1.events) covered
  unfolding statement mark_gap
  mark-AllHold gap_id status covered db h = go (reply gap_id status)
    where
      landed :
          (executed : Bool)
          → All
              (λ a. Holds a (if executed then mark_gap now gap_id status db else db).events)
              covered
      landed true = h
      landed false = h

      go :
          (r : Reply)
          → All (λ a. Holds a (statement r (mark_gap now gap_id status) db).1.events) covered
      go served = h
      go (dropped executed) = landed executed
      go (silent executed) = landed executed

  fetch_gap-AllHold :
      (gap : OpenGap) (covered : List (ℕ × ℕ)) (ran : Bool × Db V)
      → All (λ a. Holds a ran.1.events) covered
      → (ran.0 ≡ true → Holds (widened gap) ran.1.events)
      → AllHold (fetch_gap reply run_pipeline now gap covered ran)
  unfolding fetch_gap
  fetch_gap-AllHold gap covered (false, db) old new = old
  fetch_gap-AllHold gap covered (true, db) old new =
      mark-AllHold gap.gap_id "closed" (covered ++ widened gap ∷ []) db
        (All-append (λ a. Holds a db.events) covered (widened gap ∷ []) old (new refl, tt))

  run_gap-AllHold :
      (gap : OpenGap) (covered : List (ℕ × ℕ)) (marked : Bool × Db V)
      → All (λ a. Holds a marked.1.events) covered
      → AllHold (run_gap reply run_pipeline now gap covered marked)
  unfolding run_gap
  run_gap-AllHold gap covered (false, db) h = h
  run_gap-AllHold gap covered (true, db) h =
      fetch_gap-AllHold gap covered (run_pipeline (widened gap) db)
        (All-map (λ a. Holds a db.events) _ covered (λ a. fetcher.keeps (widened gap) a db) h)
        (fetcher.fetches (widened gap) db)

  recover_gap-AllHold :
      (gap : OpenGap) (covered : List (ℕ × ℕ)) (db : Db V)
      → All (λ a. Holds a db.events) covered
      → AllHold (recover_gap reply run_pipeline now gap covered db)
  unfolding recover_gap
  recover_gap-AllHold gap covered db h = elim (Bool-cases (any_covers (widened gap) covered)) [
    | inl old ↦ rw old (mark-AllHold gap.gap_id "closed" covered db h)
    | inr new ↦ rw new (
        run_gap-AllHold gap covered (mark reply run_pipeline now gap.gap_id "recovering" db)
          (mark-AllHold gap.gap_id "recovering" covered db h))
  ]

  recover_loop-AllHold :
      (gaps : List OpenGap) (covered : List (ℕ × ℕ)) (db : Db V)
      → All (λ a. Holds a db.events) covered
      → AllHold (recover_loop reply run_pipeline now gaps covered db)
  unfolding recover_loop
  recover_loop-AllHold [] covered db h = h
  recover_loop-AllHold (gap ∷ gaps) covered db h =
      let r = recover_gap reply run_pipeline now gap covered db in
      let held = recover_gap-AllHold gap covered db h in
      elim (Bool-cases r.finished) [
        | inl f ↦
            rw (recover_loop-goes_on reply run_pipeline now gap gaps covered db f)
              (recover_loop-AllHold gaps r.covered r.db held)
        | inr f ↦ rw (recover_loop-stops reply run_pipeline now gap gaps covered db f) held
      ]

  run_recover-AllHold :
      (query : Reply) (db : Db V) → AllHold (run_recover reply run_pipeline now query db)
  unfolding run_recover
  run_recover-AllHold served db = recover_loop-AllHold (open_gaps db) [] db tt
  run_recover-AllHold (dropped _) db = tt
  run_recover-AllHold (silent _) db = tt

  -- The tables hold a range around the gap, with 64 slots on both sides.
  abbrev pub IsHealed : List (EventRow V) → OpenGap → Type 0
  IsHealed events gap =
      (a : ℕ × ℕ) × Holds a events
      × (a.0 ≤ as_u64 gap.start_slot - 64)
      × ((as_u64 gap.end_slot + 64) % u64_mod ≤ a.1)

  -- A recovery that ends without an error has fetched every gap that was open, widened on both
  -- sides: at its end, `events` holds what a pipeline brings into it over a range that reaches at
  -- least from 64 slots before the gap's start, or from slot 0, to 64 slots after its end, in
  -- 64-bit arithmetic. It is given that a pipeline which returns without an error brings in its
  -- range (`Holds`), and that none undoes it for another.
  pub run_recover-IsHealed :
      (query : Reply) (db : Db V)
      → (run_recover reply run_pipeline now query db).finished ≡ true
      → All (IsHealed (run_recover reply run_pipeline now query db).db.events) (open_gaps db)
  run_recover-IsHealed query db finished =
      let r = run_recover reply run_pipeline now query db in
      All-map (λ gap. Covers (widened gap) r.covered) (IsHealed r.db.events) (open_gaps db)
        (λ gap (a, m, above, below). (
          a,
          All-In (λ b. Holds b r.db.events) r.covered (run_recover-AllHold query db) m,
          above,
          below,
        ))
        (run_recover-Covers reply run_pipeline now query db finished)
