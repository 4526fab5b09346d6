-- ===== src/Verify/Complete.antt =====
-- What a clean verification says of the table `events` (src/verify.rs).
use solana_realtime_indexer.Prelude.{
  ℕ, String, List, [], ◌∷◌, map, Bool, true, false, some, ◌=?◌, =?_iff, ◌≡◌, ◌↔◌, refl, sym, ap,
  ◌∙◌, inl, inr, arith, In, In-map, unwrap_or, Bool-cases, string_eq, ℤ, as_i64, ◌≤ℤ◌,
}
use solana_realtime_indexer.Identity.{EventId}
use solana_realtime_indexer.Db.Schema.{EventRow, Db}
use solana_realtime_indexer.Db.Result.{served}
use solana_realtime_indexer.Verify.{row_id}
use solana_realtime_indexer.Verify.Report.{report_iff}
use solana_realtime_indexer.Verify.Run.{
  select_where, is_any, is_between, compare_rows, run_verify, run_verify_range,
}

false-true : ¬ (false ≡ true)
false-true h = cc

is_between_iff :
    (from to : ℕ) (slot : ℤ)
    → (is_between from to slot ≡ true) ↔ ((as_i64 from ≤ℤ slot) × (slot ≤ℤ as_i64 to))
is_between_iff from to slot = ground arith

is_any_iff :
    (signature : String) (es : List EventId)
    → (is_any signature es ≡ true) ↔ ((e : EventId) × In e es × (signature ≡ e.signature))
unfolding is_any
is_any_iff signature [] = ((λ h. absurd (false-true h)), (λ (e, m, same). absurd m))
is_any_iff signature (e ∷ es) =
    let (there, back) = is_any_iff signature es in
    elim (Bool-cases (signature =? e.signature)) [
      | inl here ↦
          rw here ((λ _. (e, inl refl, (=?_iff signature e.signature).0 here)), (λ _. refl))
      | inr other ↦ rw other (
        (λ h. let (x, m, same) = there h in (x, inr m, same)),
        (λ (x, m, same). elim m [
          | inl first ↦ absurd (
              false-true
                (sym other ∙ (=?_iff signature e.signature).1 (same ∙ ap (λ y. y.signature) first)))
          | inr later ↦ back (x, later, same)
        ]),
      )
    ]

module _ {V : Type 0} where
  select_where-In :
      (holds : EventRow V → Bool) (rs : List (EventRow V)) (r : EventRow V)
      → In r (select_where holds rs)
      → In r rs × (holds r ≡ true)
  unfolding select_where
  select_where-In holds [] r = λ m. absurd m
  select_where-In holds (x ∷ rs) r = elim (Bool-cases (holds x)) [
    | inl yes' ↦ rw yes' (λ m. elim m [
      | inl e ↦ (inl e, ap holds e ∙ yes')
      | inr n ↦ let (n', h) = select_where-In holds rs r n in (inr n', h)
    ])
    | inr no' ↦ rw no' (λ n. let (n', h) = select_where-In holds rs r n in (inr n', h))
  ]

  In-select_where :
      (holds : EventRow V → Bool) (rs : List (EventRow V)) (r : EventRow V)
      → In r rs
      → holds r ≡ true
      → In r (select_where holds rs)
  unfolding select_where
  In-select_where holds [] r m h = absurd m
  In-select_where holds (x ∷ rs) r (inl e) h = rw (sym (ap holds e) ∙ h) (inl e)
  In-select_where holds (x ∷ rs) r (inr m) h = elim (Bool-cases (holds x)) [
    | inl yes' ↦ rw yes' (inr (In-select_where holds rs r m h))
    | inr no' ↦ rw no' (In-select_where holds rs r m h)
  ]

  map-In :
      (rs : List (EventRow V)) (x : EventId)
      → In x (map row_id rs)
      → (r : EventRow V) × In r rs × (x ≡ row_id r)
  map-In [] x m = absurd m
  map-In (r ∷ rs) x (inl e) = (r, inl refl, e)
  map-In (r ∷ rs) x (inr m) = let (r', m', e) = map-In rs x m in (r', inr m', e)

  -- Each event of the log has a row that the query covers, and each such row is of an event of the log.
  abbrev pub IsComplete : (EventRow V → Bool) → List EventId → List (EventRow V) → Type 0
  IsComplete holds expected rows =
      ((x : EventId)
        → In x expected
        → (r : EventRow V) × In r rows × (holds r ≡ true) × (x ≡ row_id r))
      × ((r : EventRow V) → In r rows → holds r ≡ true → In (row_id r) expected)

  compare_rows_iff :
      (holds : EventRow V → Bool) (expected : List EventId) (db : Db V)
      → (compare_rows holds expected served db ≡ some true) ↔ IsComplete holds expected db.events
  unfolding compare_rows
  compare_rows_iff holds expected db = (
    (λ same.
        let (none_missing, none_extra) =
          (report_iff expected actual).0 (ap (λ o. unwrap_or false o) same) in
        (
          (λ x m.
              let (r, selected, e) = map-In (select_where holds db.events) x (none_missing x m) in
              let (stored, h) = select_where-In holds db.events r selected in (r, stored, h, e)),
          (λ r stored h. none_extra (row_id r) (
              In-map row_id (select_where holds db.events) r
                (In-select_where holds db.events r stored h))),
        )),
    (λ (found, known). ap some (
        (report_iff expected actual).1 (
          (λ x m.
              let (r, stored, h, e) = found x m in
              rw e (
                In-map row_id (select_where holds db.events) r
                  (In-select_where holds db.events r stored h))),
          (λ x m.
              let (r, selected, e) = map-In (select_where holds db.events) x m in
              let (stored, h) = select_where-In holds db.events r selected in
              rw e (known r stored h)),
        ))),
  )
    where
      actual : List EventId
      actual = map row_id (select_where holds db.events)

  -- A verification against a capture comes out clean exactly if each event of the capture has a row,
  -- and each row whose signature is that of an event of the capture is the row of one of them,
  -- given that the capture could be replayed and the query is answered.
  pub run_verify_iff :
      (expected : List EventId) (db : Db V)
      → (run_verify (some expected) served db ≡ some true) ↔ (
          ((x : EventId) → In x expected → (r : EventRow V) × In r db.events × (x ≡ row_id r))
          × ((r : EventRow V) (x : EventId)
              → In r db.events
              → In x expected
              → r.signature ≡ x.signature
              → In (row_id r) expected))
  unfolding run_verify
  run_verify_iff expected db =
      let (complete, clean) = compare_rows_iff (λ r. is_any r.signature expected) expected db in
      (
        (λ same.
            let (found, known) = complete same in
            (
              (λ x m. let (r, stored, _, e) = found x m in (r, stored, e)),
              (λ r x stored m e. known r stored ((is_any_iff r.signature expected).1 (x, m, e))),
            )),
        (λ (found, known). clean (
          (λ x m.
              let (r, stored, e) = found x m in
              (
                r,
                stored,
                (is_any_iff r.signature expected).1 (x, m, sym (ap (λ y. y.signature) e)),
                e,
              )),
          (λ r stored h.
              let (x, m, e) = (is_any_iff r.signature expected).0 h in known r x stored m e),
        )),
      )

  -- A verification of a range of slots comes out clean exactly if each event that its pipeline
  -- has logged from the blocks of the range has a row with a slot in the range, and each such row
  -- is the row of one of those events, given that the pipeline returned without an error and the
  -- query is answered. The log has what the backfill could fetch: a block that it gave up on
  -- leaves no events in it. The ends of the range are cast to `i64`.
  pub run_verify_range_iff :
      (from to : ℕ) (expected : List EventId) (db : Db V)
      → (run_verify_range from to (some expected) served db ≡ some true) ↔ (
          ((x : EventId)
            → In x expected
            → (r : EventRow V) × In r db.events
              × (as_i64 from ≤ℤ r.slot)
              × (r.slot ≤ℤ as_i64 to)
              × (x ≡ row_id r))
          × ((r : EventRow V)
              → In r db.events
              → as_i64 from ≤ℤ r.slot
              → r.slot ≤ℤ as_i64 to
              → In (row_id r) expected))
  unfolding run_verify_range
  run_verify_range_iff from to expected db =
      let (complete, clean) =
        compare_rows_iff (λ (r : EventRow V). is_between from to r.slot) expected db in
      (
        (λ same.
            let (found, known) = complete same in
            (
              (λ x m.
                  let (r, stored, h, e) = found x m in
                  let (low, high) = (is_between_iff from to r.slot).0 h in
                  (r, stored, low, high, e)),
              (λ r stored low high. known r stored ((is_between_iff from to r.slot).1 (low, high))),
            )),
        (λ (found, known). clean (
          (λ x m.
              let (r, stored, low, high, e) = found x m in
              (r, stored, (is_between_iff from to r.slot).1 (low, high), e)),
          (λ r stored h.
              let (low, high) = (is_between_iff from to r.slot).0 h in known r stored low high),
        )),
      )
