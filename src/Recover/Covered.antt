-- ===== src/Recover/Covered.antt =====
-- Which ranges a recovery counts as covered (`run_recover` in src/recover.rs).
use solana_realtime_indexer.Prelude.{
  ℕ, ◌≤◌, String, Bool, List, [], ◌∷◌, true, false, ◌≡◌, ◌≢◌, refl, sym, ap, subst, ◌∙◌, arith, inl,
  inr, In, In-append_left, In-append_right, Bool-cases, All,
}
use solana_realtime_indexer.Db.Schema.{Db}
use solana_realtime_indexer.Db.Result.{Reply, served, dropped, silent}
use solana_realtime_indexer.Recover.{
  OpenGap, widened, covers, any_covers, mark, fetch_gap, run_gap, recover_gap, recover_loop,
  run_recover, open_gaps,
}

false-true : false ≢ true
false-true h = cc

-- Some range that is counted as covered holds this one.
abbrev pub Covers : ℕ × ℕ → List (ℕ × ℕ) → Type 0
Covers range covered = (a : ℕ × ℕ) × In a covered × (a.0 ≤ range.0) × (range.1 ≤ a.1)

any_covers-Covers :
    (range : ℕ × ℕ) (covered : List (ℕ × ℕ))
    → any_covers range covered ≡ true
    → Covers range covered
unfolding any_covers
any_covers-Covers range [] h = ground arith
any_covers-Covers range (a ∷ as') h = elim (Bool-cases (covers range a)) [
  | inl p ↦ (a, inl refl, ground arith, ground arith)
  | inr q ↦
      let (b, m, above, below) = any_covers-Covers range as' (ground arith) in
      (b, inr m, above, below)
]

module _ {V : Type 0} (reply : ℕ → String → Reply) (run_pipeline : ℕ × ℕ → Db V → Bool × Db V)
    (now : ℕ) where
  fetch_gap-keeps :
      (gap : OpenGap) (covered : List (ℕ × ℕ)) (ran : Bool × Db V) (a : ℕ × ℕ)
      → In a covered
      → In a (fetch_gap reply run_pipeline now gap covered ran).covered
  unfolding fetch_gap
  fetch_gap-keeps gap covered (false, db) a m = m
  fetch_gap-keeps gap covered (true, db) a m = In-append_left a covered (widened gap ∷ []) m

  run_gap-keeps :
      (gap : OpenGap) (covered : List (ℕ × ℕ)) (marked : Bool × Db V) (a : ℕ × ℕ)
      → In a covered
      → In a (run_gap reply run_pipeline now gap covered marked).covered
  unfolding run_gap
  run_gap-keeps gap covered (false, db) a m = m
  run_gap-keeps gap covered (true, db) a m =
      fetch_gap-keeps gap covered (run_pipeline (widened gap) db) a m

  recover_gap-keeps :
      (gap : OpenGap) (covered : List (ℕ × ℕ)) (db : Db V) (a : ℕ × ℕ)
      → In a covered
      → In a (recover_gap reply run_pipeline now gap covered db).covered
  unfolding recover_gap
  recover_gap-keeps gap covered db a m = elim (Bool-cases (any_covers (widened gap) covered)) [
    | inl old ↦ rw old m
    | inr new ↦
        rw new
          (run_gap-keeps gap covered (mark reply run_pipeline now gap.gap_id "recovering" db) a m)
  ]

  fetch_gap-Covers :
      (gap : OpenGap) (covered : List (ℕ × ℕ)) (ran : Bool × Db V)
      → (fetch_gap reply run_pipeline now gap covered ran).finished ≡ true
      → Covers (widened gap) (fetch_gap reply run_pipeline now gap covered ran).covered
  unfolding fetch_gap
  fetch_gap-Covers gap covered (false, db) f = ground arith
  fetch_gap-Covers gap covered (true, db) f = (
    widened gap,
    In-append_right (widened gap) covered (widened gap ∷ []) (inl refl),
    omega arith,
    omega arith,
  )

  run_gap-Covers :
      (gap : OpenGap) (covered : List (ℕ × ℕ)) (marked : Bool × Db V)
      → (run_gap reply run_pipeline now gap covered marked).finished ≡ true
      → Covers (widened gap) (run_gap reply run_pipeline now gap covered marked).covered
  unfolding run_gap
  run_gap-Covers gap covered (false, db) f = ground arith
  run_gap-Covers gap covered (true, db) f =
      fetch_gap-Covers gap covered (run_pipeline (widened gap) db) f

  recover_gap-Covers :
      (gap : OpenGap) (covered : List (ℕ × ℕ)) (db : Db V)
      → (recover_gap reply run_pipeline now gap covered db).finished ≡ true
      → Covers (widened gap) (recover_gap reply run_pipeline now gap covered db).covered
  unfolding recover_gap
  recover_gap-Covers gap covered db = elim (Bool-cases (any_covers (widened gap) covered)) [
    | inl old ↦ rw old (λ _. any_covers-Covers (widened gap) covered old)
    | inr new ↦
        rw new (run_gap-Covers gap covered (mark reply run_pipeline now gap.gap_id "recovering" db))
  ]

  pub recover_loop-goes_on :
      (gap : OpenGap) (gaps : List OpenGap) (covered : List (ℕ × ℕ)) (db : Db V)
      → let r = recover_gap reply run_pipeline now gap covered db in
        r.finished ≡ true
        → recover_loop reply run_pipeline now (gap ∷ gaps) covered db
          ≡ recover_loop reply run_pipeline now gaps r.covered r.db
  unfolding recover_loop
  recover_loop-goes_on gap gaps covered db f = ground arith

  pub recover_loop-stops :
      (gap : OpenGap) (gaps : List OpenGap) (covered : List (ℕ × ℕ)) (db : Db V)
      → let r = recover_gap reply run_pipeline now gap covered db in
        r.finished ≡ false → recover_loop reply run_pipeline now (gap ∷ gaps) covered db ≡ r
  unfolding recover_loop
  recover_loop-stops gap gaps covered db f = ground arith

  recover_loop-keeps :
      (gaps : List OpenGap) (covered : List (ℕ × ℕ)) (db : Db V) (a : ℕ × ℕ)
      → In a covered
      → In a (recover_loop reply run_pipeline now gaps covered db).covered
  unfolding recover_loop
  recover_loop-keeps [] covered db a m = m
  recover_loop-keeps (gap ∷ gaps) covered db a m =
      let r = recover_gap reply run_pipeline now gap covered db in
      let kept = recover_gap-keeps gap covered db a m in
      elim (Bool-cases r.finished) [
        | inl f ↦
            rw (recover_loop-goes_on gap gaps covered db f)
              (recover_loop-keeps gaps r.covered r.db a kept)
        | inr f ↦ rw (recover_loop-stops gap gaps covered db f) kept
      ]

  recover_loop-Covers :
      (gaps : List OpenGap) (covered : List (ℕ × ℕ)) (db : Db V)
      → (recover_loop reply run_pipeline now gaps covered db).finished ≡ true
      → All
          (λ gap.
            Covers (widened gap) (recover_loop reply run_pipeline now gaps covered db).covered)
          gaps
  unfolding recover_loop
  recover_loop-Covers [] covered db f = tt
  recover_loop-Covers (g ∷ gaps) covered db f =
      let r = recover_gap reply run_pipeline now g covered db in
      elim (Bool-cases r.finished) [
        | inl goes ↦
            let same = recover_loop-goes_on g gaps covered db goes in
            let (a, m, above, below) = recover_gap-Covers g covered db goes in
            subst (λ x. All (λ gap. Covers (widened gap) x.covered) (g ∷ gaps)) (sym same)
              (
                (a, recover_loop-keeps gaps r.covered r.db a m, above, below),
                recover_loop-Covers gaps r.covered r.db (sym (ap (λ x. x.finished) same) ∙ f),
              )
        | inr stops ↦ let same = recover_loop-stops g gaps covered db stops in ground arith
      ]

  -- A recovery that ends without an error counts, for every gap that was open, a range as covered
  -- that holds the gap with the overlap on both sides.
  pub run_recover-Covers :
      (query : Reply) (db : Db V)
      → (run_recover reply run_pipeline now query db).finished ≡ true
      → All
          (λ gap. Covers (widened gap) (run_recover reply run_pipeline now query db).covered)
          (open_gaps db)
  unfolding run_recover
  run_recover-Covers served db f = recover_loop-Covers (open_gaps db) [] db f
  run_recover-Covers (dropped _) db f = absurd (false-true f)
  run_recover-Covers (silent _) db f = absurd (false-true f)
