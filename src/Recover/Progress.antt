-- ===== src/Recover/Progress.antt =====
-- How far the gaps move in a recovery (`run_recover` in src/recover.rs), errors included.
use solana_realtime_indexer.Prelude.{
  ℕ, String, Bool, true, false, List, [], ◌∷◌, map, ◌≡◌, ◌≢◌, ◌⊎◌, refl, sym, ap, ◌∙◌, subst, inl,
  inr, All, Bool-cases, ◌==◌, arith,
}
use solana_realtime_indexer.Db.Schema.{GapRow, Db}
use solana_realtime_indexer.Db.Result.{Reply, served, dropped, silent}
use solana_realtime_indexer.Recover.{OpenGap, open_gaps, recover_gap, recover_loop, run_recover}
use solana_realtime_indexer.Recover.Covered.{recover_loop-goes_on, recover_loop-stops}
use solana_realtime_indexer.Recover.Stages.{
  Stage, untouched, closed, at_gap, advance, map-map, map_same, map_id, advance-untouched,
  advance-at_gap,
}
use solana_realtime_indexer.Recover.Moves.{recover_gap-Moves}

-- The stages at the end of a run: all closed, or closed up to the gap at which an error came, with
-- those after it untouched (with no gap, the error is that of the query).
abbrev pub IsProgress : (finished : Bool) → List (OpenGap × Stage) → Type 0
IsProgress true ps = All (λ p. p.1 ≡ closed) ps
IsProgress false [] = Unit
IsProgress false ((gap, stage) ∷ ps) =
    All (λ p. p.1 ≡ untouched) ps ⊎ ((stage ≡ closed) × IsProgress false ps)

-- `gap_id` is the primary key of `stream_gaps`.
abbrev pub IsDistinct : List OpenGap → Type 0
IsDistinct [] = Unit
IsDistinct (gap ∷ gaps) = All (λ g. g.gap_id ≢ gap.gap_id) gaps × IsDistinct gaps

-- What the loop makes of the rows.
abbrev pub Advances : ℕ → List OpenGap → List GapRow → (finished : Bool) → List GapRow → Type 0
Advances now gaps rows finished rows' =
    (ps : List (OpenGap × Stage)) × (map (λ p. p.0) ps ≡ gaps)
    × (rows' ≡ map (advance now ps) rows)
    × IsProgress finished ps

module _ {V : Type 0} (reply : ℕ → String → Reply) (run_pipeline : ℕ × ℕ → Db V → Bool × Db V)
    (now : ℕ)
    (keeps : (range : ℕ × ℕ) (db : Db V)
      → (run_pipeline range db).1.stream_gaps ≡ db.stream_gaps) where
  IsProgress-closed :
      (finished : Bool) (gap : OpenGap) (s : Stage) (ps : List (OpenGap × Stage))
      → s ≡ closed
      → IsProgress finished ps
      → IsProgress finished ((gap, s) ∷ ps)
  IsProgress-closed true gap s ps done rest = (done, rest)
  IsProgress-closed false gap s ps done rest = inr (done, rest)

  cons-Advances :
      (gap : OpenGap) (gaps : List OpenGap) (s : Stage) (rows rows1 rows2 : List GapRow)
      (finished : Bool)
      → All (λ h. h.gap_id ≢ gap.gap_id) gaps
      → rows1 ≡ map (at_gap now gap.gap_id s) rows
      → s ≡ closed
      → Advances now gaps rows1 finished rows2
      → Advances now (gap ∷ gaps) rows finished rows2
  cons-Advances gap gaps s rows rows1 rows2 finished others first done (ps, these, rest, progress) =
      let others' : All (λ h. h.gap_id ≢ gap.gap_id) (map (λ p. p.0) ps) =
        subst (λ l. All (λ h. h.gap_id ≢ gap.gap_id) l) (sym these) others in
      (
        (gap, s) ∷ ps,
        ap (λ l. gap ∷ l) these,
        rest
            ∙ ap (map (advance now ps)) first
            ∙ map-map (at_gap now gap.gap_id s) (advance now ps) rows
            ∙ map_same (λ g. advance now ps (at_gap now gap.gap_id s g))
                (advance now ((gap, s) ∷ ps)) (λ g. advance-at_gap now gap s ps g others') rows,
        IsProgress-closed finished gap s ps done progress,
      )

  untouched-untouched :
      (gaps : List OpenGap)
      → All {A = OpenGap × Stage} (λ p. p.1 ≡ untouched) (map (λ g. (g, untouched)) gaps)
  untouched-untouched [] = tt
  untouched-untouched (gap ∷ gaps) = (refl, untouched-untouched gaps)

  gaps-untouched :
      (gaps : List OpenGap)
      → map {A = OpenGap × Stage} (λ p. p.0) (map (λ g. (g, untouched)) gaps) ≡ gaps
  gaps-untouched [] = refl
  gaps-untouched (gap ∷ gaps) = ap (λ l. gap ∷ l) (gaps-untouched gaps)

  at_gap-advance :
      (gap : OpenGap) (gaps : List OpenGap) (s : Stage) (g : GapRow)
      → at_gap now gap.gap_id s g ≡ advance now ((gap, s) ∷ map (λ h. (h, untouched)) gaps) g
  at_gap-advance gap gaps s g = elim (Bool-cases (g.gap_id == gap.gap_id)) [
    | inl same ↦ rw same refl
    | inr other ↦ rw other (sym (advance-untouched now gaps g))
  ]

  stop-Advances :
      (gap : OpenGap) (gaps : List OpenGap) (s : Stage) (rows rows1 : List GapRow)
      → rows1 ≡ map (at_gap now gap.gap_id s) rows
      → Advances now (gap ∷ gaps) rows false rows1
  stop-Advances gap gaps s rows rows1 first =
      let ps : List (OpenGap × Stage) = (gap, s) ∷ map (λ h. (h, untouched)) gaps in
      (
        ps,
        ap (λ l. gap ∷ l) (gaps-untouched gaps),
        first
            ∙ map_same (at_gap now gap.gap_id s) (advance now ps) (at_gap-advance gap gaps s) rows,
        inl (untouched-untouched gaps),
      )

  recover_loop-Advances :
      (gaps : List OpenGap) (covered : List (ℕ × ℕ)) (db : Db V)
      → IsDistinct gaps
      → let r = recover_loop reply run_pipeline now gaps covered db in
        Advances now gaps db.stream_gaps r.finished r.db.stream_gaps
  unfolding recover_loop
  recover_loop-Advances [] covered db distinct =
      ([], refl, sym (map_id (advance now []) (λ g. refl) db.stream_gaps), tt)
  recover_loop-Advances (gap ∷ gaps) covered db (others, distinct) =
      let r = recover_gap reply run_pipeline now gap covered db in
      let rows = db.stream_gaps in
      let (s, first, c) = recover_gap-Moves reply run_pipeline now keeps gap covered db in
      elim (Bool-cases r.finished) [
        | inl goes ↦
            let done : s ≡ closed = elim c [ inl e ↦ e | inr failed ↦ ground arith ] in
            subst (λ x. Advances now (gap ∷ gaps) rows x.finished x.db.stream_gaps)
              (sym (recover_loop-goes_on reply run_pipeline now gap gaps covered db goes))
              (cons-Advances gap gaps s rows r.db.stream_gaps
                (recover_loop reply run_pipeline now gaps r.covered r.db).db.stream_gaps
                (recover_loop reply run_pipeline now gaps r.covered r.db).finished others first done
                (recover_loop-Advances gaps r.covered r.db distinct))
        | inr stops ↦
            subst (λ x. Advances now (gap ∷ gaps) rows x.finished x.db.stream_gaps)
              (sym (recover_loop-stops reply run_pipeline now gap gaps covered db stops))
              (subst (λ b. Advances now (gap ∷ gaps) rows b r.db.stream_gaps) (sym stops)
                (stop-Advances gap gaps s rows r.db.stream_gaps first))
      ]

  untouched-IsProgress :
      (ps : List (OpenGap × Stage)) → All (λ p. p.1 ≡ untouched) ps → IsProgress false ps
  untouched-IsProgress [] h = tt
  untouched-IsProgress (p ∷ ps) h = inl h.1

  none-Advances : (gaps : List OpenGap) (rows : List GapRow) → Advances now gaps rows false rows
  none-Advances gaps rows =
      let ps : List (OpenGap × Stage) = map (λ g. (g, untouched)) gaps in
      (
        ps,
        gaps-untouched gaps,
        sym (map_id (advance now ps) (advance-untouched now gaps) rows),
        untouched-IsProgress ps (untouched-untouched gaps),
      )

  -- For a pipeline that leaves `stream_gaps` alone, and open gaps with distinct ids, whatever becomes
  -- of the statements and the pipelines: a recovery gives each gap that was open a stage and leaves
  -- every other row as it was. If it returns without an error, each of them is closed, with the
  -- time and the method of its recovery. If not, those before the one at which it stopped (the first,
  -- if the query for them failed) are closed, those after it are untouched, and that one is
  -- untouched, marked 'recovering' with the time and the method of a recovery as they were, or
  -- closed.
  pub run_recover-Advances :
      (query : Reply) (db : Db V)
      → IsDistinct (open_gaps db)
      → Advances now
          (open_gaps db)
          db.stream_gaps
          (run_recover reply run_pipeline now query db).finished
          (run_recover reply run_pipeline now query db).db.stream_gaps
  unfolding run_recover
  run_recover-Advances served db distinct = recover_loop-Advances (open_gaps db) [] db distinct
  run_recover-Advances (dropped _) db distinct = none-Advances (open_gaps db) db.stream_gaps
  run_recover-Advances (silent _) db distinct = none-Advances (open_gaps db) db.stream_gaps
