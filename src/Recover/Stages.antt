-- ===== src/Recover/Stages.antt =====
-- The stages of a gap in a recovery, as functions on the rows of `stream_gaps` (src/recover.rs).
use solana_realtime_indexer.Prelude.{
  ℕ, List, [], ◌∷◌, map, ◌≡◌, ◌≢◌, refl, sym, ap, ◌∙◌, inl, inr, All, Bool-cases, if◌then◌else◌,
  ◌==◌, ==_iff,
}
use solana_realtime_indexer.Db.Schema.{GapRow}
use solana_realtime_indexer.Recover.{OpenGap, marked}

-- How far a recovery has taken a gap.
pub data Stage : Type 0 where
  untouched recovering closed : Stage

-- The row of a gap then.
abbrev pub at_stage : ℕ → Stage → GapRow → GapRow
at_stage now untouched g = g
at_stage now recovering g = marked now "recovering" g
at_stage now closed g = marked now "closed" g

abbrev pub at_gap : ℕ → ℕ → Stage → GapRow → GapRow
at_gap now gap_id stage g = if g.gap_id == gap_id then at_stage now stage g else g

-- Each row at its stage; the other rows of the table are as they were.
abbrev pub advance : ℕ → List (OpenGap × Stage) → GapRow → GapRow
advance now [] g = g
advance now ((gap, stage) ∷ ps) g =
    if g.gap_id == gap.gap_id then at_stage now stage g else advance now ps g

pub map-map :
    {A B C : Type 0} (f : A → B) (g : B → C) (xs : List A)
    → map g (map f xs) ≡ map (λ x. g (f x)) xs
map-map f g [] = refl
map-map f g (x ∷ xs) = ap (λ ys. g (f x) ∷ ys) (map-map f g xs)

pub map_same :
    {A B : Type 0} (f g : A → B) → ((a : A) → f a ≡ g a) → (xs : List A) → map f xs ≡ map g xs
map_same f g e [] = refl
map_same f g e (x ∷ xs) = ap (λ y. y ∷ map f xs) (e x) ∙ ap (λ ys. g x ∷ ys) (map_same f g e xs)

pub map_id : {A : Type 0} (f : A → A) → ((a : A) → f a ≡ a) → (xs : List A) → map f xs ≡ xs
map_id f e [] = refl
map_id f e (x ∷ xs) = ap (λ y. y ∷ map f xs) (e x) ∙ ap (λ ys. x ∷ ys) (map_id f e xs)

at_stage-gap_id : (now : ℕ) (s : Stage) (g : GapRow) → (at_stage now s g).gap_id ≡ g.gap_id
at_stage-gap_id now untouched g = refl
at_stage-gap_id now recovering g = refl
at_stage-gap_id now closed g = refl

pub at_gap-gap_id :
    (now gap_id : ℕ) (s : Stage) (g : GapRow) → (at_gap now gap_id s g).gap_id ≡ g.gap_id
at_gap-gap_id now gap_id s g = elim (Bool-cases (g.gap_id == gap_id)) [
  | inl same ↦ rw same (at_stage-gap_id now s g)
  | inr other ↦ rw other refl
]

pub at_gap-untouched : (now gap_id : ℕ) (g : GapRow) → at_gap now gap_id untouched g ≡ g
at_gap-untouched now gap_id g = elim (Bool-cases (g.gap_id == gap_id)) [
  | inl same ↦ rw same refl
  | inr other ↦ rw other refl
]

-- A closed gap's row is the same with or without the label in between.
pub at_gap-recovering :
    (now gap_id : ℕ) (g : GapRow)
    → at_gap now gap_id closed (at_gap now gap_id recovering g) ≡ at_gap now gap_id closed g
at_gap-recovering now gap_id g = elim (Bool-cases (g.gap_id == gap_id)) [
  | inl same ↦ rw same (rw same refl)
  | inr other ↦ rw other (rw other refl)
]

advance-others :
    (now gap_id : ℕ) (ps : List (OpenGap × Stage)) (g : GapRow)
    → All (λ h. h.gap_id ≢ gap_id) (map (λ p. p.0) ps)
    → g.gap_id ≡ gap_id
    → advance now ps g ≡ g
advance-others now gap_id [] g others same = refl
advance-others now gap_id ((gap, stage) ∷ ps) g (other, others) same =
    let rest = advance-others now gap_id ps g others same in
    elim (Bool-cases (g.gap_id == gap.gap_id)) [
      | inl e ↦ absurd (other (sym ((==_iff g.gap_id gap.gap_id).0 e) ∙ same))
      | inr e ↦ rw e rest
    ]

pub advance-untouched :
    (now : ℕ) (gaps : List OpenGap) (g : GapRow)
    → advance now (map (λ gap. (gap, untouched)) gaps) g ≡ g
advance-untouched now [] g = refl
advance-untouched now (gap ∷ gaps) g = elim (Bool-cases (g.gap_id == gap.gap_id)) [
  | inl e ↦ rw e refl
  | inr e ↦ rw e (advance-untouched now gaps g)
]

pub advance-at_gap :
    (now : ℕ) (gap : OpenGap) (s : Stage) (ps : List (OpenGap × Stage)) (g : GapRow)
    → All (λ h. h.gap_id ≢ gap.gap_id) (map (λ p. p.0) ps)
    → advance now ps (at_gap now gap.gap_id s g) ≡ advance now ((gap, s) ∷ ps) g
advance-at_gap now gap s ps g others = elim (Bool-cases (g.gap_id == gap.gap_id)) [
  | inl e ↦
      let same : (at_stage now s g).gap_id ≡ gap.gap_id =
        at_stage-gap_id now s g ∙ (==_iff g.gap_id gap.gap_id).0 e in
      rw e (advance-others now gap.gap_id ps (at_stage now s g) others same)
  | inr e ↦ rw e refl
]
