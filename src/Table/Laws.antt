-- ===== src/Table/Laws.antt =====
-- What `INSERT ... ON CONFLICT DO NOTHING` keeps and adds.
use solana_realtime_indexer.Prelude.{
  length, length-append, ◌+◌, ◌≡◌, refl, true, none, some, List, [], ◌∷◌, ◌++◌, Eq, ◌=?◌, =?_iff,
  or_else, arith, if◌then◌else◌, In, All, inl, inr, append_assoc, append-nil, Bool-cases,
  Option-cases, All-of_In, All-append, sym, ◌∙◌,
}
use solana_realtime_indexer.Table.{find, contains, insert_row, insert_rows}

module _ {R K : Type 0} ⦃e : Eq K⦄ (key : R → K) where
  pub find-append :
      (k : K) (t u : List R) → find key k (t ++ u) ≡ or_else (find key k t) (find key k u)
  unfolding find
  find-append k [] u = refl
  find-append k (r ∷ t) u = ground (arith, find-append k t u)

  -- A row that is found has the key.
  pub find-key : (k : K) (t : List R) (r : R) → find key k t ≡ some r → key r ≡ k
  unfolding find
  find-key k [] r h = cc
  find-key k (x ∷ t) r h = ground (arith, =?_iff (key x) k, find-key k t r)

  pub find-In : (k : K) (t : List R) (r : R) → find key k t ≡ some r → In r t
  unfolding find
  find-In k [] r h = cc
  find-In k (x ∷ t) r h = elim (Bool-cases (key x =? k)) [
    | inl p ↦ inl (ground arith)
    | inr p ↦ inr (find-In k t r (ground arith))
  ]

  pub contains-In : (t : List R) (r : R) → In r t → contains key (key r) t ≡ true
  unfolding find
  contains-In [] r h = absurd h
  contains-In (x ∷ t) r (inl p) = ground (arith, =?_iff (key x) (key r))
  contains-In (x ∷ t) r (inr m) = ground (arith, contains-In t r m)

  pub contains-found :
      (t : List R) (k : K) → contains key k t ≡ true → (r : R) × In r t × (key r ≡ k)
  unfolding find
  contains-found [] k h = ground arith
  contains-found (x ∷ t) k h = elim (Bool-cases (key x =? k)) [
    | inl here ↦ (x, inl refl, (=?_iff (key x) k).0 here)
    | inr other ↦ let (r, m, e) = contains-found t k (ground arith) in (r, inr m, e)
  ]

  pub contains-append_left :
      (k : K) (t u : List R) → contains key k t ≡ true → contains key k (t ++ u) ≡ true
  contains-append_left k t u h = ground (arith, find-append k t u)

  pub contains-append_right :
      (k : K) (t u : List R) → contains key k u ≡ true → contains key k (t ++ u) ≡ true
  contains-append_right k t u h = ground (arith, find-append k t u)

  -- Stored rows are never changed by an insertion.
  pub find-insert_row :
      (k : K) (r : R) (t : List R)
      → find key k (insert_row key r t)
        ≡ or_else (find key k t) (if key r =? k then some r else none)
  unfolding insert_row
  find-insert_row k r t = elim (Option-cases (find key (key r) t)) [
    | inl fresh ↦ rw fresh (unfold find in find-append k t (r ∷ []))
    | inr (old, stored) ↦ ground (arith, =?_iff (key r) k)
  ]

  pub find-insert_rows :
      (k : K) (rs t : List R)
      → find key k (insert_rows key rs t) ≡ or_else (find key k t) (find key k rs)
  unfolding insert_rows find
  find-insert_rows k [] t = ground arith
  find-insert_rows k (r ∷ rs) t =
      ground (arith, find-insert_rows k rs (insert_row key r t), find-insert_row k r t)

  -- Every row of the statement is stored afterwards, under its key.
  pub contains-insert_rows :
      (rs t : List R) (r : R) → In r rs → contains key (key r) (insert_rows key rs t) ≡ true
  contains-insert_rows rs t r m = ground (arith, find-insert_rows (key r) rs t, contains-In rs r m)

  pub contains-insert_rows_old :
      (k : K) (rs t : List R)
      → contains key k t ≡ true
      → contains key k (insert_rows key rs t) ≡ true
  contains-insert_rows_old k rs t h = ground (arith, find-insert_rows k rs t)

  insert_row-stored : (r : R) (t : List R) → contains key (key r) t ≡ true → insert_row key r t ≡ t
  unfolding insert_row
  insert_row-stored r t h = ground arith

  pub insert_rows-stored :
      (rs t : List R) → All (λ r. contains key (key r) t ≡ true) rs → insert_rows key rs t ≡ t
  unfolding insert_rows
  insert_rows-stored [] t h = refl
  insert_rows-stored (r ∷ rs) t h = rw (insert_row-stored r t h.0) (insert_rows-stored rs t h.1)

  pub All-contains-insert_rows :
      (rs t : List R) → All (λ r. contains key (key r) (insert_rows key rs t) ≡ true) rs
  All-contains-insert_rows rs t = All-of_In _ rs (λ r m. contains-insert_rows rs t r m)

  -- The same statement twice is the statement once.
  pub insert_rows-insert_rows :
      (rs t : List R) → insert_rows key rs (insert_rows key rs t) ≡ insert_rows key rs t
  insert_rows-insert_rows rs t =
      insert_rows-stored rs (insert_rows key rs t) (All-contains-insert_rows rs t)

  -- An insertion keeps the table as a prefix: what is stored keeps its place.
  pub insert_rows-IsPrefix : (rs t : List R) → (new : List R) × (insert_rows key rs t ≡ t ++ new)
  unfolding insert_rows insert_row
  insert_rows-IsPrefix [] t = ([], sym (append-nil t))
  insert_rows-IsPrefix (r ∷ rs) t = elim (Bool-cases (contains key (key r) t)) [
    | inl old ↦ rw old (insert_rows-IsPrefix rs t)
    | inr fresh ↦
        let (new, p) = insert_rows-IsPrefix rs (t ++ r ∷ []) in
        (r ∷ new, rw fresh (p ∙ append_assoc t (r ∷ []) new))
  ]

  -- What a predicate says of the old rows and of the new ones, it says of the table.
  pub All-insert_rows :
      (P : R → Type 0) (rs t : List R) → All P rs → All P t → All P (insert_rows key rs t)
  unfolding insert_rows insert_row
  All-insert_rows P [] t hr ht = ht
  All-insert_rows P (r ∷ rs) t hr ht = elim (Bool-cases (contains key (key r) t)) [
    | inl old ↦ rw old (All-insert_rows P rs t hr.1 ht)
    | inr fresh ↦
        rw fresh (All-insert_rows P rs (t ++ r ∷ []) hr.1 (All-append P t _ ht (hr.0, tt)))
  ]

  pub length-insert_row :
      (r : R) (t : List R)
      → length (insert_row key r t) ≡ length t + (if contains key (key r) t then 0 else 1)
  unfolding insert_row
  length-insert_row r t = ground (arith, length-append t (r ∷ []))

  -- Primary keys: no two rows share one.
  abbrev pub IsKeyed : List R → Type 0
  IsKeyed [] = Unit
  IsKeyed (r ∷ t) = (find key (key r) t ≡ none) × IsKeyed t

  IsKeyed-snoc :
      (t : List R) (r : R) → IsKeyed t → find key (key r) t ≡ none → IsKeyed (t ++ r ∷ [])
  unfolding find
  IsKeyed-snoc [] r h f = (refl, tt)
  IsKeyed-snoc (x ∷ t) r h f = (
    ground (arith, find-append (key x) t (r ∷ []), =?_iff (key x) (key r), =?_iff (key r) (key x)),
    IsKeyed-snoc t r h.1 (ground arith),
  )

  pub insert_rows-IsKeyed : (rs t : List R) → IsKeyed t → IsKeyed (insert_rows key rs t)
  unfolding insert_rows insert_row
  insert_rows-IsKeyed [] t h = h
  insert_rows-IsKeyed (r ∷ rs) t h = elim (Option-cases (find key (key r) t)) [
    | inl fresh ↦ rw fresh (insert_rows-IsKeyed rs (t ++ r ∷ []) (IsKeyed-snoc t r h fresh))
    | inr (old, stored) ↦ rw stored (insert_rows-IsKeyed rs t h)
  ]
