-- ===== src/Table.antt =====
-- A database table with a primary key, as the list of its rows in the order of insertion.
pub mod Laws
use solana_realtime_indexer.Prelude.{
  Bool, true, false, ℕ, ◌+◌, Option, none, some, List, [], ◌∷◌, ◌++◌, Eq, ◌=?◌, is_some,
  if◌then◌else◌,
}

module _ {ℓ κ} {R : Type ℓ} {K : Type κ} ⦃e : Eq K⦄ (key : R → K) where
  -- The row with this key.
  unfoldable pub find : K → List R → Option R
  find k [] = none
  find k (r ∷ t) = if key r =? k then some r else find k t

  abbrev pub contains : K → List R → Bool
  contains k t = is_some (find k t)

  -- One row of `INSERT ... ON CONFLICT DO NOTHING`.
  unfoldable pub insert_row : R → List R → List R
  insert_row r t = if contains (key r) t then t else t ++ r ∷ []

  -- The rows of one statement, first to last: a later row meets the earlier ones.
  unfoldable pub insert_rows : List R → List R → List R
  insert_rows [] t = t
  insert_rows (r ∷ rs) t = insert_rows rs (insert_row r t)
