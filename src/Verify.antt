-- ===== src/Verify.antt =====
-- `report` of src/verify.rs: the events of a capture against the rows of `events`. A `BTreeSet` is
-- a list here, of which only membership is read.
pub mod Report
pub mod Run
pub mod Complete
use solana_realtime_indexer.Prelude.{
  ℕ, List, [], ◌∷◌, Bool, true, false, ◌&&◌, not, Eq, ◌=?◌, if◌then◌else◌, as_u64, ◌%◌, ◌^◌,
}
use solana_realtime_indexer.Identity.{EventId, id_eq}
use solana_realtime_indexer.Db.Schema.{EventRow}

unfoldable pub has : EventId → List EventId → Bool
has x [] = false
has x (y ∷ ys) = if x =? y then true else has x ys

-- `BTreeSet::difference`.
unfoldable pub difference : List EventId → List EventId → List EventId
unfolding has
difference [] ys = []
difference (x ∷ xs) ys = if has x ys then difference xs ys else x ∷ difference xs ys

abbrev pub is_empty : List EventId → Bool
is_empty [] = true
is_empty (_ ∷ _) = false

-- A row as an event, with `as u32` for the ordinal.
abbrev pub row_id : {V : Type 0} → EventRow V → EventId
row_id r = record {
  signature = r.signature;
  absolute_path = r.absolute_path;
  event_ordinal = as_u64 r.event_ordinal % 2 ^ 32;
}

unfoldable pub report : List EventId → List EventId → Bool
unfolding difference
report expected actual =
    is_empty (difference expected actual) && is_empty (difference actual expected)
