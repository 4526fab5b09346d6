-- ===== src/Writer/Latest.antt =====
-- Which row of a batch `max_by_key` picks (src/writer.rs, `flush`).
use solana_realtime_indexer.Prelude.{
  ◌≡◌, refl, List, [], ◌∷◌, ◌⊎◌, inl, inr, arith, ◌∙◌, ◌≤ℤ◌, All, In,
}
use solana_realtime_indexer.Db.Schema.{PendingWrite}
use solana_realtime_indexer.Writer.Flush.{max_by_slot, later}

module _ {V : Type 0} where
  later-cases : (best r : PendingWrite V) → (later best r ≡ best) ⊎ (later best r ≡ r)
  later-cases best r = ground arith

  later_bounds :
      (best r : PendingWrite V)
      → (best.event.slot ≤ℤ (later best r).event.slot) × (r.event.slot ≤ℤ (later best r).event.slot)
  later_bounds best r = ground arith

  pub max_by_slot-In :
      (best : PendingWrite V) (rs : List (PendingWrite V)) → In (max_by_slot best rs) (best ∷ rs)
  unfolding max_by_slot
  max_by_slot-In best [] = inl refl
  max_by_slot-In best (r ∷ rs) = elim (max_by_slot-In (later best r) rs) [
    | inr m ↦ inr (inr m)
    | inl p ↦ elim (later-cases best r) [ inl q ↦ inl (p ∙ q) | inr q ↦ inr (inl (p ∙ q)) ]
  ]

  first-le-max_by_slot :
      (best : PendingWrite V) (rs : List (PendingWrite V))
      → best.event.slot ≤ℤ (max_by_slot best rs).event.slot
  unfolding max_by_slot
  first-le-max_by_slot best [] = omega arith
  first-le-max_by_slot best (r ∷ rs) =
      omega (arith, first-le-max_by_slot (later best r) rs, later_bounds best r)

  rest-le-max_by_slot :
      (best : PendingWrite V) (rs : List (PendingWrite V))
      → All (λ r. r.event.slot ≤ℤ (max_by_slot best rs).event.slot) rs
  unfolding max_by_slot
  rest-le-max_by_slot best [] = tt
  rest-le-max_by_slot best (r ∷ rs) = (
    omega (arith, first-le-max_by_slot (later best r) rs, later_bounds best r),
    rest-le-max_by_slot (later best r) rs,
  )

  -- No row of the batch has a later slot than the one that is picked.
  pub All-le-max_by_slot :
      (best : PendingWrite V) (rs : List (PendingWrite V))
      → All (λ r. r.event.slot ≤ℤ (max_by_slot best rs).event.slot) (best ∷ rs)
  All-le-max_by_slot best rs = (first-le-max_by_slot best rs, rest-le-max_by_slot best rs)
