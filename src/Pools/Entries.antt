-- ===== src/Pools/Entries.antt =====
-- The pools of a table, and those whose statements are under way (src/pools.rs).
use solana_realtime_indexer.Prelude.{
  List, Bool, true, false, Option, none, some, Eq, ◌=?◌, =?_iff, or_else, ◌≡◌, refl, sym, ap, ◌∙◌,
  if◌then◌else◌,
}
use solana_realtime_indexer.Pools.{PoolInfo}
use solana_realtime_indexer.Pools.Agree.{
  mints, IsSmall, AreTrue, known_in, known_in-merge, merge, merge-AreTrue,
}

module _ {P : Type 0} (truth : P → P × P) where
  -- An entry whose statement is under way.
  abbrev pub IsTrueEntry : Option (P × PoolInfo P) → Type 0
  IsTrueEntry none = Unit
  IsTrueEntry (some (k, v)) = (mints v ≡ truth k) × IsSmall v

module _ {P : Type 0} ⦃e : Eq P⦄ where
  -- The entries once a statement under way has been carried out.
  abbrev pub with_entry : Option (P × PoolInfo P) → List (P × PoolInfo P) → List (P × PoolInfo P)
  with_entry none m = m
  with_entry (some (k, v)) m = merge k v m

  pub with_entry-AreTrue :
      (truth : P → P × P) (o : Option (P × PoolInfo P)) (m : List (P × PoolInfo P))
      → IsTrueEntry truth o
      → AreTrue truth m
      → AreTrue truth (with_entry o m)
  with_entry-AreTrue truth none m t h = h
  with_entry-AreTrue truth (some (k, v)) m t h = merge-AreTrue truth k v m t.0 h

  swap_or :
      (a b : Bool) (x y : P × P) (o : Option (P × P))
      → (a ≡ true → b ≡ true → x ≡ y)
      → or_else (or_else o (if a then some x else none)) (if b then some y else none)
        ≡ or_else (or_else o (if b then some y else none)) (if a then some x else none)
  swap_or true true x y none h = ap some (h refl refl)
  swap_or true false x y none h = refl
  swap_or false true x y none h = refl
  swap_or false false x y none h = refl
  swap_or a b x y (some z) h = refl

  -- The order of two true entries does not matter.
  merge-merge :
      (truth : P → P × P) (p k j : P) (v u : PoolInfo P) (m : List (P × PoolInfo P))
      → mints v ≡ truth k
      → mints u ≡ truth j
      → known_in p (merge k v (merge j u m)) ≡ known_in p (merge j u (merge k v m))
  merge-merge truth p k j v u m t s =
      known_in-merge k p v (merge j u m)
      ∙ ap (λ o. or_else o (if k =? p then some (mints v) else none)) (known_in-merge j p u m)
      ∙ swap_or (j =? p) (k =? p) (mints u) (mints v) (known_in p m)
          (λ a b. s ∙ ap truth ((=?_iff j p).0 a ∙ sym ((=?_iff k p).0 b)) ∙ sym t)
      ∙ sym (
          known_in-merge j p u (merge k v m)
          ∙ ap (λ o. or_else o (if j =? p then some (mints u) else none)) (known_in-merge k p v m))

  pub with_entry-merge :
      (truth : P → P × P) (p k : P) (v : PoolInfo P) (o : Option (P × PoolInfo P))
      (m : List (P × PoolInfo P))
      → mints v ≡ truth k
      → IsTrueEntry truth o
      → known_in p (merge k v (with_entry o m)) ≡ known_in p (with_entry o (merge k v m))
  with_entry-merge truth p k v none m t s = refl
  with_entry-merge truth p k v (some (j, u)) m t s = merge-merge truth p k j v u m t s.0
