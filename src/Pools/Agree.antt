-- ===== src/Pools/Agree.antt =====
-- The pools that a cache has, and those of the rows of `pools`, by their mints (src/pools.rs).
use solana_realtime_indexer.Prelude.{
  ℕ, List, [], ◌∷◌, Bool, true, false, Option, none, some, Eq, ◌=?◌, =?_iff, get, insert,
  get-insert, or_else, pos, ◌≡◌, ◌⊎◌, refl, sym, ap, ◌∙◌, inl, inr, arith, All, Bool-cases,
  string_eq, if◌then◌else◌,
}
use mathlib.Core.Option
use solana_realtime_indexer.Pools.{PoolInfo}
use solana_realtime_indexer.Pools.Restart.{IsU8}

module _ {P : Type 0} where
  abbrev pub mints : PoolInfo P → P × P
  mints info = (info.base_mint, info.quote_mint)

  abbrev pub IsSmall : PoolInfo P → Type 0
  IsSmall info = IsU8 info.base_decimals × IsU8 info.quote_decimals

  -- `truth` has the mints that each pool has on the chain.
  abbrev pub AreTrue : (P → P × P) → List (P × PoolInfo P) → Type 0
  AreTrue truth entries = All (λ (x : P × PoolInfo P). mints x.1 ≡ truth x.0) entries

  -- What the upsert keeps of the row that is there.
  abbrev merged : PoolInfo P → PoolInfo P → PoolInfo P
  merged old new = record old {
    base_decimals = or_else old.base_decimals new.base_decimals;
    quote_decimals = or_else old.quote_decimals new.quote_decimals;
  }

or_else-IsU8 : (a b : Option ℕ) → IsU8 a → IsU8 b → IsU8 (or_else a b)
or_else-IsU8 none b x y = y
or_else-IsU8 (some n) b x y = x

pub or_else-pos :
    (a b : Option ℕ) → or_else (Option.map pos a) (Option.map pos b) ≡ Option.map pos (or_else a b)
or_else-pos none b = refl
or_else-pos (some n) b = refl

module _ {P : Type 0} ⦃e : Eq P⦄ where
  -- The mints of a pool, if it is there.
  abbrev pub known_in : P → List (P × PoolInfo P) → Option (P × P)
  known_in pool cache = Option.map mints (get pool cache)

  unfoldable pub merge : P → PoolInfo P → List (P × PoolInfo P) → List (P × PoolInfo P)
  merge k v [] = (k, v) ∷ []
  merge k v ((j, u) ∷ m) = if j =? k then (j, merged u v) ∷ m else (j, u) ∷ merge k v m

  map-if :
      (b : Bool) (v : PoolInfo P) (o : Option (PoolInfo P))
      → Option.map mints (if b then some v else o)
        ≡ (if b then some (mints v) else Option.map mints o)
  map-if true v o = refl
  map-if false v o = refl

  pub known_in-insert :
      (k j : P) (v : PoolInfo P) (m : List (P × PoolInfo P))
      → known_in j (insert k v m) ≡ (if k =? j then some (mints v) else known_in j m)
  known_in-insert k j v m = ap (Option.map mints) (get-insert k j v m) ∙ map-if (k =? j) v (get j m)

  known_in-cons :
      (k j : P) (v : PoolInfo P) (m : List (P × PoolInfo P))
      → known_in j ((k, v) ∷ m) ≡ (if k =? j then some (mints v) else known_in j m)
  unfolding get
  known_in-cons k j v m = map-if (k =? j) v (get j m)

  or_if :
      (b c : Bool) (x : P × P) (o : Option (P × P))
      → or_else (if b then some x else o) (if c then some x else none)
        ≡ (if b then some x else or_else o (if c then some x else none))
  or_if true c x o = refl
  or_if false c x o = refl

  pub known_in-merge :
      (k j : P) (v : PoolInfo P) (m : List (P × PoolInfo P))
      → known_in j (merge k v m) ≡ or_else (known_in j m) (if k =? j then some (mints v) else none)
  unfolding merge get
  known_in-merge k j v [] = known_in-cons k j v []
  known_in-merge k j v ((i, u) ∷ m) = elim (Bool-cases (i =? k)) [
    | inl same ↦ elim (Bool-cases (i =? j)) [
      | inl here ↦ rw (same, here) refl
      | inr there ↦ rw (same, there) (ground (arith, =?_iff i k, =?_iff i j, =?_iff k j))
    ]
    | inr other ↦ elim (Bool-cases (i =? j)) [
      | inl here ↦ rw (other, here) refl
      | inr there ↦ rw (other, there) (known_in-merge k j v m)
    ]
  ]

  -- A pool that is there has its mints.
  pub known_in-true :
      (truth : P → P × P) (j : P) (m : List (P × PoolInfo P))
      → AreTrue truth m
      → (known_in j m ≡ none) ⊎ (known_in j m ≡ some (truth j))
  unfolding get
  known_in-true truth j [] h = inl refl
  known_in-true truth j ((k, v) ∷ m) h = elim (Bool-cases (k =? j)) [
    | inl here ↦ inr (rw here (ap some (h.0 ∙ ap truth ((=?_iff k j).0 here))))
    | inr there ↦ rw there (known_in-true truth j m h.1)
  ]

  pub merge-AreTrue :
      (truth : P → P × P) (k : P) (v : PoolInfo P) (m : List (P × PoolInfo P))
      → mints v ≡ truth k
      → AreTrue truth m
      → AreTrue truth (merge k v m)
  unfolding merge
  merge-AreTrue truth k v [] t h = (t, tt)
  merge-AreTrue truth k v ((j, u) ∷ m) t h = elim (Bool-cases (j =? k)) [
    | inl same ↦ rw same h
    | inr other ↦ rw other (h.0, merge-AreTrue truth k v m t h.1)
  ]

  abbrev pub AreSmall : List (P × PoolInfo P) → Type 0
  AreSmall entries = All (λ (x : P × PoolInfo P). IsSmall x.1) entries

  pub merge-AreSmall :
      (k : P) (v : PoolInfo P) (m : List (P × PoolInfo P))
      → IsSmall v
      → AreSmall m
      → AreSmall (merge k v m)
  unfolding merge
  merge-AreSmall k v [] t h = (t, tt)
  merge-AreSmall k v ((j, u) ∷ m) t h = elim (Bool-cases (j =? k)) [
    | inl same ↦ rw same (
      (
        or_else-IsU8 u.base_decimals v.base_decimals h.0.0 t.0,
        or_else-IsU8 u.quote_decimals v.quote_decimals h.0.1 t.1,
      ),
      h.1,
    )
    | inr other ↦ rw other (h.0, merge-AreSmall k v m t h.1)
  ]

  -- A cache that takes the pool and a table that keeps the row it has agree on its mints.
  pub insert-merge :
      (truth : P → P × P) (k j : P) (v : PoolInfo P) (cache m : List (P × PoolInfo P))
      → mints v ≡ truth k
      → AreTrue truth m
      → known_in j cache ≡ known_in j m
      → known_in j (insert k v cache) ≡ known_in j (merge k v m)
  insert-merge truth k j v cache m t h same =
      known_in-insert k j v cache ∙ elim (Bool-cases (k =? j)) [
        | inr other ↦ rw other (same ∙ sym (or_none (known_in j m)) ∙ sym (merged_other other))
        | inl here ↦ rw here (elim (known_in-true truth j m h) [
          | inl new ↦ sym (known_in-merge k j v m ∙ rw (new, here) refl)
          | inr old ↦
              ap some (t ∙ ap truth ((=?_iff k j).0 here))
              ∙ sym (known_in-merge k j v m ∙ rw old refl)
        ])
      ]
    where
      or_none : (o : Option (P × P)) → or_else o none ≡ o
      or_none none = refl
      or_none (some x) = refl

      merged_other : (k =? j) ≡ false → known_in j (merge k v m) ≡ or_else (known_in j m) none
      merged_other other = known_in-merge k j v m ∙ rw other refl
