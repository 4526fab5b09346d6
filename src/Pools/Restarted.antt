-- ===== src/Pools/Restarted.antt =====
-- The process restarts at any time: what the worker and the processor have left in `pools`, and what
-- `prime` makes of it (src/pools.rs).
use solana_realtime_indexer.Prelude.{
  String, List, [], ◌∷◌, map, true, Option, some, Eq, ◌=?◌, =?_iff, get, insert, or_else, ◌≡◌, refl,
  sym, ap, ◌∙◌, inl, inr, arith, Bool-cases, string_eq,
}
use solana_realtime_indexer.Db.Schema.{StoredPool}
use solana_realtime_indexer.Db.Pools.{upsert_pool}
use solana_realtime_indexer.Pools.{PoolInfo}
use solana_realtime_indexer.Pools.Resolver.{stored, prime_rows}
use solana_realtime_indexer.Pools.Restart.{as_u8-pos}
use solana_realtime_indexer.Pools.Agree.{
  AreTrue, AreSmall, known_in, merge, known_in-insert, known_in-true, or_else-pos,
}

module _ {P : Type 0} (to_string : P → String) where
  abbrev pub rows_of : List (P × PoolInfo P) → List StoredPool
  rows_of entries = map (λ (x : P × PoolInfo P). stored to_string x.0 x.1) entries

module _ {P : Type 0} ⦃e : Eq P⦄ (from_str : String → Option P) (to_string : P → String)
    (inverse : (k : P) → from_str (to_string k) ≡ some k) where
  to_string-same : (j k : P) → to_string j ≡ to_string k → j ≡ k
  to_string-same j k h = some-same (sym (inverse j) ∙ ap from_str h ∙ inverse k)
    where
      some-same : some j ≡ some k → j ≡ k
      some-same s = cc

  to_string-test : (j k : P) → (to_string j =? to_string k) ≡ (j =? k)
  to_string-test j k =
      ground
        (arith, =?_iff j k, =?_iff (to_string j) (to_string k), to_string-same j k, ap to_string)

  -- The upsert on rows that were saved.
  pub upsert-rows_of :
      (k : P) (v : PoolInfo P) (m : List (P × PoolInfo P))
      → upsert_pool (stored to_string k v) (rows_of to_string m) ≡ rows_of to_string (merge k v m)
  unfolding upsert_pool merge
  upsert-rows_of k v [] = refl
  upsert-rows_of k v ((j, u) ∷ m) = elim (Bool-cases (j =? k)) [
    | inl same ↦
        rw
          (
            to_string-test j k,
            same,
            or_else-pos u.base_decimals v.base_decimals,
            or_else-pos u.quote_decimals v.quote_decimals,
          )
          refl
    | inr other ↦
        rw (to_string-test j k, other) (ap (λ l. stored to_string j u ∷ l) (upsert-rows_of k v m))
  ]

  pub insert_all : List (P × PoolInfo P) → List (P × PoolInfo P) → List (P × PoolInfo P)
  insert_all [] cache = cache
  insert_all ((k, v) ∷ m) cache = insert_all m (insert k v cache)

  pub prime-rows_of :
      (m cache : List (P × PoolInfo P))
      → AreSmall m
      → prime_rows from_str (rows_of to_string m) cache ≡ (true, insert_all m cache)
  unfolding prime_rows insert_all
  prime-rows_of [] cache small = refl
  prime-rows_of ((k, v) ∷ m) cache small =
      rw
        (
          inverse k,
          inverse v.base_mint,
          inverse v.quote_mint,
          as_u8-pos v.base_decimals small.0.0,
          as_u8-pos v.quote_decimals small.0.1,
        )
        (prime-rows_of m (insert k v cache) small.1)

  pub known_in-insert_all :
      (truth : P → P × P) (j : P) (m cache : List (P × PoolInfo P))
      → AreTrue truth m
      → known_in j (insert_all m cache) ≡ or_else (known_in j m) (known_in j cache)
  unfolding insert_all get
  known_in-insert_all truth j [] cache h = refl
  known_in-insert_all truth j ((k, v) ∷ m) cache h =
      known_in-insert_all truth j m (insert k v cache) h.1
      ∙ ap (or_else (known_in j m)) (known_in-insert k j v cache)
      ∙ elim (Bool-cases (k =? j)) [
        | inr other ↦ rw other refl
        | inl here ↦ rw here (elim (known_in-true truth j m h.1) [
          | inl new ↦ rw new refl
          | inr old ↦ rw old (ap some (sym (h.0 ∙ ap truth ((=?_iff k j).0 here))))
        ])
      ]
