-- ===== src/Pools/Restart.antt =====
-- What a restarted `PoolResolver` reads back of the pools that were saved (src/pools.rs).
use solana_realtime_indexer.Prelude.{
  ℕ, ◌+◌, ◌<◌, String, List, [], ◌∷◌, ◌++◌, Bool, true, Option, none, some, Eq, ◌=?◌, =?_iff, get,
  insert, get-insert, pos, lt→ltb, length, length-append, ◌≡◌, ◌≢◌, refl, sym, ap, ◌∙◌, inl, inr,
  arith, All, Bool-cases, string_eq, unwrap_or,
}
use mathlib.Core.Option
use solana_realtime_indexer.Db.Schema.{StoredPool, Db}
use solana_realtime_indexer.Db.Pools.{write_pool, upsert_pool}
use solana_realtime_indexer.Db.Result.{served}
use solana_realtime_indexer.Pools.{PoolInfo}
use solana_realtime_indexer.Pools.Resolver.{
  Shared, as_u8, stored, save, save_if_db, insert_pool, read_row, prime_rows, prime,
}

-- `u8` fields.
abbrev pub IsU8 : Option ℕ → Type 0
IsU8 none = Unit
IsU8 (some n) = n < 256

pub as_u8-pos : (o : Option ℕ) → IsU8 o → as_u8 (Option.map pos o) ≡ o
as_u8-pos none small = refl
as_u8-pos (some n) small = rw (lt→ltb n 256 small) refl

upsert_new :
    (new : StoredPool) (rows : List StoredPool)
    → All (λ r. r.pool ≢ new.pool) rows
    → upsert_pool new rows ≡ rows ++ new ∷ []
unfolding upsert_pool
upsert_new new [] other = refl
upsert_new new (r ∷ rows) (other, others) = elim (Bool-cases (r.pool =? new.pool)) [
  | inl same ↦ absurd (other ((=?_iff r.pool new.pool).0 same))
  | inr differs ↦ rw differs (ap (λ l. r ∷ l) (upsert_new new rows others))
]

module _ {K V : Type 0} ⦃e : Eq K⦄ where
  pub get-insert_same : (k : K) (v : V) (m : List (K × V)) → get k (insert k v m) ≡ some v
  get-insert_same k v m = ground (arith, get-insert k k v m, =?_iff k k)

  get-insert_other : (k j : K) (v : V) (m : List (K × V)) → j ≢ k → get j (insert k v m) ≡ get j m
  get-insert_other k j v m differs = ground (arith, get-insert k j v m, =?_iff k j)

module _ {P : Type 0} ⦃e : Eq P⦄ (from_str : String → Option P) (to_string : P → String) where
  read_row-append :
      (pool : P) (info : PoolInfo P) (k base quote : Option P) (r : StoredPool)
      (rest more : List (P × PoolInfo P) → Bool × List (P × PoolInfo P))
      (cache : List (P × PoolInfo P))
      → ((c : List (P × PoolInfo P))
          → (rest c).0 ≡ true
          → more c ≡ (true, insert pool info (rest c).1))
      → (read_row k base quote r rest cache).0 ≡ true
      → read_row k base quote r more cache
        ≡ (true, insert pool info (read_row k base quote r rest cache).1)
  read_row-append pool info none base quote r rest more cache goes complete = ground arith
  read_row-append pool info (some k) none quote r rest more cache goes complete = ground arith
  read_row-append pool info (some k) (some base) none r rest more cache goes complete = ground arith
  read_row-append pool info (some k) (some base) (some quote) r rest more cache goes complete =
      goes _ complete

  -- One more row goes into the cache last, if all before it could be read.
  prime_rows-append :
      (pool : P) (info : PoolInfo P) (rows : List StoredPool) (cache : List (P × PoolInfo P))
      → ((k : P) → from_str (to_string k) ≡ some k)
      → IsU8 info.base_decimals
      → IsU8 info.quote_decimals
      → (prime_rows from_str rows cache).0 ≡ true
      → prime_rows from_str (rows ++ stored to_string pool info ∷ []) cache
        ≡ (true, insert pool info (prime_rows from_str rows cache).1)
  unfolding prime_rows
  prime_rows-append pool info [] cache inverse b q = λ complete.
      rw
        (
          inverse pool,
          inverse info.base_mint,
          inverse info.quote_mint,
          as_u8-pos info.base_decimals b,
          as_u8-pos info.quote_decimals q,
        )
        refl
  prime_rows-append pool info (r ∷ rows) cache inverse b q =
      read_row-append pool info (from_str r.pool) (from_str r.base_mint) (from_str r.quote_mint) r
        (prime_rows from_str rows) (prime_rows from_str (rows ++ stored to_string pool info ∷ []))
        cache (λ c. prime_rows-append pool info rows c inverse b q)

  inserted :
      {V : Type 0} (pool : P) (info : PoolInfo P) (s s' : Shared P V) (db : Db V)
      → s.db ≡ some db
      → insert_pool to_string served pool info s ≡ some s'
      → s' ≡ record s {
        cache = insert pool info s.cache;
        db = some (write_pool (stored to_string pool info) db);
      }
  unfolding insert_pool save_if_db save
  inserted pool info s s' db e ran = ap (unwrap_or s') (
      sym ran
      ∙ ap
          (λ o.
            save_if_db to_string served pool info o (record s { cache = insert pool info s.cache }))
          e)

  -- A pool that the table `pools` does not have is inserted, the statement is answered, and the process
  -- starts again: `prime` on an empty cache, which could read all rows before, reads one row
  -- more, and the fresh cache has for that pool what the running one has, and for any other
  -- pool what it would have had before; given that a key can be read back from its text.
  pub insert_pool-prime :
      {V : Type 0} (pool : P) (info : PoolInfo P) (s s' : Shared P V) (db : Db V)
      → ((k : P) → from_str (to_string k) ≡ some k)
      → IsU8 info.base_decimals
      → IsU8 info.quote_decimals
      → s.db ≡ some db
      → All (λ (r : StoredPool). r.pool ≢ to_string pool) db.pools
      → (prime_rows from_str db.pools []).0 ≡ true
      → insert_pool to_string served pool info s ≡ some s'
      → let (loaded, fresh) = prime from_str true (record s' { cache = [] }) in
        (loaded ≡ some (length db.pools + 1))
        × (get pool fresh.cache ≡ get pool s'.cache)
        × ((other : P)
            → other ≢ pool
            → get other fresh.cache ≡ get other (prime_rows from_str db.pools []).1)
  unfolding prime write_pool
  insert_pool-prime pool info s s' db inverse b q e new complete ran =
      let new_row = stored to_string pool info in
      let before = prime_rows from_str db.pools [] in
      let rows : upsert_pool new_row db.pools ≡ db.pools ++ new_row ∷ [] =
        upsert_new new_row db.pools new in
      let read : prime_rows from_str (upsert_pool new_row db.pools) []
          ≡ (true, insert pool info before.1) =
        ap (λ l. prime_rows from_str l []) rows
        ∙ prime_rows-append pool info db.pools [] inverse b q complete in
      rw (inserted pool info s s' db e ran) (
        rw read (
          ap some (ap length rows ∙ length-append db.pools (new_row ∷ [])),
          get-insert_same pool info before.1 ∙ sym (get-insert_same pool info s.cache),
          λ other differs. get-insert_other pool other info before.1 differs,
        ))
