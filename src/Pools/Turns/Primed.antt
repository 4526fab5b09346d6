-- ===== src/Pools/Turns/Primed.antt =====
-- What `prime` reads after any turns of the worker task and of the processor (src/pools.rs).
use solana_realtime_indexer.Prelude.{
  String, List, [], true, Option, none, some, Eq, ◌=?◌, =?_iff, get, or_else, ◌≡◌, ◌⊎◌, refl, sym,
  ap, ◌∙◌, arith, All, is_some, length, inl, inr, Bool-cases,
}
use solana_realtime_indexer.Db.Schema.{Db}
use solana_realtime_indexer.Pools.{PoolInfo}
use solana_realtime_indexer.Pools.Resolver.{Shared, prime_rows, prime}
use solana_realtime_indexer.Pools.Agree.{known_in, known_in-merge}
use solana_realtime_indexer.Pools.Restarted.{insert_all, prime-rows_of, known_in-insert_all}
use solana_realtime_indexer.Pools.Worker.{Lookups, Turn, run_turns}
use solana_realtime_indexer.Pools.Turns.{IsTrueTurn, Agrees, AgreesAfter}
use solana_realtime_indexer.Pools.Entries.{with_entry}
use solana_realtime_indexer.Pools.Turns.Saved.{run_turns-Agrees}

or_none : {A : Type 0} (o : Option A) → or_else o none ≡ o
or_none none = refl
or_none (some x) = refl

module _ {P : Type 0} ⦃e : Eq P⦄ where
  -- The statement of a pool is under way.
  abbrev pub IsOf : P → Option (P × PoolInfo P) → Type 0
  IsOf pool none = ⊥
  IsOf pool (some (k, v)) = k ≡ pool

  without_entry :
      (pool : P) (o : Option (P × PoolInfo P)) (m : List (P × PoolInfo P))
      → (known_in pool m ≡ known_in pool (with_entry o m)) ⊎ IsOf pool o
  without_entry pool none m = inl refl
  without_entry pool (some (k, v)) m = elim (Bool-cases (k =? pool)) [
    | inl here ↦ inr ((=?_iff k pool).0 here)
    | inr other ↦ inl (sym (known_in-merge k pool v m ∙ rw other (or_none (known_in pool m))))
  ]

module _ {P V : Type 0} ⦃e : Eq P⦄ (from_str : String → Option P) (to_string : P → String)
    (truth : P → P × P) (inverse : (k : P) → from_str (to_string k) ≡ some k) where
  -- A process that starts on these tables reads every row, and knows a pool by the mints that the one
  -- which has written them has for it, or not at all as that one; but for a pool whose statement
  -- is under way, which may be missing.
  abbrev pub IsReread : Lookups P V → Type 0
  IsReread l =
      let (loaded, fresh) = prime from_str true (record l.shared { cache = [] }) in
      (is_some loaded ≡ true)
      × ((pool : P)
          → (known_in pool fresh.cache ≡ known_in pool l.shared.cache)
            ⊎ IsOf pool l.creating
            ⊎ IsOf pool l.storing)

  prime_all :
      (s : Shared P V) (db : Db V) (cache : List (P × PoolInfo P))
      → s.db ≡ some db
      → prime_rows from_str db.pools s.cache ≡ (true, cache)
      → prime from_str true s ≡ (some (length db.pools), record s { cache = cache })
  unfolding prime
  prime_all s db cache here read = ground arith

  Agrees-IsReread : (l : Lookups P V) → Agrees to_string truth l → IsReread l
  unfolding get
  Agrees-IsReread l a =
      let cache = insert_all from_str to_string inverse a.entries [] in
      let read : prime_rows from_str a.db.pools [] ≡ (true, cache) =
        ap (λ l. prime_rows from_str l []) a.rows
        ∙ prime-rows_of from_str to_string inverse a.entries [] a.small in
      rw (prime_all (record l.shared { cache = [] }) a.db cache a.here read) (
        refl,
        λ pool.
            let fresh : known_in pool cache ≡ known_in pool a.entries =
              known_in-insert_all from_str to_string inverse truth pool a.entries [] a.true_mints
              ∙ or_none (known_in pool a.entries) in
            elim (without_entry pool l.storing a.entries) [
              | inr stores ↦ inr (inr stores)
              | inl first ↦ elim (without_entry pool l.creating (with_entry l.storing a.entries)) [
                | inr creates ↦ inr (inl creates)
                | inl second ↦ inl (fresh ∙ first ∙ second ∙ sym (a.same pool))
              ]
            ],
      )

  abbrev pub Reread : Option (Lookups P V) → Type 0
  Reread none = ⊥
  Reread (some l) = IsReread l

  Reread-after : (o : Option (Lookups P V)) → AgreesAfter to_string truth o → Reread o
  Reread-after none a = a
  Reread-after (some l) a = Agrees-IsReread l a

  -- The worker task and the processor take any turns, in any order: requests, pools of create events,
  -- lookups that are answered, refused or cannot be decoded, and answers to their statements on
  -- `pools`, each of which is carried out (if perhaps unheard); what the node and the events say of
  -- a pool are its mints on the chain. They start with a cache that agrees with the table. Then
  -- they run through, and if the process starts again after any of the turns, `prime` succeeds and
  -- its cache has the same pools with the same mints as the cache of before, so that the two orient
  -- every trade in the same way; only a pool whose statement was still under way may be missing. A
  -- key can be read back from its text.
  pub run_turns-Reread :
      (ts : List (Turn P)) (l : Lookups P V)
      → All (IsTrueTurn truth) ts
      → Agrees to_string truth l
      → Reread (run_turns to_string ts l)
  run_turns-Reread ts l h a =
      Reread-after (run_turns to_string ts l)
        (run_turns-Agrees from_str to_string truth inverse ts l h a)
