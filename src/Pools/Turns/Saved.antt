-- ===== src/Pools/Turns/Saved.antt =====
-- A turn of the worker task or of the processor keeps what the cache and the table agree on
-- (src/pools.rs).
use solana_realtime_indexer.Prelude.{
  String, List, [], ◌∷◌, true, false, Option, none, some, Eq, ◌≡◌, refl, sym, ap, ◌∙◌, subst, All,
}
use mathlib.Core.Option
use solana_realtime_indexer.Db.Schema.{Db}
use solana_realtime_indexer.Db.Pools.{upsert_pool, write_pool}
use solana_realtime_indexer.Db.Result.{Reply, served, dropped, silent}
use solana_realtime_indexer.Metrics.{Metrics, inc}
use solana_realtime_indexer.Pools.{PoolInfo}
use solana_realtime_indexer.Pools.Resolver.{Shared, stored, save, save_if_db}
use solana_realtime_indexer.Pools.Agree.{known_in, merge, merge-AreTrue, merge-AreSmall}
use solana_realtime_indexer.Pools.Restarted.{rows_of, upsert-rows_of}
use solana_realtime_indexer.Pools.Worker.{
  Lookups, Turn, ask, create, created, receive, answer, stored_answer, saved, processor_saved,
  worker_saved, then_turn, turn, run_turns,
}
use solana_realtime_indexer.Pools.Turns.{
  lands, false-true, IsTrueTurn, Agrees, AgreesAfter, waiting-Agrees, request-Agrees, create-Agrees,
  received-Agrees, answered-Agrees,
}
use solana_realtime_indexer.Pools.Entries.{IsTrueEntry, with_entry, with_entry-merge}

module _ {P V : Type 0} ⦃e : Eq P⦄ (from_str : String → Option P) (to_string : P → String)
    (truth : P → P × P) (inverse : (k : P) → from_str (to_string k) ≡ some k) where
  -- The shared state once a statement was carried out.
  abbrev landed : P → PoolInfo P → Db V → Metrics → Shared P V → Shared P V
  landed k v db m s = record s { db = some (write_pool (stored to_string k v) db); metrics = m }

  saved-landed :
      (reply : Reply) (k : P) (v : PoolInfo P) (s : Shared P V) (db : Db V)
      → lands reply ≡ true
      → s.db ≡ some db
      → (m : Metrics) × (saved to_string reply (k, v) s ≡ some (landed k v db m s))
  unfolding save_if_db save
  saved-landed served k v s db l here = (s.metrics, rw here refl)
  saved-landed (dropped true) k v s db l here =
      (record s.metrics { db_write_errors = inc s.metrics.db_write_errors }, rw here refl)
  saved-landed (dropped false) k v s db l here = absurd (false-true l)
  saved-landed (silent _) k v s db l here = absurd (false-true l)

  rows-write_pool :
      (k : P) (v : PoolInfo P) (l : Lookups P V) (a : Agrees to_string truth l)
      → (write_pool (stored to_string k v) a.db).pools ≡ rows_of to_string (merge k v a.entries)
  unfolding write_pool
  rows-write_pool k v l a =
      ap (upsert_pool (stored to_string k v)) a.rows
      ∙ upsert-rows_of from_str to_string inverse k v a.entries

  created-Agrees :
      (k : P) (v : PoolInfo P) (l : Lookups P V) (m : Metrics) (a : Agrees to_string truth l)
      → l.creating ≡ some (k, v)
      → Agrees to_string truth (record l { shared = landed k v a.db m l.shared; creating = none })
  created-Agrees k v l m a under_way =
      let (t, small) : IsTrueEntry truth (some (k, v)) =
        subst (IsTrueEntry truth) under_way a.true_creating in
      record {
        db = write_pool (stored to_string k v) a.db;
        here = refl;
        entries = merge k v a.entries;
        rows = rows-write_pool k v l a;
        small = merge-AreSmall k v a.entries small a.small;
        true_mints = merge-AreTrue truth k v a.entries t a.true_mints;
        true_creating = tt;
        true_storing = a.true_storing;
        same = λ pool.
            a.same pool
            ∙ ap (λ o. known_in pool (with_entry o (with_entry l.storing a.entries))) under_way
            ∙ with_entry-merge truth pool k v l.storing a.entries t a.true_storing;
      }

  stored-Agrees :
      (k : P) (v : PoolInfo P) (l : Lookups P V) (m : Metrics) (a : Agrees to_string truth l)
      → l.storing ≡ some (k, v)
      → Agrees to_string truth (record l { shared = landed k v a.db m l.shared; storing = none })
  stored-Agrees k v l m a under_way =
      let (t, small) : IsTrueEntry truth (some (k, v)) =
        subst (IsTrueEntry truth) under_way a.true_storing in
      record {
        db = write_pool (stored to_string k v) a.db;
        here = refl;
        entries = merge k v a.entries;
        rows = rows-write_pool k v l a;
        small = merge-AreSmall k v a.entries small a.small;
        true_mints = merge-AreTrue truth k v a.entries t a.true_mints;
        true_creating = a.true_creating;
        true_storing = tt;
        same = λ pool.
            a.same pool
            ∙ ap (λ o. known_in pool (with_entry l.creating (with_entry o a.entries))) under_way;
      }

  processor_saved-Agrees :
      (reply : Reply) (o : Option (P × PoolInfo P)) (l : Lookups P V)
      → lands reply ≡ true
      → l.creating ≡ o
      → Agrees to_string truth l
      → AgreesAfter to_string truth (processor_saved to_string reply o l)
  processor_saved-Agrees reply none l done under_way a = a
  processor_saved-Agrees reply (some (k, v)) l done under_way a =
      let (m, same) = saved-landed reply k v l.shared a.db done a.here in
      subst
        (λ o.
          AgreesAfter to_string truth
            (Option.map (λ s. record l { shared = s; creating = none }) o))
        (sym same) (created-Agrees k v l m a under_way)

  worker_saved-Agrees :
      (reply : Reply) (o : Option (P × PoolInfo P)) (l : Lookups P V)
      → lands reply ≡ true
      → l.storing ≡ o
      → Agrees to_string truth l
      → AgreesAfter to_string truth (worker_saved to_string reply o l)
  worker_saved-Agrees reply none l done under_way a = a
  worker_saved-Agrees reply (some (k, v)) l done under_way a =
      let (m, same) = saved-landed reply k v l.shared a.db done a.here in
      subst
        (λ o.
          AgreesAfter to_string truth (Option.map (λ s. record l { shared = s; storing = none }) o))
        (sym same) (stored-Agrees k v l m a under_way)

  turn-Agrees :
      (t : Turn P) (l : Lookups P V)
      → IsTrueTurn truth t
      → Agrees to_string truth l
      → AgreesAfter to_string truth (turn to_string t l)
  unfolding turn
  turn-Agrees (ask taken pool) l h a =
      waiting-Agrees to_string truth l.creating l _ a
        (λ _. request-Agrees to_string truth taken pool l a)
  turn-Agrees (create pool info) l (t, small) a =
      waiting-Agrees to_string truth l.creating l _ a
        (λ free. create-Agrees to_string truth pool info l t small free a)
  turn-Agrees (created reply) l done a = processor_saved-Agrees reply l.creating l done refl a
  turn-Agrees receive l h a =
      waiting-Agrees to_string truth l.storing l _ a
        (λ _. received-Agrees to_string truth l.awaited l a)
  turn-Agrees (answer node) l t a =
      waiting-Agrees to_string truth l.storing l _ a
        (λ free. answered-Agrees to_string truth l.awaited node l t free a)
  turn-Agrees (stored_answer reply) l done a = worker_saved-Agrees reply l.storing l done refl a

  then-Agrees :
      (o : Option (Lookups P V)) (rest : Lookups P V → Option (Lookups P V))
      → AgreesAfter to_string truth o
      → ((l : Lookups P V) → Agrees to_string truth l → AgreesAfter to_string truth (rest l))
      → AgreesAfter to_string truth (then_turn o rest)
  then-Agrees none rest a f = a
  then-Agrees (some l) rest a f = f l a

  pub run_turns-Agrees :
      (ts : List (Turn P)) (l : Lookups P V)
      → All (IsTrueTurn truth) ts
      → Agrees to_string truth l
      → AgreesAfter to_string truth (run_turns to_string ts l)
  unfolding run_turns
  run_turns-Agrees [] l h a = a
  run_turns-Agrees (t ∷ ts) l h a =
      then-Agrees (turn to_string t l) (run_turns to_string ts) (turn-Agrees t l h.0 a)
        (λ l' a'. run_turns-Agrees ts l' h.1 a')
