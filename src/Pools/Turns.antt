-- ===== src/Pools/Turns.antt =====
-- What any turns of the worker task and of the processor that has the resolver keep up between the
-- cache and the table (src/pools.rs).
pub mod Saved
pub mod Primed
use solana_realtime_indexer.Prelude.{
  ℕ, String, List, [], ◌∷◌, Bool, true, false, Option, none, some, Eq, ◌=?◌, =?_iff, get, insert,
  or_else, ◌≡◌, ◌≢◌, refl, sym, ap, ◌∙◌, subst, arith, Option-cases, Bool-cases, inl, inr,
  if◌then◌else◌, is_some,
}
use mathlib.Core.Option
use solana_realtime_indexer.Db.Schema.{Db}
use solana_realtime_indexer.Db.Pools.{upsert_pool, write_pool}
use solana_realtime_indexer.Db.Result.{Reply, served, dropped, silent}
use solana_realtime_indexer.Metrics.{Metrics}
use solana_realtime_indexer.Pools.{PoolInfo}
use solana_realtime_indexer.Pools.Resolver.{
  Shared, Fetched, account, undecodable, unreachable, stored, save, save_if_db, request,
  lookup_begins,
}
use solana_realtime_indexer.Pools.Agree.{
  mints, IsSmall, AreTrue, AreSmall, known_in, known_in-merge, merge, merge-AreTrue, merge-AreSmall,
  insert-merge,
}
use solana_realtime_indexer.Pools.Restarted.{rows_of, upsert-rows_of}
use solana_realtime_indexer.Pools.Worker.{
  Lookups, Turn, ask, create, created, receive, answer, stored_answer, cached, worker_begins,
  worker_goes_on, received, answered, unless_waiting, saved, processor_saved, worker_saved, turn,
}
use solana_realtime_indexer.Pools.Entries.{
  IsTrueEntry, with_entry, with_entry-AreTrue, with_entry-merge,
}

-- The server carries out the statement.
abbrev pub lands : Reply → Bool
lands served = true
lands (dropped executed) = executed
lands (silent _) = false

pub false-true : false ≢ true
false-true h = cc

module _ {P : Type 0} (truth : P → P × P) where
  -- What the node says of a pool is what the chain has.
  abbrev pub IsTrueAnswer : P → Fetched P → Type 0
  IsTrueAnswer pool (account base_mint quote_mint) = (base_mint, quote_mint) ≡ truth pool
  IsTrueAnswer pool undecodable = Unit
  IsTrueAnswer pool unreachable = Unit

  -- A statement is carried out, and a pool has the mints of the chain.
  abbrev pub IsTrueTurn : Turn P → Type 0
  IsTrueTurn (ask taken pool) = Unit
  IsTrueTurn (create pool info) = (mints info ≡ truth pool) × IsSmall info
  IsTrueTurn (created reply) = lands reply ≡ true
  IsTrueTurn receive = Unit
  IsTrueTurn (answer node) = (pool : P) → IsTrueAnswer pool (node pool)
  IsTrueTurn (stored_answer reply) = lands reply ≡ true

module _ {P V : Type 0} ⦃e : Eq P⦄ (to_string : P → String) (truth : P → P × P) where
  -- The rows of `pools` are rows that were saved, with the mints of the chain, and the cache has the
  -- same pools with the same mints, and those whose statements are under way.
  pub record Agrees (l : Lookups P V) : Type 0 where
    pub db : Db V
    pub here : l.shared.db ≡ some db
    pub entries : List (P × PoolInfo P)
    pub rows : db.pools ≡ rows_of to_string entries
    pub small : AreSmall entries
    pub true_mints : AreTrue truth entries
    pub true_creating : IsTrueEntry truth l.creating
    pub true_storing : IsTrueEntry truth l.storing
    pub same :
        (pool : P)
        → known_in pool l.shared.cache
          ≡ known_in pool (with_entry l.creating (with_entry l.storing entries))

  abbrev pub AgreesAfter : Option (Lookups P V) → Type 0
  AgreesAfter none = ⊥
  AgreesAfter (some l) = Agrees l

  -- A turn that leaves the table, the cache and the statements alone.
  same-Agrees :
      (l l' : Lookups P V)
      → l'.shared.db ≡ l.shared.db
      → l'.shared.cache ≡ l.shared.cache
      → l'.creating ≡ l.creating
      → l'.storing ≡ l.storing
      → Agrees l
      → Agrees l'
  same-Agrees l l' d c p q a = record {
    db = a.db;
    here = d ∙ a.here;
    entries = a.entries;
    rows = a.rows;
    small = a.small;
    true_mints = a.true_mints;
    true_creating = subst (IsTrueEntry truth) (sym p) a.true_creating;
    true_storing = subst (IsTrueEntry truth) (sym q) a.true_storing;
    same = λ pool.
        ap (known_in pool) c
        ∙ a.same pool
        ∙ ap (λ o. known_in pool (with_entry o (with_entry l.storing a.entries))) (sym p)
        ∙ ap (λ o. known_in pool (with_entry l'.creating (with_entry o a.entries))) (sym q);
  }

  pub waiting-Agrees :
      (o : Option (P × PoolInfo P)) (l next : Lookups P V)
      → Agrees l
      → (o ≡ none → Agrees next)
      → Agrees (unless_waiting o l next)
  waiting-Agrees none l next a h = h refl
  waiting-Agrees (some _) l next a h = a

  pub request-Agrees :
      (taken : Bool) (pool : P) (l : Lookups P V)
      → Agrees l
      → Agrees (record l { shared = request taken pool l.shared })
  unfolding request
  request-Agrees true pool l a = same-Agrees l _ refl refl refl refl a
  request-Agrees false pool l a = same-Agrees l _ refl refl refl refl a

  begins-Agrees :
      (requests : List P) (l : Lookups P V) → Agrees l → Agrees (worker_begins requests l)
  unfolding lookup_begins
  begins-Agrees [] l a = a
  begins-Agrees (pool ∷ rest) l a = elim (Option-cases (get pool l.shared.cache)) [
    | inl new ↦ rw new (same-Agrees l _ refl refl refl refl a)
    | inr (info, old) ↦ rw old (same-Agrees l _ refl refl refl refl a)
  ]

  -- The cache takes a pool, and its statement is on the way.
  pub create-Agrees :
      (k : P) (v : PoolInfo P) (l : Lookups P V)
      → mints v ≡ truth k
      → IsSmall v
      → l.creating ≡ none
      → Agrees l
      → Agrees (record l { shared = cached k v l.shared; creating = some (k, v) })
  create-Agrees k v l t small free a = record {
    db = a.db;
    here = a.here;
    entries = a.entries;
    rows = a.rows;
    small = a.small;
    true_mints = a.true_mints;
    true_creating = (t, small);
    true_storing = a.true_storing;
    same = λ pool.
        insert-merge truth k pool v l.shared.cache (with_entry l.storing a.entries) t
          (with_entry-AreTrue truth l.storing a.entries a.true_storing a.true_mints)
          (a.same pool
            ∙ ap (λ o. known_in pool (with_entry o (with_entry l.storing a.entries))) free);
  }

  store-Agrees :
      (k : P) (v : PoolInfo P) (l : Lookups P V)
      → mints v ≡ truth k
      → IsSmall v
      → l.storing ≡ none
      → Agrees l
      → Agrees (record l { shared = cached k v l.shared; awaited = none; storing = some (k, v) })
  store-Agrees k v l t small free a = record {
    db = a.db;
    here = a.here;
    entries = a.entries;
    rows = a.rows;
    small = a.small;
    true_mints = a.true_mints;
    true_creating = a.true_creating;
    true_storing = (t, small);
    same = λ pool.
        insert-merge truth k pool v l.shared.cache (with_entry l.creating a.entries) t
          (with_entry-AreTrue truth l.creating a.entries a.true_creating a.true_mints)
          (a.same pool
            ∙ ap (λ o. known_in pool (with_entry l.creating (with_entry o a.entries))) free)
        ∙ with_entry-merge truth pool k v l.creating a.entries t a.true_creating;
  }

  goes_on-Agrees :
      (k : P) (fetched : Fetched P) (l : Lookups P V)
      → IsTrueAnswer truth k fetched
      → l.storing ≡ none
      → Agrees l
      → Agrees (worker_goes_on k fetched l)
  goes_on-Agrees k (account b q) l t free a = store-Agrees k _ l t (tt, tt) free a
  goes_on-Agrees k undecodable l t free a = same-Agrees l _ refl refl refl refl a
  goes_on-Agrees k unreachable l t free a = same-Agrees l _ refl refl refl refl a

  pub received-Agrees : (o : Option P) (l : Lookups P V) → Agrees l → Agrees (received o l)
  received-Agrees none l a = begins-Agrees l.shared.requests l a
  received-Agrees (some pool) l a = a

  pub answered-Agrees :
      (o : Option P) (node : P → Fetched P) (l : Lookups P V)
      → ((pool : P) → IsTrueAnswer truth pool (node pool))
      → l.storing ≡ none
      → Agrees l
      → Agrees (answered o node l)
  answered-Agrees none node l t free a = a
  answered-Agrees (some pool) node l t free a = goes_on-Agrees pool (node pool) l (t pool) free a
