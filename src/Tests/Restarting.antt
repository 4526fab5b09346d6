-- ===== src/Tests/Restarting.antt =====
-- The theorems on a restarted resolver, where a key is its own text.
use solana_realtime_indexer.Prelude.{
  ℕ, ◌+◌, ◌≡◌, ◌≢◌, refl, String, List, [], ◌∷◌, ◌=?◌, if◌then◌else◌, none, some, get, insert,
  length, arith, true, false, =?_iff, string_eq,
}
use solana_realtime_indexer.Db.Pools.{write_pool}
use solana_realtime_indexer.Db.Result.{served, dropped}
use solana_realtime_indexer.Db.Schema.{StoredPool, Db}
use solana_realtime_indexer.Metrics.{zeroed}
use solana_realtime_indexer.Pools.{PoolInfo}
use solana_realtime_indexer.Pools.Resolver.{
  Shared, Fetched, account, stored, save, save_if_db, insert_pool, prime_rows, prime,
}
use solana_realtime_indexer.Pools.Restart.{insert_pool-prime}
use solana_realtime_indexer.Pools.Turns.{Agrees}
use solana_realtime_indexer.Pools.Turns.Primed.{Reread, run_turns-Reread}
use solana_realtime_indexer.Pools.Worker.{
  Lookups, Turn, ask, create, created, receive, answer, stored_answer, run_turns,
}
use solana_realtime_indexer.Tests.{empty_db}

-- A pool that is in the table already, without decimals.
abbrev old_pool : StoredPool
old_pool = record {
  pool = "old";
  base_mint = "token";
  quote_mint = "wsol";
  base_decimals = none;
  quote_decimals = none;
}

abbrev seeded : Db ℕ
seeded = record empty_db { pools = old_pool ∷ [] }

abbrev resolver : Shared String ℕ
resolver = record { cache = []; requests = []; db = some seeded; metrics = zeroed }

abbrev created_info : PoolInfo String
created_info = record {
  base_mint = "coin";
  quote_mint = "wsol";
  base_decimals = some 6;
  quote_decimals = some 9;
}

abbrev saved : Shared String ℕ
saved = record resolver {
  cache = insert "new" created_info [];
  db = some (write_pool (stored (λ k. k) "new" created_info) seeded);
}

created-saved : insert_pool (λ k. k) served "new" created_info resolver ≡ some saved
unfolding insert_pool save_if_db save
created-saved = refl

seeded_read : (prime_rows {P = String} (λ k. some k) seeded.pools []).0 ≡ true
unfolding prime_rows
seeded_read = refl

refuted : false ≢ true
refuted h = cc

insert_pool-prime_example :
    let (loaded, fresh) = prime (λ k. some k) true (record saved { cache = [] }) in
    (loaded ≡ some (length seeded.pools + 1))
    × (get "new" fresh.cache ≡ get "new" saved.cache)
    × ((other : String)
        → other ≢ "new"
        → get other fresh.cache
          ≡ get other (prime_rows {P = String} (λ k. some k) seeded.pools []).1)
insert_pool-prime_example =
    insert_pool-prime (λ k. some k) (λ k. k) "new" created_info resolver saved seeded (λ k. refl)
      (omega arith) (omega arith) refl ((λ e. refuted ((=?_iff "old" "new").1 e)), tt) seeded_read
      created-saved

-- The mints that the pools have on the chain.
abbrev chain : String → String × String
chain pool = if pool =? "old" then ("token", "wsol") else ("coin", "wsol")

abbrev node : String → Fetched String
node pool = account (chain pool).0 (chain pool).1

-- The old pool is in the cache too.
abbrev running : Lookups String ℕ
running = record {
  shared = record resolver {
    cache =
        (
          "old",
          record {
            base_mint = "token";
            quote_mint = "wsol";
            base_decimals = none;
            quote_decimals = none;
          },
        )
        ∷ [];
  };
  awaited = none;
  creating = none;
  storing = none;
}

-- A lookup is under way when the event that creates the pool comes.
abbrev played : List (Turn String)
played =
    ask true "new"
    ∷ receive
    ∷ create "new" created_info
    ∷ answer node
    ∷ created served
    ∷ stored_answer (dropped true)
    ∷ receive
    ∷ []

running-Agrees : Agrees (λ k. k) chain running
unfolding get
running-Agrees = record {
  db = seeded;
  here = refl;
  entries = running.shared.cache;
  rows = refl;
  small = ((tt, tt), tt);
  true_mints = (refl, tt);
  true_creating = tt;
  true_storing = tt;
  same = λ pool. refl;
}

run_turns-Reread_example :
    Reread (λ k. some k) (λ k. k) chain (λ k. refl) (run_turns (λ k. k) played running)
run_turns-Reread_example =
    run_turns-Reread (λ k. some k) (λ k. k) chain (λ k. refl) played running
      (tt, (tt, ((refl, (omega arith, omega arith)), ((λ pool. refl), (refl, (refl, (tt, tt)))))))
      running-Agrees
