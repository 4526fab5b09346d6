-- ===== src/Db/Pools.antt =====
-- `write_pool` and `load_pools` of src/db.rs, on the table `pools`.
use solana_realtime_indexer.Prelude.{List, [], ◌∷◌, or_else, ◌=?◌, string_eq, if◌then◌else◌}
use solana_realtime_indexer.Db.Schema.{StoredPool, Db}

-- COALESCE(pools.x, EXCLUDED.x) for the two columns that ON CONFLICT (pool) updates.
abbrev pub coalesced : StoredPool → StoredPool → StoredPool
coalesced old new = record old {
  base_decimals = or_else old.base_decimals new.base_decimals;
  quote_decimals = or_else old.quote_decimals new.quote_decimals;
}

unfoldable pub upsert_pool : StoredPool → List StoredPool → List StoredPool
upsert_pool new [] = new ∷ []
upsert_pool new (old ∷ rest) =
    if old.pool =? new.pool then coalesced old new ∷ rest else old ∷ upsert_pool new rest

module _ {V : Type 0} where
  unfoldable pub write_pool : StoredPool → Db V → Db V
  unfolding upsert_pool
  write_pool new db = record db { pools = upsert_pool new db.pools }

  abbrev pub load_pools : Db V → List StoredPool
  load_pools db = db.pools
