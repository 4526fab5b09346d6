-- ===== src/Repair/Build.antt =====
-- What `build` makes of the events that the processors log (src/repair.rs,
-- src/processors/pumpfun.rs, src/processors/pumpswap.rs).
use solana_realtime_indexer.Prelude.{
  ℕ, String, List, Bool, true, false, Option, none, some, Eq, get, ◌≡◌, arith, string_eq,
}
use solana_realtime_indexer.Metrics.{Metrics}
use solana_realtime_indexer.Pools.{PoolInfo, Trade}
use solana_realtime_indexer.Pools.Orient.{orient}
use solana_realtime_indexer.Processors.World.{Meta, event_row}
use solana_realtime_indexer.Processors.PumpSwap.{
  BuyEvent, SellEvent, Party, swap_row, buy_party, sell_party,
}
use solana_realtime_indexer.Repair.{
  Built, built, skipped, no_sol_side, Json, require, u64_field, pubkey_field, build_swap,
  build_sides, build_pumpswap, build,
}

-- The result that the live path would have had with the pool in its cache.
abbrev pub rebuilt : {P : Type 0} → (P → String) → Party P → Option (Trade P) → Built
rebuilt to_string party none = skipped no_sol_side
rebuilt to_string party (some t) = built (swap_row to_string party t)

module _ {P V : Type 0} ⦃e : Eq P⦄ (wsol : P) (to_string : P → String) (json : Json V)
    (new_from_array : List ℕ → P) where
  -- The payload gives back the fields that both kinds of swap have.
  abbrev pub ReadsParty : Party P → V → Type 0
  ReadsParty party v =
      (pubkey_field json new_from_array v "pool" ≡ some party.pool)
      × (pubkey_field json new_from_array v "user" ≡ some party.user)
      × (u64_field json v "protocol_fee" ≡ some party.protocol_fee)

  build_swap-rebuilt :
      (pools : List (String × PoolInfo P)) (info : PoolInfo P) (party : Party P) (v : V)
      (base_amount quote_amount : ℕ) (acquiring_base : Bool) (m : Metrics)
      → get (to_string party.pool) pools ≡ some info
      → u64_field json v "protocol_fee" ≡ some party.protocol_fee
      → (build_swap wsol to_string json new_from_array pools v party.pool party.user base_amount
          quote_amount acquiring_base m).0
        ≡ rebuilt to_string party (orient wsol info base_amount quote_amount acquiring_base m).0
  unfolding build_swap
  build_swap-rebuilt pools info party v b q a m found fee = ground (arith, found, fee)

  build_sides-rebuilt :
      (pools : List (String × PoolInfo P)) (info : PoolInfo P) (party : Party P) (v : V)
      (base_name quote_name : String) (base_amount quote_amount : ℕ) (acquiring_base : Bool)
      (m : Metrics)
      → get (to_string party.pool) pools ≡ some info
      → u64_field json v "protocol_fee" ≡ some party.protocol_fee
      → u64_field json v base_name ≡ some base_amount
      → u64_field json v quote_name ≡ some quote_amount
      → (build_sides wsol to_string json new_from_array pools v party.pool party.user base_name
          quote_name acquiring_base m).0
        ≡ rebuilt to_string party (orient wsol info base_amount quote_amount acquiring_base m).0
  unfolding build_sides require
  build_sides-rebuilt pools info party v bn qn b q a m found fee base quote =
      ground (arith, base, quote, build_swap-rebuilt pools info party v b q a m found fee)

  -- The fields of a buy, as its payload gives them back.
  abbrev pub ReadsBuy : BuyEvent P → V → Type 0
  ReadsBuy t v =
      ReadsParty (buy_party t) v
      × (u64_field json v "base_amount_out" ≡ some t.base_amount_out)
      × (u64_field json v "quote_amount_in" ≡ some t.quote_amount_in)

  abbrev pub ReadsSell : SellEvent P → V → Type 0
  ReadsSell t v =
      ReadsParty (sell_party t) v
      × (u64_field json v "base_amount_in" ≡ some t.base_amount_in)
      × (u64_field json v "quote_amount_out" ≡ some t.quote_amount_out)

  -- A buy whose trade was never written is repaired to the very trade that the live processor
  -- writes when its cache has the pool, or is skipped if neither side is wrapped SOL, where the
  -- payload gives back what was logged and the table has the pool by now.
  pub build-buy :
      (meta : Meta) (t : BuyEvent P) (v : V) (pools : List (String × PoolInfo P))
      (info : PoolInfo P) (m : Metrics)
      → ReadsBuy t v
      → get (to_string t.pool) pools ≡ some info
      → (build wsol to_string json new_from_array pools
          (event_row meta "pumpswap" "BuyEvent" v)
          m).0
        ≡ rebuilt to_string
            (buy_party t)
            (orient wsol info t.base_amount_out t.quote_amount_in true m).0
  unfolding build build_pumpswap require
  build-buy meta t v pools info m reads found =
      rw (reads.0.0, reads.0.1)
        (build_sides-rebuilt pools info (buy_party t) v "base_amount_out" "quote_amount_in"
          t.base_amount_out t.quote_amount_in true m found reads.0.2 reads.1 reads.2)

  -- A sale is repaired in the same way.
  pub build-sell :
      (meta : Meta) (t : SellEvent P) (v : V) (pools : List (String × PoolInfo P))
      (info : PoolInfo P) (m : Metrics)
      → ReadsSell t v
      → get (to_string t.pool) pools ≡ some info
      → (build wsol to_string json new_from_array pools
          (event_row meta "pumpswap" "SellEvent" v)
          m).0
        ≡ rebuilt to_string
            (sell_party t)
            (orient wsol info t.base_amount_in t.quote_amount_out false m).0
  unfolding build build_pumpswap require
  build-sell meta t v pools info m reads found =
      rw (reads.0.0, reads.0.1)
        (build_sides-rebuilt pools info (sell_party t) v "base_amount_in" "quote_amount_out"
          t.base_amount_in t.quote_amount_out false m found reads.0.2 reads.1 reads.2)
