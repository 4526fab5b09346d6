-- ===== src/Pools/Orient.antt =====
-- `PoolInfo::orient` of src/pools.rs.
use solana_realtime_indexer.Prelude.{
  ℕ, Bool, not, Option, none, some, Eq, ◌=?◌, =?_iff, ◌≡◌, ◌≢◌, ◌⊎◌, arith, if◌then◌else◌,
}
use solana_realtime_indexer.Metrics.{Metrics, inc}
use solana_realtime_indexer.Pools.{Trade, PoolInfo}

module _ {P : Type 0} ⦃e : Eq P⦄ (wsol : P) where
  unfoldable pub orient : PoolInfo P → ℕ → ℕ → Bool → Metrics → Option (Trade P) × Metrics
  orient info base_amount quote_amount acquiring_base m =
      if info.quote_mint =? wsol
      then (
        some (record {
          sol_amount = quote_amount;
          token_amount = base_amount;
          token_mint = info.base_mint;
          is_buy = acquiring_base;
        }),
        record m { oriented_normal = inc m.oriented_normal },
      )
      else if info.base_mint =? wsol
      then (
        some (record {
          sol_amount = base_amount;
          token_amount = quote_amount;
          token_mint = info.quote_mint;
          is_buy = not acquiring_base;
        }),
        record m { oriented_inverted = inc m.oriented_inverted },
      )
      else (none, m)

  -- The same pool with its sides exchanged.
  abbrev pub flipped : PoolInfo P → PoolInfo P
  flipped info = record {
    base_mint = info.quote_mint;
    quote_mint = info.base_mint;
    base_decimals = info.quote_decimals;
    quote_decimals = info.base_decimals;
  }

  -- Which vault a pool calls its base does not matter: the pool with its sides exchanged gives the
  -- same trade, if the amounts and the direction are exchanged too, unless both sides are wrapped
  -- SOL.
  orient-flipped :
      (info : PoolInfo P) (base_amount quote_amount : ℕ) (acquiring_base : Bool) (m : Metrics)
      → info.base_mint ≢ info.quote_mint
      → (orient (flipped info) quote_amount base_amount (not acquiring_base) m).0
        ≡ (orient info base_amount quote_amount acquiring_base m).0
  unfolding orient
  orient-flipped info base_amount quote_amount acquiring_base m n =
      ground (arith, =?_iff info.quote_mint wsol, =?_iff info.base_mint wsol)

  -- What a trade says of the pool and of the amounts that changed hands.
  abbrev pub IsFair : PoolInfo P → ℕ → ℕ → Bool → Option (Trade P) → Type 0
  IsFair info base_amount quote_amount acquiring_base none =
      (info.base_mint ≢ wsol) × (info.quote_mint ≢ wsol)
  IsFair info base_amount quote_amount acquiring_base (some t) =
      ((info.quote_mint ≡ wsol)
        × (t.token_mint ≡ info.base_mint)
        × (t.sol_amount ≡ quote_amount)
        × (t.token_amount ≡ base_amount)
        × (t.is_buy ≡ acquiring_base))
      ⊎ ((info.base_mint ≡ wsol)
          × (t.token_mint ≡ info.quote_mint)
          × (t.sol_amount ≡ base_amount)
          × (t.token_amount ≡ quote_amount)
          × (t.is_buy ≡ not acquiring_base))

  -- A trade is read off the pool as it should be, on every branch: the token is the side that is
  -- not taken for wrapped SOL, each amount is that of its side, a buy is what acquires the token,
  -- and there is no trade only where neither side is wrapped SOL.
  pub orient-IsFair :
      (info : PoolInfo P) (base_amount quote_amount : ℕ) (acquiring_base : Bool) (m : Metrics)
      → IsFair info base_amount quote_amount acquiring_base
          (orient info base_amount quote_amount acquiring_base m).0
  unfolding orient
  orient-IsFair info base_amount quote_amount acquiring_base m =
      ground (arith, =?_iff info.quote_mint wsol, =?_iff info.base_mint wsol)
