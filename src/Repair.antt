-- ===== src/Repair.antt =====
-- `repair` (src/repair.rs): trades are built again from the logged events that have none, once
-- their pools are known. A payload is a `serde_json::Value`, whose accessors are parameters.
pub mod Build
pub mod Run
pub mod Live
use solana_realtime_indexer.Prelude.{
  ℕ, String, List, [], ◌∷◌, Bool, true, false, Option, none, some, Eq, ◌=?◌, ◌==◌, get, length, ltb,
  if◌then◌else◌, string_eq,
}
use mathlib.Core.Option
use solana_realtime_indexer.Db.Schema.{EventRow, TradeRow}
use solana_realtime_indexer.Metrics.{Metrics}
use solana_realtime_indexer.Pools.{PoolInfo, Trade}
use solana_realtime_indexer.Pools.Orient.{orient}
use solana_realtime_indexer.Processors.Pumpfun.{side_of}

pub data Skipped : Type 0 where
  pool_unknown no_sol_side bad_payload : Skipped

-- `Result<TradeRow, Skipped>`.
pub data Built : Type 0 where
  built : TradeRow → Built
  skipped : Skipped → Built

-- The accessors of `serde_json::Value` that the code calls.
pub record Json (V : Type 0) : Type 0 where
  pub get_field : V → String → Option V
  pub as_bool : V → Option Bool
  pub as_u64 : V → Option ℕ
  pub as_array : V → Option (List V)

-- `.ok_or(Skipped::BadPayload)?` before the rest of the function.
unfoldable pub require : {A : Type 0} → Option A → (A → Built × Metrics) → Metrics → Built × Metrics
require none rest m = (skipped bad_payload, m)
require (some a) rest m = rest a

module _ {V : Type 0} (json : Json V) where
  abbrev pub and_then : {A : Type 0} → Option V → (V → Option A) → Option A
  and_then none f = none
  and_then (some v) f = f v

  -- `u8::try_from(b.as_u64()?).ok()?` for each element.
  unfoldable pub bytes_of : List V → Option (List ℕ)
  bytes_of [] = some []
  bytes_of (b ∷ bs) =
      let rest = bytes_of bs in
      elim (json.as_u64 b) [
        | none ↦ none
        | some n ↦ if ltb n 256 then Option.map (λ ns. n ∷ ns) rest else none
      ]

  abbrev pub u64_field : V → String → Option ℕ
  u64_field p name = and_then (json.get_field p name) json.as_u64

  abbrev pub bool_field : V → String → Option Bool
  bool_field p name = and_then (json.get_field p name) json.as_bool

  module _ {P : Type 0} (new_from_array : List ℕ → P) where
    unfoldable pub pubkey_from_array : List V → Option P
    unfolding bytes_of
    pubkey_from_array arr =
        if length arr == 32 then Option.map new_from_array (bytes_of arr) else none

    unfoldable pub pubkey_from_json : Option V → Option P
    unfolding pubkey_from_array
    pubkey_from_json none = none
    pubkey_from_json (some v) = elim (json.as_array v) [
      | none ↦ none
      | some arr ↦ pubkey_from_array arr
    ]

    abbrev pub pubkey_field : V → String → Option P
    pubkey_field p name = pubkey_from_json (json.get_field p name)

module _ {P V : Type 0} ⦃e : Eq P⦄ (wsol : P) (to_string : P → String) (json : Json V)
    (new_from_array : List ℕ → P) where
  unfoldable pub build_pumpfun : EventRow V → Metrics → Built × Metrics
  unfolding require pubkey_from_json
  build_pumpfun ev m =
      let p = ev.payload in
      require (pubkey_field json new_from_array p "mint")
        (λ mint.
          require (pubkey_field json new_from_array p "user")
            (λ user.
              require (bool_field json p "is_buy")
                (λ is_buy.
                  require (u64_field json p "sol_amount")
                    (λ sol_amount.
                      require (u64_field json p "token_amount")
                        (λ token_amount. (
                          built (record {
                            pool = none;
                            token_mint = to_string mint;
                            side = side_of is_buy;
                            sol_amount = sol_amount;
                            token_amount = token_amount;
                            trader = to_string user;
                            fee = u64_field json p "fee";
                          }),
                          m,
                        ))
                        m)
                    m)
                m)
            m)
        m

  -- The end of `build_pumpswap`, from the lookup of the pool on.
  unfoldable pub build_swap :
      List (String × PoolInfo P) → V → P → P → ℕ → ℕ → Bool → Metrics → Built × Metrics
  unfolding orient
  build_swap pools p pool user base_amount quote_amount acquiring_base m =
      elim (get (to_string pool) pools) [
        | none ↦ (skipped pool_unknown, m)
        | some info ↦
            let (oriented, m') = orient wsol info base_amount quote_amount acquiring_base m in
            elim oriented [
              | none ↦ (skipped no_sol_side, m')
              | some t ↦ (
                built (record {
                  pool = some (to_string pool);
                  token_mint = to_string t.token_mint;
                  side = side_of t.is_buy;
                  sol_amount = t.sol_amount;
                  token_amount = t.token_amount;
                  trader = to_string user;
                  fee = u64_field json p "protocol_fee";
                }),
                m',
              )
            ]
      ]

  -- The two amounts under the names that the kind of event gives them.
  unfoldable pub build_sides :
      List (String × PoolInfo P) → V → P → P → String → String → Bool → Metrics → Built × Metrics
  unfolding require build_swap
  build_sides pools p pool user base_name quote_name acquiring_base m =
      require (u64_field json p base_name)
        (λ base_amount.
          require (u64_field json p quote_name)
            (λ quote_amount. build_swap pools p pool user base_amount quote_amount acquiring_base m)
            m)
        m

  unfoldable pub build_pumpswap :
      List (String × PoolInfo P) → EventRow V → Metrics → Built × Metrics
  unfolding require pubkey_from_json build_sides
  build_pumpswap pools ev m =
      let p = ev.payload in
      require (pubkey_field json new_from_array p "pool")
        (λ pool.
          require (pubkey_field json new_from_array p "user")
            (λ user.
              if ev.event_type =? "BuyEvent"
              then build_sides pools p pool user "base_amount_out" "quote_amount_in" true m
              else if ev.event_type =? "SellEvent"
              then build_sides pools p pool user "base_amount_in" "quote_amount_out" false m
              else (skipped bad_payload, m))
            m)
        m

  unfoldable pub build : List (String × PoolInfo P) → EventRow V → Metrics → Built × Metrics
  unfolding build_pumpfun build_pumpswap
  build pools ev m =
      if ev.program =? "pumpfun"
      then build_pumpfun ev m
      else if ev.program =? "pumpswap"
      then build_pumpswap pools ev m
      else (skipped bad_payload, m)
