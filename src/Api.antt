-- ===== src/Api.antt =====
-- src/api.rs: the four queries of the HTTP interface. `show` is the text of a `Decimal`.
pub mod Newest
use solana_realtime_indexer.Prelude.{
  ℕ, ◌+◌, String, List, [], ◌∷◌, map, ℤ, pos, leb_ℤ, Bool, true, false, not, Option, none, some,
  unwrap_or, length, take, pos_part, ◌=?◌, string_eq, if◌then◌else◌,
}
use mathlib.Core.Option
use solana_realtime_indexer.Db.Schema.{RepairedTrade, GapRow, Db}
use solana_realtime_indexer.Db.Result.{Reply, served, dropped, silent}

-- `Result<Json<A>, StatusCode>`.
pub data Response (A : Type 0) : Type 0 where
  json : A → Response A
  internal_server_error : Response A

pub record Trade : Type 0 where
  pub signature : String
  pub slot : ℤ
  pub program : String
  pub token_mint : String
  pub side : String
  pub sol_amount : String
  pub token_amount : String
  pub trader : String

pub record Health : Type 0 where
  pub last_completed_slot : Option ℤ
  pub events : ℕ
  pub trades : ℕ
  pub unresolved_gaps : ℕ

pub record Volume : Type 0 where
  pub token_mint : String
  pub trades : ℕ
  pub sol_volume : String

-- `clamp`.
unfoldable pub clamp : ℤ → ℤ → ℤ → ℤ
clamp low high z = if leb_ℤ low z then (if leb_ℤ z high then z else high) else low

unfoldable pub rows : Option ℤ → ℤ
unfolding clamp
rows limit = clamp (pos 1) (pos 500) (unwrap_or (pos 50) limit)

-- ORDER BY slot DESC, where rows of one slot keep the order of the table.
unfoldable pub place_newest : RepairedTrade → List RepairedTrade → List RepairedTrade
place_newest t [] = t ∷ []
place_newest t (x ∷ xs) = if leb_ℤ x.slot t.slot then t ∷ x ∷ xs else x ∷ place_newest t xs

unfoldable pub newest_first : List RepairedTrade → List RepairedTrade
unfolding place_newest
newest_first [] = []
newest_first (t ∷ ts) = place_newest t (newest_first ts)

-- WHERE token_mint = $1.
unfoldable pub of_mint : String → List RepairedTrade → List RepairedTrade
of_mint mint [] = []
of_mint mint (t ∷ ts) = if t.trade.token_mint =? mint then t ∷ of_mint mint ts else of_mint mint ts

unfoldable pub sum_sol : List RepairedTrade → ℕ
sum_sol [] = 0
sum_sol (t ∷ ts) = t.trade.sol_amount + sum_sol ts

-- status <> 'closed'.
unfoldable pub unresolved : List GapRow → ℕ
unresolved [] = 0
unresolved (g ∷ gs) = if g.status =? "closed" then unresolved gs else 1 + unresolved gs

-- The answer of a query, or `failed` for its error; none if it is never answered.
abbrev pub answer : {A : Type 0} → Reply → A → Option (Response A)
answer served a = some (json a)
answer (dropped _) a = some internal_server_error
answer (silent _) a = none

module _ (show : ℕ → String) where
  abbrev pub trade_from : RepairedTrade → Trade
  trade_from r = record {
    signature = r.signature;
    slot = r.slot;
    program = r.program;
    token_mint = r.trade.token_mint;
    side = r.trade.side;
    sol_amount = show r.trade.sol_amount;
    token_amount = show r.trade.token_amount;
    trader = r.trade.trader;
  }

  module _ {V : Type 0} where
    unfoldable pub health : Reply → Db V → Option (Response Health)
    unfolding unresolved
    health reply db = answer reply (record {
      last_completed_slot = Option.map (λ c. c.last_completed_slot) db.checkpoint;
      events = length db.events;
      trades = length db.trades;
      unresolved_gaps = unresolved db.stream_gaps;
    })

    unfoldable pub recent : Reply → Option ℤ → Db V → Option (Response (List Trade))
    unfolding newest_first rows
    recent reply limit db =
        answer reply (map trade_from (take (pos_part (rows limit)) (newest_first db.trades)))

    unfoldable pub by_token : Reply → String → Option ℤ → Db V → Option (Response (List Trade))
    unfolding newest_first rows of_mint
    by_token reply mint limit db =
        answer reply
          (map trade_from (take (pos_part (rows limit)) (newest_first (of_mint mint db.trades))))

    unfoldable pub volume : Reply → String → Db V → Option (Response Volume)
    unfolding of_mint sum_sol
    volume reply mint db = answer reply (record {
      token_mint = mint;
      trades = length (of_mint mint db.trades);
      sol_volume = show (sum_sol (of_mint mint db.trades));
    })
