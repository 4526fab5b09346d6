-- ===== src/Repair/Live.antt =====
-- Repair and the live path (src/repair.rs, src/processors/pumpswap.rs): the trade that `build`
-- makes of a logged event, and the one that the processor sends with it.
use solana_realtime_indexer.Prelude.{
  ℕ, String, List, ◌++◌, Bool, true, false, Option, none, some, Eq, get, ◌≡◌, ◌∙◌, refl, ap,
  string_eq, All, Bool-cases, inl, inr,
}
use mathlib.Core.Option
use solana_realtime_indexer.Db.Schema.{PendingWrite, TradeRow}
use solana_realtime_indexer.Db.Result.{served}
use solana_realtime_indexer.Metrics.{Metrics, zeroed}
use solana_realtime_indexer.Pools.{PoolInfo, Trade}
use solana_realtime_indexer.Pools.Orient.{orient}
use solana_realtime_indexer.Processors.World.{Meta, Moment}
use solana_realtime_indexer.Processors.PumpSwap.{
  Swap, Party, BuyEvent, SellEvent, Instruction, buy_event, sell_event, create_pool_event,
  other_event, other, buy_party, sell_party, process, swap_row,
}
use solana_realtime_indexer.Processors.PumpSwap.Swapped.{known, oriented_in, oriented_in-metrics}
use solana_realtime_indexer.Processors.PumpSwap.Rows.{rows_of, Wrote, process-Wrote}
use solana_realtime_indexer.Repair.{Built, built, skipped, no_sol_side, Json, build}
use solana_realtime_indexer.Repair.Build.{ReadsBuy, ReadsSell, rebuilt, build-buy, build-sell}

-- What a repair should come to, from the trade that the live path has with the event.
abbrev pub result_of : Option TradeRow → Built
result_of none = skipped no_sol_side
result_of (some t) = built t

rebuilt-result_of :
    {P : Type 0} (to_string : P → String) (party : Party P) (o : Option (Trade P))
    → rebuilt to_string party o ≡ result_of (Option.map (swap_row to_string party) o)
rebuilt-result_of to_string party none = refl
rebuilt-result_of to_string party (some t) = refl

module _ {P V : Type 0} ⦃e : Eq P⦄ (wsol : P) (to_string : P → String) (json : Json V)
    (new_from_array : List ℕ → P) (buy_value : BuyEvent P → V) (sell_value : SellEvent P → V)
    (pools : List (String × PoolInfo P)) where
  -- The cache of the processor has the pool, and so has the table.
  abbrev pub IsKnown : P → Swap P V → Type 0
  IsKnown pool x =
      (info : PoolInfo P) × (known pool x ≡ some info) × (get (to_string pool) pools ≡ some info)

  -- The payload of a buy or a sale gives back what was logged, and its pool is known.
  abbrev pub IsReadable : Instruction P → Swap P V → Type 0
  IsReadable (buy_event t) x =
      ReadsBuy wsol to_string json new_from_array t (buy_value t) × IsKnown t.pool x
  IsReadable (sell_event t) x =
      ReadsSell wsol to_string json new_from_array t (sell_value t) × IsKnown t.pool x
  IsReadable (create_pool_event _) x = Unit
  IsReadable other_event x = Unit
  IsReadable other x = Unit

  -- Built again from its event alone, the trade is the one that it was sent with.
  abbrev pub IsRepaired : Metrics → PendingWrite V → Type 0
  IsRepaired m row =
      (build wsol to_string json new_from_array pools row.event m).0 ≡ result_of row.trade

  -- The processor has returned, and has sent rows that a repair builds again.
  abbrev pub WroteRepaired : Metrics → List (PendingWrite V) → Option (Swap P V) → Type 0
  WroteRepaired m rows none = ⊥
  WroteRepaired m rows (some x) =
      (added : List (PendingWrite V)) × (x.world.written ≡ some (rows ++ added))
      × All (IsRepaired m) added

  result_of-known :
      (party : Party P) (info : PoolInfo P) (b q : ℕ) (a : Bool) (x : Swap P V) (m : Metrics)
      → known party.pool x ≡ some info
      → rebuilt to_string party (orient wsol info b q a m).0
        ≡ result_of (
            Option.map
              (swap_row to_string party)
              (oriented_in wsol (known party.pool x) b q a zeroed))
  result_of-known party info b q a x m found = rw found (
      rebuilt-result_of to_string party _
      ∙ ap (λ o. result_of (Option.map (swap_row to_string party) o))
          (oriented_in-metrics wsol (some info) b q a m zeroed))

  rows_of-IsRepaired :
      (meta : Meta) (at : Moment) (i : Instruction P) (x : Swap P V) (m : Metrics)
      → IsReadable i x
      → All (IsRepaired m) (rows_of wsol to_string buy_value sell_value meta at i x)
  rows_of-IsRepaired meta at (buy_event t) x m (reads, (info, found, stored)) =
      elim (Bool-cases meta.failed) [
        | inl failed ↦ rw failed tt
        | inr fine ↦ rw fine (
          build-buy wsol to_string json new_from_array meta t (buy_value t) pools info m reads
                stored
              ∙ result_of-known (buy_party t) info t.base_amount_out t.quote_amount_in true x m
                  found,
          tt,
        )
      ]
  rows_of-IsRepaired meta at (sell_event t) x m (reads, (info, found, stored)) =
      elim (Bool-cases meta.failed) [
        | inl failed ↦ rw failed tt
        | inr fine ↦ rw fine (
          build-sell wsol to_string json new_from_array meta t (sell_value t) pools info m reads
                stored
              ∙ result_of-known (sell_party t) info t.base_amount_in t.quote_amount_out false x m
                  found,
          tt,
        )
      ]
  rows_of-IsRepaired meta at (create_pool_event _) x m h = tt
  rows_of-IsRepaired meta at other_event x m h = tt
  rows_of-IsRepaired meta at other x m h = tt

  wrote_repaired :
      (m : Metrics) (rows added : List (PendingWrite V)) (o : Option (Swap P V))
      → Wrote (rows ++ added) o
      → All (IsRepaired m) added
      → WroteRepaired m rows o
  wrote_repaired m rows added none wrote repaired = wrote
  wrote_repaired m rows added (some x) wrote repaired = (added, wrote, repaired)

  -- A trade that is lost is repaired to the very same: while the database answers and the writer
  -- task receives, the processor returns from every instruction, and each row that it has sent
  -- for it has the trade that `build` makes of the row's event alone, or no trade where `build`
  -- skips the event for a pool without wrapped SOL; given that the payload of a buy or a sale
  -- gives back what was logged, and that the cache and the table have the same of its pool.
  pub process-WroteRepaired :
      (meta : Meta) (at : Moment) (taken : Bool) (i : Instruction P) (x : Swap P V)
      (rows : List (PendingWrite V)) (m : Metrics)
      → at.writer_open ≡ true
      → x.world.written ≡ some rows
      → IsReadable i x
      → WroteRepaired m rows (process wsol to_string buy_value sell_value meta at taken served i x)
  process-WroteRepaired meta at taken i x rows m opened written readable =
      wrote_repaired m rows (rows_of wsol to_string buy_value sell_value meta at i x) _
        (process-Wrote wsol to_string buy_value sell_value meta at taken i x rows opened written)
        (rows_of-IsRepaired meta at i x m readable)
