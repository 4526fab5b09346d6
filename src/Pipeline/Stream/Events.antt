-- ===== src/Pipeline/Stream/Events.antt =====
-- The identities of the events in a stream of instructions (src/processors/).
use solana_realtime_indexer.Prelude.{List, [], ◌∷◌, ◌++◌, map, true, ◌≡◌, refl, ap, if◌then◌else◌}
use solana_realtime_indexer.Identity.{EventId}
use solana_realtime_indexer.Db.Schema.{PendingWrite}
use solana_realtime_indexer.Db.Result.{served}
use solana_realtime_indexer.Processors.World.{Meta, event_id}
use solana_realtime_indexer.Processors.Pumpfun
use solana_realtime_indexer.Processors.PumpSwap
use solana_realtime_indexer.Verify.{row_id}
use solana_realtime_indexer.Pipeline.Stream.{Delivered, pumpfun, pumpswap, looked_up}

abbrev pub ids_of : {V : Type 0} → List (PendingWrite V) → List EventId
ids_of rows = map (λ r. row_id r.event) rows

pub map-append :
    {A B : Type 0} (f : A → B) (xs ys : List A) → map f (xs ++ ys) ≡ map f xs ++ map f ys
map-append f [] ys = refl
map-append f (x ∷ xs) ys = ap (λ l. f x ∷ l) (map-append f xs ys)

module _ {P : Type 0} where
  -- The events of an instruction of a transaction that succeeded: trades, buys and sales.
  abbrev pub ids_in_pumpfun : Meta → Pumpfun.Instruction P → List EventId
  ids_in_pumpfun meta Pumpfun.other = []
  ids_in_pumpfun meta (Pumpfun.trade_event _) = event_id meta ∷ []

  abbrev pub ids_in_pumpswap : Meta → PumpSwap.Instruction P → List EventId
  ids_in_pumpswap meta (PumpSwap.buy_event _) = event_id meta ∷ []
  ids_in_pumpswap meta (PumpSwap.sell_event _) = event_id meta ∷ []
  ids_in_pumpswap meta (PumpSwap.create_pool_event _) = []
  ids_in_pumpswap meta PumpSwap.other_event = []
  ids_in_pumpswap meta PumpSwap.other = []

  abbrev pub ids_in : Delivered P → List EventId
  ids_in (pumpfun meta at i) = if meta.failed then [] else ids_in_pumpfun meta i
  ids_in (pumpswap meta at taken reply i) = if meta.failed then [] else ids_in_pumpswap meta i
  ids_in (looked_up _ _ _) = []

  abbrev pub all_ids : List (Delivered P) → List EventId
  all_ids [] = []
  all_ids (d ∷ ds) = ids_in d ++ all_ids ds

  -- The database answers the processor, and the writer task receives.
  abbrev pub IsServed : Delivered P → Type 0
  IsServed (pumpfun meta at i) = at.writer_open ≡ true
  IsServed (pumpswap meta at taken reply i) = (at.writer_open ≡ true) × (reply ≡ served)
  IsServed (looked_up _ _ _) = Unit
