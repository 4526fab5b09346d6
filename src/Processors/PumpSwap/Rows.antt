-- ===== src/Processors/PumpSwap/Rows.antt =====
-- What the PumpSwap processor writes for a swap (src/processors/pumpswap.rs).
use solana_realtime_indexer.Prelude.{
  String, List, [], ◌∷◌, ◌++◌, Bool, true, false, Option, none, some, Eq, insert, subst, sym, ◌≡◌,
  refl, append-nil, Bool-cases, inl, inr, if◌then◌else◌,
}
use mathlib.Core.Option
use solana_realtime_indexer.Db.Schema.{PendingWrite, Db}
use solana_realtime_indexer.Db.Result.{served}
use solana_realtime_indexer.Pools.{PoolInfo}
use solana_realtime_indexer.Pools.Resolver.{Shared, save_if_db}
use solana_realtime_indexer.Processors.World.{Meta, Moment, see_slot, skip_failed}
use solana_realtime_indexer.Processors.PumpSwap.{
  Swap, Handles, shared, BuyEvent, SellEvent, Instruction, buy_event, sell_event, create_pool_event,
  other_event, other, buy_party, sell_party, process, dispatch, handle_create, CreatePoolEvent,
  insert_created, put_back,
}
use solana_realtime_indexer.Processors.PumpSwap.Swapped.{swap_pending, handle_swap_writes}

-- The processor has returned, and the writer has been sent these rows.
abbrev pub Wrote : {P V : Type 0} → List (PendingWrite V) → Option (Swap P V) → Type 0
Wrote rows none = ⊥
Wrote rows (some x) = x.world.written ≡ some rows

module _ {P V : Type 0} ⦃e : Eq P⦄ (wsol : P) (to_string : P → String) (buy_value : BuyEvent P → V)
    (sell_value : SellEvent P → V) where
  -- The row of an instruction, from the state before it: a buy or a sale of a transaction that
  -- succeeded, with a trade if the cache has its pool and one side of that is wrapped SOL.
  abbrev pub rows_of : Meta → Moment → Instruction P → Swap P V → List (PendingWrite V)
  rows_of meta at (buy_event t) x =
      if meta.failed
      then []
      else swap_pending wsol to_string meta at (buy_party t) "BuyEvent" (buy_value t)
          t.base_amount_out t.quote_amount_in true x
        ∷ []
  rows_of meta at (sell_event t) x =
      if meta.failed
      then []
      else swap_pending wsol to_string meta at (sell_party t) "SellEvent" (sell_value t)
          t.base_amount_in t.quote_amount_out false x
        ∷ []
  rows_of meta at (create_pool_event _) x = []
  rows_of meta at other_event x = []
  rows_of meta at other x = []

  written-see_slot :
      (meta : Meta) (at : Moment) (x : Swap P V)
      → (record x { world = see_slot meta at x.world }).world.written ≡ x.world.written
  unfolding see_slot
  written-see_slot meta at x = refl

  saved-Wrote :
      (pool : P) (info : PoolInfo P) (db : Option (Db V)) (s : Shared P V) (x : Swap P V)
      (rows : List (PendingWrite V))
      → x.world.written ≡ some rows
      → Wrote rows (Option.map (λ s. put_back s x) (save_if_db to_string served pool info db s))
  unfolding save_if_db
  saved-Wrote pool info none s x rows e = e
  saved-Wrote pool info (some db) s x rows e = e

  created-Wrote :
      (ev : CreatePoolEvent P) (o : Option (Handles P V)) (x : Swap P V)
      (rows : List (PendingWrite V))
      → x.world.written ≡ some rows
      → Wrote rows (insert_created wsol to_string served ev o x)
  unfolding insert_created
  created-Wrote ev none x rows e = e
  created-Wrote ev (some h) x rows e =
      let info : PoolInfo P = record {
        base_mint = ev.base_mint;
        quote_mint = ev.quote_mint;
        base_decimals = some ev.base_mint_decimals;
        quote_decimals = some ev.quote_mint_decimals;
      } in
      saved-Wrote ev.pool info h.db
        (record (shared h x.world.metrics) { cache = insert ev.pool info h.cache }) x rows e

  handle_create-Wrote :
      (ev : CreatePoolEvent P) (x : Swap P V) (rows : List (PendingWrite V))
      → x.world.written ≡ some rows
      → Wrote rows (handle_create wsol to_string served ev x)
  unfolding handle_create
  handle_create-Wrote ev x rows e = created-Wrote ev x.resolver x rows e

  dispatch-Wrote :
      (meta : Meta) (at : Moment) (taken : Bool) (i : Instruction P) (x : Swap P V)
      (rows : List (PendingWrite V))
      → meta.failed ≡ false
      → at.writer_open ≡ true
      → x.world.written ≡ some rows
      → Wrote
          (rows ++ rows_of meta at i x)
          (dispatch wsol to_string buy_value sell_value meta at taken served i x)
  unfolding dispatch
  dispatch-Wrote meta at taken (buy_event t) x rows f h e = rw f (
      handle_swap_writes wsol to_string meta at taken (buy_party t) "BuyEvent" (buy_value t)
        t.base_amount_out t.quote_amount_in true x rows h e)
  dispatch-Wrote meta at taken (sell_event t) x rows f h e = rw f (
      handle_swap_writes wsol to_string meta at taken (sell_party t) "SellEvent" (sell_value t)
        t.base_amount_in t.quote_amount_out false x rows h e)
  dispatch-Wrote meta at taken (create_pool_event ev) x rows f h e =
      rw append-nil (handle_create-Wrote ev x rows e)
  dispatch-Wrote meta at taken other_event x rows f h e = rw append-nil e
  dispatch-Wrote meta at taken other x rows f h e = rw append-nil e

  rows_of_failed :
      (meta : Meta) (at : Moment) (i : Instruction P) (x : Swap P V)
      → meta.failed ≡ true
      → rows_of meta at i x ≡ []
  rows_of_failed meta at (buy_event t) x f = rw f
  rows_of_failed meta at (sell_event t) x f = rw f
  rows_of_failed meta at (create_pool_event ev) x f = refl
  rows_of_failed meta at other_event x f = refl
  rows_of_failed meta at other x f = refl

  rows_of-see_slot :
      (meta : Meta) (at : Moment) (i : Instruction P) (x : Swap P V)
      → rows_of meta at i (record x { world = see_slot meta at x.world }) ≡ rows_of meta at i x
  unfolding see_slot
  rows_of-see_slot meta at (buy_event t) x = refl
  rows_of-see_slot meta at (sell_event t) x = refl
  rows_of-see_slot meta at (create_pool_event ev) x = refl
  rows_of-see_slot meta at other_event x = refl
  rows_of-see_slot meta at other x = refl

  -- While the database answers and the writer task receives, the processor returns from every
  -- instruction and has sent the writer exactly what `rows_of` says: one row for each buy or sale
  -- of a transaction that succeeded, with the event always and the trade if the cache has the
  -- pool and one side of it is wrapped SOL, and nothing for any other instruction.
  pub process-Wrote :
      (meta : Meta) (at : Moment) (taken : Bool) (i : Instruction P) (x : Swap P V)
      (rows : List (PendingWrite V))
      → at.writer_open ≡ true
      → x.world.written ≡ some rows
      → Wrote
          (rows ++ rows_of meta at i x)
          (process wsol to_string buy_value sell_value meta at taken served i x)
  unfolding process see_slot
  process-Wrote meta at taken i x rows h e = elim (Bool-cases meta.failed) [
    | inl failed ↦ rw (rows_of_failed meta at i x failed, append-nil rows, failed) e
    | inr fine ↦
        let seen = record x { world = see_slot meta at x.world } in
        subst
          (λ b. Wrote (rows ++ rows_of meta at i x) (
            if b
            then some (record x { world = skip_failed x.world })
            else dispatch wsol to_string buy_value sell_value meta at taken served i seen))
          (sym fine)
          (subst
            (λ rs.
              Wrote (rows ++ rs)
                (dispatch wsol to_string buy_value sell_value meta at taken served i seen))
            (rows_of-see_slot meta at i x) (dispatch-Wrote meta at taken i seen rows fine h e))
  ]
