-- ===== src/Processors/Typed.antt =====
-- The rows that the processors send have values that the columns of `trades` take (src/processors/,
-- src/pools.rs; migrations/).
use solana_realtime_indexer.Prelude.{
  ℕ, ◌<◌, String, List, [], ◌∷◌, Bool, true, false, Option, none, some, Eq, ◌≡◌, refl, sym, ◌∙◌,
  subst, inl, inr, arith, All, All-append, Bool-cases, Option-cases, u64_mod, string_eq,
}
use mathlib.Core.Option
use solana_realtime_indexer.Db.Schema.{PendingWrite}
use solana_realtime_indexer.Db.Result.{Reply}
use solana_realtime_indexer.Db.Write.{side_check, amounts_fit}
use solana_realtime_indexer.Metrics.{Metrics}
use solana_realtime_indexer.Pools.{PoolInfo, Trade}
use solana_realtime_indexer.Pools.Orient.{orient}
use solana_realtime_indexer.Pools.Resolver.{Shared}
use solana_realtime_indexer.Processors.World.{
  Meta, Moment, World, see_slot, skip_failed, log_event, send,
}
use solana_realtime_indexer.Processors.Pumpfun
use solana_realtime_indexer.Processors.Pumpfun.{side_of}
use solana_realtime_indexer.Processors.PumpSwap
use solana_realtime_indexer.Processors.PumpSwap.{
  Swap, Handles, Party, CreatePoolEvent, BuyEvent, SellEvent, resolve_and_orient, swap_row,
  handle_swap, handle_create, insert_created, put_back, dispatch,
}
use solana_realtime_indexer.Processors.PumpSwap.Swapped.{
  known, oriented_in, written-resolve_and_orient, trade-resolve_and_orient, written-log_event,
}
use solana_realtime_indexer.Writer.Admitted.{IsTyped, IsSound}

abbrev pub IsU64 : ℕ → Type 0
IsU64 n = n < u64_mod

module _ {P : Type 0} where
  abbrev pub HasPumpfunWords : Pumpfun.Instruction P → Type 0
  HasPumpfunWords Pumpfun.other = Unit
  HasPumpfunWords (Pumpfun.trade_event t) = IsU64 t.sol_amount × IsU64 t.token_amount × IsU64 t.fee

  abbrev pub HasPumpswapWords : PumpSwap.Instruction P → Type 0
  HasPumpswapWords (PumpSwap.buy_event t) =
      IsU64 t.base_amount_out × IsU64 t.quote_amount_in × IsU64 t.protocol_fee
  HasPumpswapWords (PumpSwap.sell_event t) =
      IsU64 t.base_amount_in × IsU64 t.quote_amount_out × IsU64 t.protocol_fee
  HasPumpswapWords (PumpSwap.create_pool_event _) = Unit
  HasPumpswapWords PumpSwap.other_event = Unit
  HasPumpswapWords PumpSwap.other = Unit

side_check-side_of : (is_buy : Bool) → side_check (side_of is_buy) ≡ true
unfolding side_check
side_check-side_of true = refl
side_check-side_of false = refl

words-IsTyped :
    (pool : Option String) (token_mint trader : String) (is_buy : Bool) (sol token fee : ℕ)
    → IsU64 sol
    → IsU64 token
    → IsU64 fee
    → IsTyped (
        some (record {
          pool = pool;
          token_mint = token_mint;
          side = side_of is_buy;
          sol_amount = sol;
          token_amount = token;
          trader = trader;
          fee = some fee;
        }))
unfolding amounts_fit
words-IsTyped pool token_mint trader is_buy sol token fee s t f =
    (side_check-side_of is_buy, ground arith)

module _ {V : Type 0} where
  abbrev pub AllSound : Option (List (PendingWrite V)) → Type 0
  AllSound none = Unit
  AllSound (some rows) = All IsSound rows

  send-AllSound :
      (at : Moment) (row : PendingWrite V) (w : World V)
      → IsSound row
      → AllSound w.written
      → AllSound (send at row w).written
  unfolding send
  send-AllSound at row w p h = elim (Option-cases w.written) [
    | inl none_ ↦ rw none_ tt
    | inr (rows, e) ↦
        let old : All IsSound rows = subst AllSound e h in
        elim (Bool-cases at.writer_open) [
          | inl up ↦ rw (e, up) (All-append IsSound rows (row ∷ []) old (p, tt))
          | inr down ↦ rw (e, down) old
        ]
  ]

module _ {P V : Type 0} where
  abbrev pub SoundIn : Option (Swap P V) → Type 0
  SoundIn none = Unit
  SoundIn (some x) = AllSound x.world.written

  put_back-SoundIn :
      (x : Swap P V) (o : Option (Shared P V))
      → AllSound x.world.written
      → SoundIn (Option.map (λ s. put_back s x) o)
  put_back-SoundIn x none h = tt
  put_back-SoundIn x (some s) h = h

module _ {P : Type 0} ⦃e : Eq P⦄ (wsol : P) (to_string : P → String) where
  -- Each amount of an oriented trade is one of the two that were given.
  orient-words :
      (info : PoolInfo P) (base quote_ : ℕ) (a : Bool) (m : Metrics) (t : Trade P)
      → (orient wsol info base quote_ a m).0 ≡ some t
      → IsU64 base
      → IsU64 quote_
      → IsU64 t.sol_amount × IsU64 t.token_amount
  unfolding orient
  orient-words info base quote_ a m t h b q = ground arith

  oriented-IsTyped :
      (party : Party P) (o : Option (PoolInfo P)) (base quote_ : ℕ) (a : Bool) (m : Metrics)
      → IsU64 base
      → IsU64 quote_
      → IsU64 party.protocol_fee
      → IsTyped (Option.map (swap_row to_string party) (oriented_in wsol o base quote_ a m))
  oriented-IsTyped party none base quote_ a m b q f = tt
  oriented-IsTyped party (some info) base quote_ a m b q f =
      elim (Option-cases (orient wsol info base quote_ a m).0) [
        | inl none_ ↦ rw none_ tt
        | inr (t, h) ↦
            let (s, k) = orient-words info base quote_ a m t h b q in
            rw h (
              words-IsTyped (some (to_string party.pool)) (to_string t.token_mint)
                (to_string party.user) t.is_buy t.sol_amount t.token_amount party.protocol_fee s k
                f)
      ]

module _ {P V : Type 0} ⦃e : Eq P⦄ (wsol : P) (to_string : P → String) where
  insert_created-SoundIn :
      (reply : Reply) (ev : CreatePoolEvent P) (h : Option (Handles P V)) (x : Swap P V)
      → AllSound x.world.written
      → SoundIn (insert_created wsol to_string reply ev h x)
  unfolding insert_created
  insert_created-SoundIn reply ev none x s = s
  insert_created-SoundIn reply ev (some h) x s = put_back-SoundIn x _ s

  handle_swap-AllSound :
      (meta : Meta) (at : Moment) (taken : Bool) (party : Party P) (event_type : String)
      (payload : V) (base quote_ : ℕ) (a : Bool) (x : Swap P V)
      → IsU64 base
      → IsU64 quote_
      → IsU64 party.protocol_fee
      → AllSound x.world.written
      → AllSound
          (handle_swap wsol to_string meta at taken party event_type payload base quote_ a
            x).world.written
  unfolding handle_swap
  handle_swap-AllSound meta at taken party event_type payload base quote_ a x b q f h =
      let logged = record x { world = log_event meta at x.world } in
      let r = resolve_and_orient wsol taken at.now party.pool base quote_ a logged in
      send-AllSound at _ r.1.world
        (subst (λ (o : Option (Trade P)). IsTyped (Option.map (swap_row to_string party) o))
          (sym
            (trade-resolve_and_orient wsol to_string taken a at.now base quote_ party.pool logged))
          (oriented-IsTyped wsol to_string party (known party.pool logged) base quote_ a
            logged.world.metrics b q f))
        (subst AllSound
          (sym (
            written-resolve_and_orient wsol to_string taken a at.now base quote_ party.pool logged
            ∙ written-log_event wsol to_string meta at x.world))
          h)

  handle_create-SoundIn :
      (reply : Reply) (ev : CreatePoolEvent P) (x : Swap P V)
      → AllSound x.world.written
      → SoundIn (handle_create wsol to_string reply ev x)
  unfolding handle_create
  handle_create-SoundIn reply ev x h = insert_created-SoundIn reply ev x.resolver x h

module _ {P V : Type 0} (to_string : P → String) (trade_value : Pumpfun.TradeEvent P → V) where
  pub pumpfun-AllSound :
      (meta : Meta) (at : Moment) (i : Pumpfun.Instruction P) (w : World V)
      → HasPumpfunWords i
      → AllSound w.written
      → AllSound (Pumpfun.process to_string trade_value meta at i w).written
  unfolding Pumpfun.process see_slot skip_failed log_event
  pumpfun-AllSound meta at i w words h = elim (Bool-cases meta.failed) [
    | inl failed ↦ rw failed h
    | inr ran ↦ rw ran (go i words)
  ]
    where
      go :
          (j : Pumpfun.Instruction P)
          → HasPumpfunWords j
          → AllSound
              (elim j as (λ _. World V) [
                | Pumpfun.other ↦ see_slot meta at w
                | Pumpfun.trade_event trade ↦
                    send at
                      (Pumpfun.pending to_string trade_value meta at trade)
                      (log_event meta at (see_slot meta at w))
              ]).written
      go Pumpfun.other ws = h
      go (Pumpfun.trade_event t) (s, k, f) =
          send-AllSound at (Pumpfun.pending to_string trade_value meta at t)
            (log_event meta at (see_slot meta at w))
            (words-IsTyped none (to_string t.mint) (to_string t.user) t.is_buy t.sol_amount
              t.token_amount t.fee s k f)
            h

module _ {P V : Type 0} ⦃e : Eq P⦄ (wsol : P) (to_string : P → String) (buy_value : BuyEvent P → V)
    (sell_value : SellEvent P → V) where
  pub dispatch-SoundIn :
      (meta : Meta) (at : Moment) (taken : Bool) (reply : Reply) (i : PumpSwap.Instruction P)
      (x : Swap P V)
      → HasPumpswapWords i
      → AllSound x.world.written
      → SoundIn (dispatch wsol to_string buy_value sell_value meta at taken reply i x)
  unfolding dispatch
  dispatch-SoundIn meta at taken reply (PumpSwap.buy_event t) x (b, q, f) h =
      handle_swap-AllSound wsol to_string meta at taken _ "BuyEvent" (buy_value t) t.base_amount_out
        t.quote_amount_in true x b q f h
  dispatch-SoundIn meta at taken reply (PumpSwap.sell_event t) x (b, q, f) h =
      handle_swap-AllSound wsol to_string meta at taken _ "SellEvent" (sell_value t)
        t.base_amount_in t.quote_amount_out false x b q f h
  dispatch-SoundIn meta at taken reply (PumpSwap.create_pool_event ev) x w h =
      handle_create-SoundIn wsol to_string reply ev x h
  dispatch-SoundIn meta at taken reply PumpSwap.other_event x w h = h
  dispatch-SoundIn meta at taken reply PumpSwap.other x w h = h
