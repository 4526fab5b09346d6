-- ===== src/Pipeline/Typed.antt =====
-- The rows that the processors send have values that the columns of `trades` take (src/processors/,
-- src/writer.rs; migrations/).
use solana_realtime_indexer.Prelude.{
  String, List, [], ◌∷◌, ℤ, Option, none, some, Eq, ◌≡◌, ◌≢◌, sym, subst, inl, inr, All, All-map,
  All-In, In, Bool-cases, string_eq,
}
use solana_realtime_indexer.Db.Schema.{PendingWrite, Db}
use solana_realtime_indexer.Db.Integrity.{IsWellFormed}
use solana_realtime_indexer.Processors.World.{see_slot, skip_failed}
use solana_realtime_indexer.Processors.Pumpfun
use solana_realtime_indexer.Processors.Pumpfun.{side_of}
use solana_realtime_indexer.Processors.PumpSwap
use solana_realtime_indexer.Processors.PumpSwap.{
  Swap, Handles, Party, CreatePoolEvent, BuyEvent, SellEvent, resolve_and_orient, swap_row,
  handle_swap, handle_create, insert_created, put_back, dispatch,
}
use solana_realtime_indexer.Writer.Flush.{done, Trips, write_batch}
use solana_realtime_indexer.Writer.Atomic.{applied}
use solana_realtime_indexer.Writer.Admitted.{IsAnswered, IsSound, sound-applied}
use solana_realtime_indexer.Pipeline.Stream.{
  Delivered, pumpfun, pumpswap, looked_up, then_deliver, deliver, run_stream,
}
use solana_realtime_indexer.Pipeline.Verified.{sent_of}
use solana_realtime_indexer.Processors.Typed.{
  AllSound, SoundIn, HasPumpfunWords, HasPumpswapWords, dispatch-SoundIn, pumpfun-AllSound,
}

module _ {P : Type 0} where
  -- The amounts and the fee are those of the decoder, numbers of 64 bits.
  abbrev pub HasWords : Delivered P → Type 0
  HasWords (pumpfun meta at i) = HasPumpfunWords i
  HasWords (pumpswap meta at taken reply i) = HasPumpswapWords i
  HasWords (looked_up _ _ _) = Unit

none-some : {A : Type 0} {a : A} → none ≢ some a
none-some h = cc

module _ {P V : Type 0} where
  pub then-SoundIn :
      (o : Option (Swap P V)) (rest : Swap P V → Option (Swap P V))
      → SoundIn o
      → ((x : Swap P V) → AllSound x.world.written → SoundIn (rest x))
      → SoundIn (then_deliver o rest)
  then-SoundIn none rest h f = tt
  then-SoundIn (some x) rest h f = f x h

  pub sent-IsSound :
      (o : Option (Swap P V)) (rows : List (PendingWrite V))
      → SoundIn o
      → sent_of o ≡ some rows
      → All IsSound rows
  sent-IsSound none rows h e = absurd (none-some e)
  sent-IsSound (some x) rows h e = subst AllSound e h

module _ {P V : Type 0} ⦃e : Eq P⦄ (wsol : P) (to_string : P → String)
    (trade_value : Pumpfun.TradeEvent P → V) (buy_value : BuyEvent P → V)
    (sell_value : SellEvent P → V) where
  deliver-SoundIn :
      (d : Delivered P) (x : Swap P V)
      → HasWords d
      → AllSound x.world.written
      → SoundIn (deliver wsol to_string trade_value buy_value sell_value d x)
  unfolding deliver PumpSwap.process see_slot skip_failed
  deliver-SoundIn (pumpfun meta at i) x words h =
      pumpfun-AllSound to_string trade_value meta at i x.world words h
  deliver-SoundIn (pumpswap meta at taken reply i) x words h = elim (Bool-cases meta.failed) [
    | inl failed ↦ rw failed h
    | inr ran ↦ rw ran (
        dispatch-SoundIn wsol to_string buy_value sell_value meta at taken reply i
          (record x { world = see_slot meta at x.world }) words h)
  ]
  deliver-SoundIn (looked_up pool b q) x words h = h

  pub run_stream-SoundIn :
      (ds : List (Delivered P)) (x : Swap P V)
      → All HasWords ds
      → AllSound x.world.written
      → SoundIn (run_stream wsol to_string trade_value buy_value sell_value ds x)
  unfolding run_stream
  run_stream-SoundIn [] x words h = h
  run_stream-SoundIn (d ∷ ds) x words h =
      then-SoundIn (deliver wsol to_string trade_value buy_value sell_value d x) _
        (deliver-SoundIn d x words.0 h) (λ y k. run_stream-SoundIn ds y words.1 k)

  -- Whatever the processors meet in a stream whose amounts have 64 bits, whatever lookups of
  -- pools put into the cache in between, and however the rows that they send are batched: the
  -- transaction of a flush, when its statements are answered, commits all of the batch, on any
  -- tables that keep the constraints of the schema. No row that a processor sends is refused by a
  -- type, a CHECK constraint or a foreign key.
  pub run_stream-applied :
      (ds : List (Delivered P)) (x : Swap P V) (rows batch : List (PendingWrite V)) (t : Trips)
      (slot : ℤ) (signature : String) (db : Db V)
      → All HasWords ds
      → x.world.written ≡ some []
      → sent_of (run_stream wsol to_string trade_value buy_value sell_value ds x) ≡ some rows
      → All (λ r. In r rows) batch
      → IsAnswered t
      → IsWellFormed db
      → write_batch t batch slot signature db ≡ (done tt, applied batch slot signature db)
  run_stream-applied ds x rows batch t slot signature db words fresh sent from answered well =
      let sound : All IsSound rows =
        sent-IsSound (run_stream wsol to_string trade_value buy_value sell_value ds x) rows
          (run_stream-SoundIn ds x words (subst AllSound (sym fresh) tt)) sent in
      sound-applied t batch slot signature db answered well
        (All-map _ IsSound batch (λ r m. All-In IsSound rows sound m) from)
