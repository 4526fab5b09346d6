-- ===== src/Bench/Paced.antt =====
-- `PacedReplayDatasource::consume` (src/bench.rs): a replay that sends into a channel of its own, and
-- the forwarder that takes its updates from there to the pipeline. The two are joined.
pub mod Sent
use solana_realtime_indexer.Prelude.{
  ℕ, ◌+◌, String, List, [], ◌∷◌, Bool, true, false, Option, none, some,
}
use solana_realtime_indexer.Bench.{
  BenchStats, finish, SignatureType, Update, Turn, Forward, forward, make_signature_unique,
}
use solana_realtime_indexer.Replay.{Tape, Pipe, consume}

-- `BenchStats::default()`.
abbrev pub no_stats : BenchStats
no_stats = record {
  sent = 0;
  elapsed_us = 0;
  max_schedule_lag_us = 0;
  max_channel_send_wait_us = 0;
}

-- What the token, the pipeline and the clock do at one update of the forwarder.
pub record Tick : Type 0 where
  pub cancelled : Bool
  pub taken : Bool
  pub waited : ℕ
  pub lag : ℕ

module _ {S R : Type 0} where
  abbrev pub turn_at : Tick → Update S R → Turn S R
  turn_at tick u = record {
    update = u;
    cancelled = tick.cancelled;
    taken = tick.taken;
    waited = tick.waited;
    lag = tick.lag;
  }

  unfoldable pub turns_of : (ℕ → Tick) → ℕ → List (Update S R) → List (Turn S R)
  turns_of ticks i [] = []
  turns_of ticks i (u ∷ us) = turn_at (ticks i) u ∷ turns_of ticks (i + 1) us

module _ {S R : Type 0} (sig : SignatureType S) (salt : ℕ) (ticks : ℕ → Tick) (elapsed : ℕ) where
  -- The forwarder over all that the replay has sent, and `stats.finish(..)`.
  unfoldable pub forwarder : List (Update S R) → Forward S R
  unfolding forward turns_of finish
  forwarder us =
      let f =
        forward sig salt (turns_of ticks 0 us)
          (record { stats = no_stats; sent = 0; updates = [] }) in
      record f { stats = finish f.sent elapsed f.stats }

  abbrev pub joined : Option (Bool × Tape (Update S R)) → Option (Bool × Forward S R)
  joined none = none
  joined (some (ok, tape)) = some (ok, forwarder tape.sent)

  -- `tokio::join!(producer, forwarder)`, with the result of the producer: whether it is `Ok`, and what
  -- the forwarder has done. The pipe of the replay is the channel between the two.
  unfoldable pub paced_consume :
      (String → Option (Update S R))
      → Pipe
      → (ℕ → Option (List (Option String)))
      → ℕ
      → ℕ
      → Tape (Update S R)
      → Option (Bool × Forward S R)
  unfolding forwarder consume
  paced_consume read pipe files repeat fuel tape =
      joined (consume read pipe files repeat fuel 0 tape)
