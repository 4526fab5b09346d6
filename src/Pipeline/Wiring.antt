-- ===== src/Pipeline/Wiring.antt =====
-- The handles that `run_pipeline` gives to the two processors (src/pipeline.rs).
use solana_realtime_indexer.Prelude.{String, [], Bool, Option, none, some, Eq, if◌then◌else◌}
use solana_realtime_indexer.Commands.{PipelineArgs}
use solana_realtime_indexer.Db.Schema.{Db}
use solana_realtime_indexer.Metrics.{Metrics}
use solana_realtime_indexer.Pools.Resolver.{prime}
use solana_realtime_indexer.Processors.World.{World}
use solana_realtime_indexer.Processors.PumpSwap.{Handles, Swap}

abbrev pub attach : {A : Type 0} → Bool → A → Option A
attach here a = if here then some a else none

-- The event log, the writer's channel and the watermark as the processors find them first.
abbrev pub world_of : {V : Type 0} → PipelineArgs → Metrics → World V
world_of args metrics = record {
  metrics = metrics;
  watermark = 0;
  gaps_attached = args.gaps;
  gaps_sent = [];
  events = attach args.events [];
  written = attach args.db [];
}

abbrev pub swap_of : {P V : Type 0} → PipelineArgs → Option (Handles P V) → Metrics → Swap P V
swap_of args resolver metrics = record {
  world = world_of args metrics;
  resolver = resolver;
  requested = [];
}

module _ {P V : Type 0} ⦃e : Eq P⦄ (from_str : String → Option P) where
  -- `r.prime().await?` on a fresh resolver; none for its error.
  unfoldable pub primed : (answered : Bool) → Option (Db V) → Metrics → Option (Handles P V)
  unfolding prime
  primed answered db metrics =
      let (loaded, s) =
        prime from_str answered
          (record { cache = []; requests = []; db = db; metrics = metrics }) in
      elim loaded [
        | none ↦ none
        | some _ ↦ some (record { cache = s.cache; requests = s.requests; db = s.db })
      ]

  -- The state in which the pipeline starts; none if priming the cache ends the run. The two processors
  -- have clones of the same handles; only the PumpSwap processor has the resolver.
  unfoldable pub wired : PipelineArgs → (answered : Bool) → Db V → Metrics → Option (Swap P V)
  unfolding primed
  wired args answered db metrics =
      if args.rpc
      then elim (primed answered (attach args.db db) metrics) [
        | none ↦ none
        | some handles ↦ some (swap_of args (some handles) metrics)
      ]
      else some (swap_of args none metrics)
