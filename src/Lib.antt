-- ===== src/Lib.antt =====
-- The Solana realtime indexer: trades of the pump.fun and PumpSwap programs, from a stream of
-- transactions into Postgres.
--
-- A datasource (live stream, replayed file or fetched blocks) feeds a pipeline, whose two processors
-- decode instructions and send rows down a channel to the writer task. The writer batches the rows
-- and commits each batch with a checkpoint. PumpSwap trades need the mints of their pool, which a
-- cache and a lookup task supply. A watermark on slot numbers notices jumps, a recorder task stores
-- them, and `recover` fetches the missing blocks through the same pipeline. `repair` builds trades
-- again that could not be oriented at first; `verify` compares a capture with the tables.
--
-- Files and the code that they are about:
--   Config               src/config.rs: the constants, the filters, the environment
--   Identity             src/identity.rs: EventId; the primary key of events and trades
--   Table                a table with a primary key; Table/Laws: the laws of ON CONFLICT DO NOTHING
--   Db                   src/db.rs and migrations/: Schema (rows, tables), Result (errors, and what
--                        the network does to a round trip), Write, Gaps, Pools (one function for each
--                        statement), Integrity (the constraints as an invariant)
--   Metrics              src/metrics.rs: counters; Histogram and Percentiles; Exposition (render)
--                        and Exposition/Counted; Reporter (spawn_reporter)
--   Writer               src/writer.rs: Flush (flush, write_batch), Loop (the task of spawn_writer);
--                        Atomic, Latest, Kept, Flushed, Lossless, Sourced, Delivery, Checkpoint,
--                        Progress, Integrity and Admitted prove what they are named for
--   Gaps                 src/gaps.rs: check_slot, spawn_gap_recorder; Watermark, Recorder, Sent
--   Pools                src/pools.rs: Orient (PoolInfo::orient), Resolver (the cache and its
--                        operations), Worker (the lookup task); Restart, Agree, Entries, Restarted, Turns
--                        (what prime reads back)
--   Processors           src/processors/: World (shared state, metadata), Pumpfun, PumpSwap
--                        (Swapped and Rows: what a swap becomes); Typed
--   Repair               src/repair.rs: build; Build and Live (with Processors); Run (run_repair,
--                        and its statements in src/db.rs), Run/Written and Run/Filled
--   Backfill             src/datasources/backfill.rs: fetch_block, and Fetch; Consume and
--                        Consume/Sent (consume)
--   Verify               src/verify.rs: report; Report; Run (run_verify, run_verify_range); Complete
--   Recover              src/recover.rs: run_recover, and its statements in src/db.rs; Covered,
--                        Fetched; Stages, Moves and Progress (how far the gaps move); Healing
--                        (with Gaps)
--   Replay               src/datasources/replay.rs: consume; Passes
--   Capture              src/capture.rs: run_capture, its loop and the buffer of its file; RoundTrip
--                        (with Replay)
--   Bench                src/bench.rs: the forwarder, the signatures, the result; Salted; Paced and
--                        Paced/Sent (the datasource, with Replay); Run (run_benchmark), Verdict
--   Api                  src/api.rs: the four queries; Newest
--   Commands             src/cli.rs and src/main.rs: the subcommands, what each starts, and the exit
--                        code; Exit (with Verify)
--   Pipeline             src/pipeline.rs: a run as steps of the processors, the channel and the writer
--                        task; Placed and Reached (the invariant), Stopped (what is left behind, and
--                        that a run can end), Wiring (the handles), Stream (the processors over a
--                        stream of instructions; Events, Sent, Logged), Verified (with Verify), Exact,
--                        View and Alone (what a run adds to `events`), Typed, Smooth and Clean
--                        (rows that the schema takes, and runs in which nothing fails)
--   Tests                sample data, and the theorems applied to it
--   Prelude              shared notation, lists, integers, equality as an interface
--
-- State is passed explicitly. Tasks run as lists of turns, each with what the network, the clock and
-- the channels do in it: a statement is served, dropped (with the server having carried it out or
-- not) or never answered. A call that waits forever is none. Counters and unsigned numbers wrap
-- at 2 ^ 64, i64 columns are signed integers, an amount is a whole number, a time is in
-- microseconds. A public key is an abstract type with an equality test; its text form, JSON values,
-- the RPC node and, for a recovery, the pipeline that it runs are parameters. The retries of
-- fetch_block run on fuel, of which the four attempts that the code allows are enough.
--
-- A step of Pipeline is what one task does between two points where it waits, and a flush as a
-- whole, since no other task touches the channel's end or the tables that it works on: a run is a
-- list of such steps, in any order of the tasks. A batch that can be neither written nor parked is
-- lost, as in the code; the steps are given with what the round trips may do, and each theorem
-- says whether it excludes that. The processors, the lookups of pools and their statements take
-- turns in the same way. A replay runs on fuel, one for each pass; the theorem on it asks for as
-- much fuel as passes, which is enough. A crate's codec (JSON, base64, protobuf, base-58) is a
-- record of functions; where a round trip relies on it, the law that a reader undoes its writer is
-- a hypothesis. The rank of a percentile, a product of floating-point numbers that is rounded up,
-- is a parameter.
--
-- Not modelled: HTTP and gRPC connections, what is printed, floating-point numbers (means, rates,
-- percentages), argument parsing, the file that a benchmark writes. A run of the pipeline is
-- modelled where `pipeline.run()` returns `Ok`.
pub mod Prelude
pub mod Table
pub mod Config
pub mod Identity
pub mod Db
pub mod Metrics
pub mod Writer
pub mod Pipeline
pub mod Commands
pub mod Gaps
pub mod Pools
pub mod Processors
pub mod Repair
pub mod Backfill
pub mod Verify
pub mod Recover
pub mod Replay
pub mod Capture
pub mod Bench
pub mod Api
pub mod Tests
