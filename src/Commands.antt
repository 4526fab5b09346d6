-- ===== src/Commands.antt =====
-- The subcommands (src/cli.rs) and what `main` makes of them (src/main.rs): which task runs, over
-- which source, and with which of the handles that `run_pipeline` takes.
pub mod Exit
use solana_realtime_indexer.Prelude.{
  ℕ, ℤ, String, Bool, true, false, Option, none, some, if◌then◌else◌,
}
use solana_realtime_indexer.Config.{Vars, database_url, solana_rpc_url, grpc_endpoint}

pub data Commands : Type 0 where
  capture : (minutes : ℕ) → Commands
  replay : (path : String) (repeat : ℕ) (resolve : Bool) → Commands
  verify : (path : String) → Commands
  verify_range : (from to : ℕ) → Commands
  backfill : (from to : ℕ) → Commands
  repair : (limit : ℤ) → Commands
  recover : Commands
  live : Commands
  api : (port : ℕ) → Commands
  bench : (path : String) (rate repeat expected_events_per_pass : ℕ) (output : String) → Commands

-- The datasources of the repository, and the stream of the Yellowstone client.
pub data Datasource : Type 0 where
  replay_datasource : (path : String) (repeat : ℕ) → Datasource
  backfill_datasource : (start_slot end_slot : ℕ) → Datasource
  yellowstone : Datasource

-- The arguments of `run_pipeline`: which of the handles are there.
pub record PipelineArgs : Type 0 where
  pub datasource : Datasource
  pub rpc : Bool
  pub events : Bool
  pub db : Bool
  pub gaps : Bool

pub data Task : Type 0 where
  run_capture : (minutes : ℕ) → Task
  run_pipeline : PipelineArgs → Task
  run_verify : (path : String) → Task
  run_verify_range : (from to : ℕ) → Task
  run_repair : (limit : ℤ) → Task
  run_recover : Task
  run_api : (port : ℕ) → Task
  run_benchmark :
      (path : String) (rate repeat expected_events_per_pass : ℕ) (output : String) → Task
  -- the exporter and the recorder of gaps, whose sender the stream's client has too, beside a pipeline
  run_live : PipelineArgs → Task

-- What `main` does first: it panics at `expect`, returns the error of `db::connect`, or runs a task.
pub data Launch : Type 0 where
  panic failed : Launch
  run : Task → Launch

-- The variables that are set, and the outcome of `db::connect` (true for `Ok`).
pub record Environment : Type 0 where
  pub var : Vars
  pub connects : String → Bool

-- A variable without which the code panics.
abbrev pub needs : Option String → Launch → Launch
needs none next = panic
needs (some _) next = next

-- `db::connect(..).await?`.
abbrev pub connect : Environment → String → Launch → Launch
connect env url next = elim (env.connects url) [ true ↦ next | false ↦ failed ]

-- `db::connect(&database_url().expect(..)).await?` before the rest.
abbrev pub with_db : Environment → Launch → Launch
with_db env next = elim (database_url env.var) [ none ↦ panic | some url ↦ connect env url next ]

abbrev pub replay_args : String → ℕ → Bool → Bool → PipelineArgs
replay_args path repeat resolve db = record {
  datasource = replay_datasource path repeat;
  rpc = resolve;
  events = true;
  db = db;
  gaps = false;
}

abbrev pub backfill_args : ℕ → ℕ → PipelineArgs
backfill_args from to = record {
  datasource = backfill_datasource from to;
  rpc = true;
  events = false;
  db = true;
  gaps = false;
}

abbrev pub live_args : PipelineArgs
live_args = record { datasource = yellowstone; rpc = true; events = false; db = true; gaps = true }

-- The pipelines of `run_verify` and `run_verify_range`, which only log (src/verify.rs).
abbrev pub verify_args : Datasource → PipelineArgs
verify_args datasource = record {
  datasource = datasource;
  rpc = false;
  events = true;
  db = false;
  gaps = false;
}

-- `RpcClient::new(SOLANA_RPC_URL.to_string())` if pools are to be resolved.
abbrev pub with_rpc : Bool → Environment → Launch → Launch
with_rpc false env next = next
with_rpc true env next = needs (solana_rpc_url env.var) next

unfoldable pub launch : Environment → Commands → Launch
launch env (capture minutes) = run (run_capture minutes)
launch env (replay path repeat resolve) = with_rpc resolve env (elim (database_url env.var) [
  | none ↦ run (run_pipeline (replay_args path repeat resolve false))
  | some url ↦ connect env url (run (run_pipeline (replay_args path repeat resolve true)))
])
launch env (verify path) = with_db env (run (run_verify path))
launch env (verify_range from to) = with_db env (run (run_verify_range from to))
launch env (backfill from to) =
    with_db env (with_rpc true env (run (run_pipeline (backfill_args from to))))
launch env (repair limit) = with_db env (run (run_repair limit))
launch env recover = with_db env (run run_recover)
launch env live =
    with_db env (needs (grpc_endpoint env.var) (with_rpc true env (run (run_live live_args))))
launch env (api port) = with_db env (run (run_api port))
launch env (bench path rate repeat expected_events_per_pass output) =
    run (run_benchmark path rate repeat expected_events_per_pass output)

-- What a task returns: `Ok`, for a verification with its verdict, or an error.
pub data Returned : Type 0 where
  fine broken : Returned
  verdict : (clean : Bool) → Returned

-- The exit code of a process whose `main` returns so, or calls `exit`.
unfoldable pub exit_code : Returned → ℕ
exit_code fine = 0
exit_code broken = 1
exit_code (verdict clean) = if clean then 0 else 1

-- The exit code of the process, where `task` says what each task returns; a panic has the code 101.
unfoldable pub main : Environment → (Task → Returned) → Commands → ℕ
unfolding launch exit_code
main env task command = elim (launch env command) [
  | panic ↦ 101
  | failed ↦ 1
  | run t ↦ exit_code (task t)
]
