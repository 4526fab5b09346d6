-- ===== src/Config.antt =====
-- src/config.rs: the constants, and what is read from the environment (`env::var`, whose error is
-- none here).
use solana_realtime_indexer.Prelude.{
  ℕ, String, List, [], ◌∷◌, Bool, false, Option, none, some, ◌=?◌, insert, if◌then◌else◌, string_eq,
}

abbrev pub pumpfun_program : String
pumpfun_program = "6EF8rrecthR5Dkzon8Nwu78hRvfCKubJ14M5uBEwF6P"

abbrev pub pumpswap_program : String
pumpswap_program = "pAMMBay6oceH9fJKBRHGP5D4bD4sWpmSwMn52FMfXEA"

abbrev pub metrics_port : ℕ
metrics_port = 9_100

abbrev pub write_queue_size : ℕ
write_queue_size = 10_000

abbrev pub pipeline_queue_size : ℕ
pipeline_queue_size = 10_000

abbrev pub pool_lookup_queue_size : ℕ
pool_lookup_queue_size = 1_000

abbrev pub gap_queue_size : ℕ
gap_queue_size = 64

abbrev pub gap_overlap_slots : ℕ
gap_overlap_slots = 64

abbrev pub slot_gap_tolerance : ℕ
slot_gap_tolerance = 50

abbrev pub rpc_max_attempts : ℕ
rpc_max_attempts = 4

-- 60 seconds, in microseconds.
abbrev pub pool_retry_after : ℕ
pool_retry_after = 60_000_000

abbrev pub wsol_mint : String
wsol_mint = "So11111111111111111111111111111111111111112"

-- The environment of the process.
abbrev pub Vars : Type 0
Vars = String → Option String

-- None where the code panics.
abbrev pub grpc_endpoint : Vars → Option String
grpc_endpoint var = var "YELLOWSTONE_GRPC_ENDPOINT"

abbrev pub database_url : Vars → Option String
database_url var = var "DATABASE_URL"

-- None where the code panics.
abbrev pub solana_rpc_url : Vars → Option String
solana_rpc_url var = var "SOLANA_RPC_URL"

-- `filter(|t| !t.is_empty())`.
abbrev pub unless_blank : Option String → Option String
unless_blank none = none
unless_blank (some t) = if t =? "" then none else some t

abbrev pub grpc_x_token : Vars → Option String
grpc_x_token var = unless_blank (var "YELLOWSTONE_X_TOKEN")

-- `SubscribeRequestFilterTransactions`.
pub record Filter : Type 0 where
  pub vote : Option Bool
  pub failed : Option Bool
  pub signature : Option String
  pub account_include : List String
  pub account_exclude : List String
  pub account_required : List String

abbrev pub filter_of : String → Filter
filter_of program = record {
  vote = some false;
  failed = some false;
  signature = none;
  account_include = program ∷ [];
  account_exclude = [];
  account_required = [];
}

-- The loop of `transaction_filters` over names and programs.
unfoldable pub insert_filters :
    List (String × String) → List (String × Filter) → List (String × Filter)
insert_filters [] filters = filters
insert_filters ((name, program) ∷ rest) filters =
    insert_filters rest (insert name (filter_of program) filters)

unfoldable pub transaction_filters : List (String × Filter)
unfolding insert_filters
transaction_filters =
    insert_filters (("pumpfun", pumpfun_program) ∷ ("pumpswap", pumpswap_program) ∷ []) []
