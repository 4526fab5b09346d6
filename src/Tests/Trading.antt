-- ===== src/Tests/Trading.antt =====
-- The theorems on pools, processors and repair at sample trades. A key is a number, 9 is wrapped
-- SOL.
use solana_realtime_indexer.Prelude.{
  ℕ, pos, ◌+◌, ◌≤◌, ◌≡◌, refl, String, List, [], ◌∷◌, ◌++◌, Option, none, some, true, false, ◌=?◌,
  nat_eq, string_eq, get, if◌then◌else◌, arith, ◌==◌,
}
use solana_realtime_indexer.Db.Schema.{Db}
use solana_realtime_indexer.Db.Result.{Reply, served, dropped}
use solana_realtime_indexer.Metrics.{zeroed}
use solana_realtime_indexer.Pools.{PoolInfo}
use solana_realtime_indexer.Pools.Orient.{orient, IsFair, orient-IsFair}
use solana_realtime_indexer.Processors.World.{Meta, Moment, World, event_row}
use solana_realtime_indexer.Processors.Pumpfun.{TradeEvent, trade_event, other}
use solana_realtime_indexer.Processors.Pumpfun.Run.{
  Delivery, process_all, all_rows, written-process_all,
}
use solana_realtime_indexer.Processors.PumpSwap.{BuyEvent, Swap, process, buy_event}
use solana_realtime_indexer.Processors.PumpSwap.Resolve.{
  Call, count, queued, resolve_all, resolve_once,
}
use solana_realtime_indexer.Processors.PumpSwap.Rows.{Wrote, rows_of, process-Wrote}
use solana_realtime_indexer.Repair.{Json, pubkey_from_json, pubkey_from_array, bytes_of}
use solana_realtime_indexer.Repair.Build.{ReadsBuy}
use solana_realtime_indexer.Repair.Live.{WroteRepaired, process-WroteRepaired}
use solana_realtime_indexer.Repair.Run.{run_repair, known_pools, load_unrepaired}
use solana_realtime_indexer.Repair.Run.Written.{Filled}
use solana_realtime_indexer.Repair.Run.Filled.{loaded, repairable, run_repair-Filled}
use solana_realtime_indexer.Db.Pools.{load_pools}
use solana_realtime_indexer.Tests.{empty_db}

abbrev name_of : ℕ → String
name_of n =
    if n == 9
    then "So11111111111111111111111111111111111111112"
    else if n == 1
    then "pool"
    else "user"

abbrev info : PoolInfo ℕ
info = record { base_mint = 4; quote_mint = 9; base_decimals = some 6; quote_decimals = some 9 }

orient-IsFair_example : IsFair 9 info 1_000 50 true (orient 9 info 1_000 50 true zeroed).0
orient-IsFair_example = orient-IsFair 9 info 1_000 50 true zeroed

abbrev meta : Meta
meta = record {
  signature = "sig";
  absolute_path = 2 ∷ 0 ∷ [];
  slot = 500;
  block_time = none;
  failed = false;
}

abbrev at : Moment
at = record { decode_took = 20; now = 100; gap_taken = true; writer_open = true }

abbrev world : World ℕ
world = record {
  metrics = zeroed;
  watermark = 480;
  gaps_attached = true;
  gaps_sent = [];
  events = none;
  written = some [];
}

abbrev bought : TradeEvent ℕ
bought = record {
  mint = 4;
  is_buy = true;
  sol_amount = 50;
  token_amount = 1_000;
  user = 2;
  fee = 1;
}

-- A trade, a trade of a transaction that failed, and another instruction.
abbrev deliveries : List (Delivery ℕ)
deliveries =
    record { meta = meta; at = at; instruction = trade_event bought }
    ∷ record { meta = record meta { failed = true }; at = at; instruction = trade_event bought }
    ∷ record { meta = meta; at = at; instruction = other }
    ∷ []

written-process_all_example :
    (process_all name_of (λ t. t.sol_amount) deliveries world).written
    ≡ some ([] ++ all_rows name_of (λ t. t.sol_amount) deliveries)
written-process_all_example =
    written-process_all name_of (λ t. t.sol_amount) deliveries world [] (refl, (refl, (refl, tt)))
      refl

abbrev buy : BuyEvent ℕ
buy = record { pool = 1; user = 2; base_amount_out = 1_000; quote_amount_in = 50; protocol_fee = 7 }

abbrev cached : Swap ℕ ℕ
cached = record {
  world = world;
  resolver = some (record { cache = (1, info) ∷ []; requests = []; db = some empty_db });
  requested = [];
}

process-Wrote_example :
    Wrote
      ([]
        ++ rows_of 9 name_of
            (λ t. t.base_amount_out)
            (λ t. t.base_amount_in)
            meta
            at
            (buy_event buy)
            cached)
      (process 9 name_of
        (λ t. t.base_amount_out)
        (λ t. t.base_amount_in)
        meta
        at
        true
        served
        (buy_event buy)
        cached)
process-Wrote_example =
    process-Wrote 9 name_of (λ t. t.base_amount_out) (λ t. t.base_amount_in) meta at true
      (buy_event buy) cached [] refl refl

-- A pool is asked for again ten seconds later, with another one between.
abbrev calls : List (Call ℕ)
calls =
    record { pool = 3; now = 100; taken = true }
    ∷ record { pool = 5; now = 5_000_100; taken = true }
    ∷ record { pool = 3; now = 10_000_100; taken = true }
    ∷ []

resolve_once_example : count 3 (queued (resolve_all calls cached)) ≤ count 3 (queued cached) + 1
resolve_once_example =
    resolve_once 100 calls 3 cached
      ((omega arith, omega arith), ((omega arith, omega arith), ((omega arith, omega arith), tt)))

-- A payload is a number: 100 for the event, and a field's own value below that.
abbrev field : ℕ → String → Option ℕ
field v name =
    if name =? "pool"
    then some 1
    else if name =? "user"
    then some 2
    else if name =? "protocol_fee"
    then some 7
    else if (name =? "base_amount_out")
    then some 1_000
    else if name =? "base_amount_in"
    then some 1_000
    else some 50

-- A key's 32 bytes are all the same.
abbrev copies : ℕ → List ℕ
copies n =
    n ∷ n ∷ n ∷ n ∷ n ∷ n ∷ n ∷ n ∷ n ∷ n ∷ n ∷ n ∷ n ∷ n ∷ n ∷ n ∷ n ∷ n ∷ n ∷ n ∷ n ∷ n ∷ n ∷ n
    ∷ n ∷ n ∷ n ∷ n ∷ n ∷ n ∷ n ∷ n ∷ []

abbrev json : Json ℕ
json = record {
  get_field = field;
  as_bool = λ v. some true;
  as_u64 = λ v. some v;
  as_array = λ v. some (copies v);
}

abbrev first_byte : List ℕ → ℕ
first_byte [] = 0
first_byte (b ∷ bs) = b

buy-reads : ReadsBuy 9 name_of json first_byte buy 100
unfolding pubkey_from_json pubkey_from_array bytes_of
buy-reads = ((refl, refl, refl), refl, refl)

process-WroteRepaired_example :
    WroteRepaired 9 name_of json first_byte
      (λ _. 100)
      (λ _. 100)
      (("pool", info) ∷ [])
      zeroed
      []
      (process 9 name_of (λ _. 100) (λ _. 100) meta at true served (buy_event buy) cached)
unfolding get
process-WroteRepaired_example =
    process-WroteRepaired 9 name_of json first_byte (λ _. 100) (λ _. 100) (("pool", info) ∷ []) meta
      at true (buy_event buy) cached [] zeroed refl refl (buy-reads, (info, refl, refl))

abbrev parsed : String → Option ℕ
parsed key = if key =? "token" then some 4 else some 9

-- A logged buy without a trade, whose pool is stored by now.
abbrev unrepaired : Db ℕ
unrepaired = record empty_db {
  events = event_row meta "pumpswap" "BuyEvent" 100 ∷ [];
  pools =
      record {
        pool = "pool";
        base_mint = "token";
        quote_mint = "So11111111111111111111111111111111111111112";
        base_decimals = none;
        quote_decimals = none;
      }
      ∷ [];
}

-- The connection breaks after the first statement was sent.
abbrev breaks : ℕ → Reply
breaks _ = dropped true

run_repair-Filled_example :
    Filled unrepaired
      (repairable 9 name_of json first_byte
        (known_pools parsed (load_pools unrepaired) [])
        (loaded (load_unrepaired (pos 10) unrepaired)))
      (run_repair 9 name_of parsed json first_byte served served breaks (pos 10) unrepaired zeroed)
run_repair-Filled_example =
    run_repair-Filled 9 name_of json first_byte parsed served served breaks (pos 10) unrepaired
      zeroed
