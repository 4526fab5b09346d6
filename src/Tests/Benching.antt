-- ===== src/Tests/Benching.antt =====
-- The theorems on the benchmark, where a signature is a list of bytes.
use solana_realtime_indexer.Prelude.{
  ℕ, zero, suc, ◌≡◌, ◌≢◌, refl, ap, String, List, [], ◌∷◌, map, true, false, Option, none, some,
  length, arith, if◌then◌else◌, ◌=?◌, string_eq, ◌↔◌, ◌*◌, ◌<◌, u64_mod,
}
use solana_realtime_indexer.Metrics.{zeroed}
use solana_realtime_indexer.Bench.{SignatureType, Update, transaction, salted}
use solana_realtime_indexer.Bench.Salted.{IsSignature, salted_distinct}
use solana_realtime_indexer.Bench.Paced.{Tick, paced_consume}
use solana_realtime_indexer.Bench.Paced.Sent.{Forwarded, paced_consume-Forwarded}
use solana_realtime_indexer.Bench.Run.{Measured, run_benchmark}
use solana_realtime_indexer.Bench.Verdict.{IsUpToSpeed, Keeps, run_benchmark_iff}
use solana_realtime_indexer.Replay.{Tape, Pipe}
use solana_realtime_indexer.Replay.Passes.{repeated, updates}

-- A signature is a list, read as the 64 bytes that it starts with.
abbrev pad : ℕ → List ℕ → List ℕ
pad zero xs = []
pad (suc n) [] = 0 ∷ pad n []
pad (suc n) (x ∷ xs) = x ∷ pad n xs

length-pad : (n : ℕ) (xs : List ℕ) → length (pad n xs) ≡ n
length-pad zero xs = refl
length-pad (suc n) [] = omega (arith, length-pad n [])
length-pad (suc n) (x ∷ xs) = omega (arith, length-pad n xs)

pad_exact : (n : ℕ) (xs : List ℕ) → length xs ≡ n → pad n xs ≡ xs
pad_exact zero [] e = refl
pad_exact zero (x ∷ xs) e = absurd (omega arith)
pad_exact (suc n) [] e = absurd (omega arith)
pad_exact (suc n) (x ∷ xs) e = ap (λ l. x ∷ l) (pad_exact n xs (omega arith))

abbrev signatures : SignatureType (List ℕ)
signatures = record { as_ref = pad 64; try_from = λ bytes. some bytes }

signatures-IsSignature : IsSignature signatures
signatures-IsSignature = record {
  size = length-pad 64;
  made = λ bytes e. (bytes, refl, pad_exact 64 bytes e);
}

salted_distinct_example :
    salted signatures 1_000 0 (5 ∷ 6 ∷ []) ≢ salted signatures 1_000 503 (5 ∷ 6 ∷ [])
salted_distinct_example =
    salted_distinct signatures 1_000 0 503 (5 ∷ 6 ∷ []) signatures-IsSignature (omega arith)
      (omega arith) (λ e. absurd (omega arith))

abbrev steady : ℕ → Tick
steady _ = record { cancelled = false; taken = true; waited = 3; lag = 7 }

abbrev wide : Pipe
wide = record { room = 9; cancelled = λ _. false }

abbrev blank : Tape (Update (List ℕ) ℕ)
blank = record { sent = []; skipped = 0; replay_skipped = 0; polls = 0 }

-- A line is a transaction, unless it is a question mark.
abbrev as_transaction : String → Option (Update (List ℕ) ℕ)
as_transaction s = if s =? "?" then none else some (transaction (5 ∷ 6 ∷ []) 1)

abbrev fixture : List String
fixture = "a" ∷ "?" ∷ "b" ∷ []

paced_consume-Forwarded_example :
    Forwarded signatures 1_000 steady 50 (repeated 2 (updates as_transaction fixture)) (
      paced_consume signatures 1_000 steady 50 as_transaction wide
        (λ _. some (map (λ l. some l) fixture))
        2
        3
        blank)
paced_consume-Forwarded_example =
    paced_consume-Forwarded signatures 1_000 steady 50 as_transaction wide fixture 2 3 blank
      (λ _. refl) refl (λ _. (refl, refl)) (omega arith) (omega arith) (omega arith) (omega arith)

-- A run that has decoded and committed six events.
abbrev six : Measured
six = record {
  stats = record {
    sent = 4;
    elapsed_us = 40_000;
    max_schedule_lag_us = 12;
    max_channel_send_wait_us = 3;
  };
  metrics = record zeroed {
    events_decoded = 6;
    receive_to_committed = record {
      buckets = 0 ∷ 4 ∷ 2 ∷ 0 ∷ 0 ∷ 0 ∷ 0 ∷ 0 ∷ 0 ∷ 0 ∷ [];
      sum_us = 900;
    };
  };
  slow = false;
  late = false;
}

abbrev rate : ℕ
rate = 100

abbrev repeat : ℕ
repeat = 2

run_benchmark_iff_example :
    IsUpToSpeed (
      run_benchmark
        (λ _. true)
        (some 1_000)
        (some "http://node")
        (λ _. some six)
        rate
        repeat
        3
        (some "postgres://db"))
    ↔ ((rate ≢ 0)
        × (repeat ≢ 0)
        × (3 * repeat < u64_mod)
        × ((url : String) × (some "postgres://db" ≡ some url) × (true ≡ true))
        × Keeps (λ _. some six) (3 * repeat) (some 1_000) (some "http://node"))
run_benchmark_iff_example =
    run_benchmark_iff (λ _. true) (some 1_000) (some "http://node") (λ _. some six) rate repeat 3
      (some "postgres://db")
