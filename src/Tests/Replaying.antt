-- ===== src/Tests/Replaying.antt =====
-- The theorems on capture and replay, with printers and readers written out in
-- place of those of the crates.
use Prim.Native.Char.{code}
use Prim.Native.String.{[] as empty, ◌∷◌ as ◌▹◌}
use solana_realtime_indexer.Prelude.{
  ℕ, zero, suc, ◌*◌, refl, String, List, [], ◌∷◌, map, true, false, Option, none, some, arith,
  if◌then◌else◌, ◌=?◌, string_eq, ◌||◌, ◌==◌,
}
use solana_realtime_indexer.Replay.{Info, Codec, Tape, Pipe, consume}
use solana_realtime_indexer.Replay.Passes.{Completed, updates, unread, repeated, consume-Completed}
use solana_realtime_indexer.Capture.{Received, transaction, ping, stream_ended, Printer, Captured}
use solana_realtime_indexer.Capture.RoundTrip.{fresh}

abbrev pipe : Pipe
pipe = record { room = 9; cancelled = λ _. false }

abbrev tape : {U : Type 0} → Tape U
tape = record { sent = []; skipped = 0; replay_skipped = 0; polls = 0 }

-- Lines of one letter are updates.
abbrev letters : String → Option String
letters s = if (s =? "a") || (s =? "b") then some s else none

consume-Completed_example :
    Completed
      (repeated 2 (updates letters ("a" ∷ "?" ∷ "b" ∷ [])))
      (2 * unread letters ("a" ∷ "?" ∷ "b" ∷ []))
      tape
      (consume letters pipe (λ _. some (map (λ l. some l) ("a" ∷ "?" ∷ "b" ∷ []))) 2 3 0 tape)
consume-Completed_example =
    consume-Completed letters pipe (λ _. refl) ("a" ∷ "?" ∷ "b" ∷ []) 2 3 tape (omega arith)
      (omega arith) (omega arith)

-- A number is as many ones, and a semicolon.
abbrev print_nat : ℕ → String → String
print_nat zero rest = ";" ▹ rest
print_nat (suc n) rest = "1" ▹ print_nat n rest

abbrev read_nat : ℕ → String → Option (ℕ × String)
read_nat n empty = none
read_nat n (c ▹ s) = if code c == 49 then read_nat (suc n) s else some (n, s)

abbrev print_bytes : List ℕ → String
print_bytes [] = empty
print_bytes (b ∷ bs) = print_nat b (print_bytes bs)

abbrev read_bytes : ℕ → String → List ℕ
read_bytes n empty = []
read_bytes n (c ▹ s) = if code c == 49 then read_bytes (suc n) s else n ∷ read_bytes 0 s

-- A transaction and its metadata are there or not.
abbrev flag : Option ℕ → ℕ
flag none = 0
flag (some n) = suc n

abbrev unflag : ℕ → Option ℕ
unflag zero = none
unflag (suc n) = some n

abbrev encode_info : Info ℕ ℕ → List ℕ
encode_info i =
    flag i.transaction ∷ flag i.meta ∷ (if i.is_vote then 1 else 0) ∷ i.index ∷ i.signature

abbrev decode_info : List ℕ → Option (Info ℕ ℕ)
decode_info (t ∷ m ∷ v ∷ i ∷ signature) = some (record {
  signature = signature;
  transaction = unflag t;
  meta = unflag m;
  is_vote = v == 1;
  index = i;
})
decode_info _ = none

abbrev codec : Codec (ℕ × String) (List ℕ) ℕ ℕ ℕ ℕ
codec = record {
  from_str = read_nat 0;
  slot_field = λ v. some v.0;
  data_field = λ v. some v.1;
  base64_decode = λ s. some (read_bytes 0 s);
  decode_info = decode_info;
  try_from = λ bytes. some bytes;
  create_tx_versioned = λ t. some t;
  create_tx_meta = λ m. some m;
}

abbrev printer : Printer ℕ ℕ
printer = record {
  encode_info = encode_info;
  base64_encode = print_bytes;
  bs58_encode = print_bytes;
  print_line = λ slot signature text. print_nat slot text;
}

-- Two transactions, one of them without metadata, a ping, and the end of the stream.
abbrev stream : List (Received ℕ ℕ)
stream =
    transaction 7
      (some (record {
        signature = 3 ∷ [];
        transaction = some 5;
        meta = some 5;
        is_vote = false;
        index = 0;
      }))
      true
    ∷ ping true
    ∷ transaction 8
        (some (record {
          signature = 4 ∷ [];
          transaction = some 5;
          meta = none;
          is_vote = false;
          index = 1;
        }))
        true
    ∷ stream_ended
    ∷ []

-- Nothing of what could not be flushed.
abbrev lose : Captured → Captured
lose _ = fresh
