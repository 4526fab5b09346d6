-- ===== src/Capture/RoundTrip.antt =====
-- A capture, replayed (src/capture.rs, src/datasources/replay.rs).
use solana_realtime_indexer.Prelude.{ℕ, String, List, [], ◌∷◌, true, false, none, some, ◌≡◌}
use solana_realtime_indexer.Replay.{Info, Codec, Update, update_of_info}
use solana_realtime_indexer.Replay.Passes.{prepend}
use solana_realtime_indexer.Capture.{
  Received, transaction, ping, other, stream_error, stream_ended, silence, Printer, Captured,
  line_of,
}

-- The transactions that the loop writes, with their slots.
abbrev pub taken : {T M : Type 0} → List (Received T M) → List (ℕ × Info T M)
taken [] = []
taken (transaction slot none w ∷ rest) = taken rest
taken (transaction slot (some info) true ∷ rest) = (slot, info) ∷ taken rest
taken (transaction slot (some info) false ∷ rest) = []
taken (ping true ∷ rest) = taken rest
taken (ping false ∷ rest) = []
taken (other ∷ rest) = taken rest
taken (stream_error ∷ rest) = []
taken (stream_ended ∷ rest) = []
taken (silence ∷ rest) = taken rest

-- The line could be written.
abbrev pub WasWritten : {T M : Type 0} → Received T M → Type 0
WasWritten (transaction slot none w) = Unit
WasWritten (transaction slot (some info) w) = w ≡ true
WasWritten (ping _) = Unit
WasWritten other = Unit
WasWritten stream_error = Unit
WasWritten stream_ended = Unit
WasWritten silence = Unit

abbrev pub fresh : Captured
fresh = record { lines = []; written = 0 }

module _ {J S T M Tx Meta : Type 0} (codec : Codec J S T M Tx Meta) (printer : Printer T M) where
  -- What the crates promise: each reads what its counterpart writes.
  pub record IsInverse : Type 0 where
    pub json : ℕ → String → String → J
    pub parse :
        (n : ℕ) (s d : String) → codec.from_str (printer.print_line n s d) ≡ some (json n s d)
    pub slot : (n : ℕ) (s d : String) → codec.slot_field (json n s d) ≡ some n
    pub text : (n : ℕ) (s d : String) → codec.data_field (json n s d) ≡ some d
    pub base64 : (bytes : List ℕ) → codec.base64_decode (printer.base64_encode bytes) ≡ some bytes
    pub protobuf : (info : Info T M) → codec.decode_info (printer.encode_info info) ≡ some info

  -- The updates of the transactions that the conversions take.
  abbrev pub captured_updates : List (ℕ × Info T M) → List (Update S Tx Meta)
  captured_updates [] = []
  captured_updates ((slot, info) ∷ rest) =
      prepend (update_of_info codec slot info) (captured_updates rest)

  abbrev pub file_of : List (ℕ × Info T M) → List String
  file_of [] = []
  file_of ((slot, info) ∷ rest) = line_of printer slot info ∷ file_of rest
