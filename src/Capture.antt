-- ===== src/Capture.antt =====
-- `run_capture` (src/capture.rs): the transactions of a live stream, written to a file line by line.
pub mod RoundTrip
use solana_realtime_indexer.Prelude.{
  ℕ, ◌+◌, String, List, [], ◌∷◌, ◌++◌, Bool, true, false, Option, none, some, if◌then◌else◌,
}
use solana_realtime_indexer.Replay.{Info}

-- What one turn of the loop before the deadline gets: an update of the stream, its error or its
-- end, or five seconds without any. The flags say whether the line could be written, and whether
-- the ping could be answered.
pub data Received (T M : Type 0) : Type 0 where
  transaction : (slot : ℕ) (info : Option (Info T M)) (written : Bool) → Received T M
  ping : (answered : Bool) → Received T M
  other : Received T M
  stream_error : Received T M
  stream_ended : Received T M
  silence : Received T M

-- prost, base64, bs58 and serde_json.
pub record Printer (T M : Type 0) : Type 0 where
  pub encode_info : Info T M → List ℕ
  pub base64_encode : List ℕ → String
  pub bs58_encode : List ℕ → String
  -- the object with the fields `slot`, `signature` and `data`, as text
  pub print_line : ℕ → String → String → String

-- The lines that `out` was given and how many have been written.
pub record Captured : Type 0 where
  pub lines : List String
  pub written : ℕ

-- How the loop ends: at the deadline or the end of the stream, with an error of the stream, or with
-- one of the file.
pub data Ended : Type 0 where
  finished failed unwritten : Ended

module _ {T M : Type 0} (printer : Printer T M) where
  unfoldable pub line_of : ℕ → Info T M → String
  line_of slot info =
      printer.print_line slot (printer.bs58_encode info.signature)
        (printer.base64_encode (printer.encode_info info))

  abbrev pub write_line : ℕ → Info T M → Captured → Captured
  write_line slot info c = record {
    lines = c.lines ++ line_of slot info ∷ [];
    written = c.written + 1;
  }

  -- The loop, over what it gets until the deadline: how it ends, and what `out` was given.
  unfoldable pub capture_loop : List (Received T M) → Captured → Ended × Captured
  unfolding line_of
  capture_loop [] c = (finished, c)
  capture_loop (transaction slot none w ∷ rest) c = capture_loop rest c
  capture_loop (transaction slot (some info) true ∷ rest) c =
      capture_loop rest (write_line slot info c)
  capture_loop (transaction slot (some info) false ∷ rest) c = (unwritten, c)
  capture_loop (ping true ∷ rest) c = capture_loop rest c
  capture_loop (ping false ∷ rest) c = (failed, c)
  capture_loop (other ∷ rest) c = capture_loop rest c
  capture_loop (stream_error ∷ rest) c = (failed, c)
  capture_loop (stream_ended ∷ rest) c = (finished, c)
  capture_loop (silence ∷ rest) c = capture_loop rest c

  -- The loop, and what becomes of the buffer of `out`: it is flushed at the end, or when `out` is
  -- dropped on the way out with an error. `flushed` says whether that succeeds; if it does not, or
  -- if a line could not be written before, the file is what `torn` makes of the lines.
  unfoldable pub run_capture :
      (flushed : Bool)
      → (torn : Captured → Captured) → List (Received T M)
      → Captured
      → Bool × Captured
  unfolding capture_loop
  run_capture flushed torn rs c =
      let (ended, given) = capture_loop rs c in
      let file = if flushed then given else torn given in
      elim ended [
        | finished ↦ (flushed, file)
        | failed ↦ (false, file)
        | unwritten ↦ (false, torn given)
      ]
