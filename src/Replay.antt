-- ===== src/Replay.antt =====
-- `ReplayDatasource::consume` (src/datasources/replay.rs): the lines of a capture, sent down the
-- pipeline once or several times. What the crates make of a line is a record of functions.
pub mod Passes
use solana_realtime_indexer.Prelude.{
  ℕ, zero, suc, ◌+◌, String, List, [], ◌∷◌, ◌++◌, Bool, true, false, not, ◌&&◌, Option, none, some,
  leb, ltb, ◌==◌, length, unwrap_or, if◌then◌else◌,
}
use solana_realtime_indexer.Metrics.{inc}

-- `SubscribeUpdateTransactionInfo`, the fields that are read.
pub record Info (T M : Type 0) : Type 0 where
  pub signature : List ℕ
  pub transaction : Option T
  pub meta : Option M
  pub is_vote : Bool
  pub index : ℕ

-- serde_json, base64, prost and the conversions of yellowstone_grpc_proto.
pub record Codec (J S T M Tx Meta : Type 0) : Type 0 where
  pub from_str : String → Option J
  -- `value["slot"].as_u64()` and `value["data"].as_str()`
  pub slot_field : J → Option ℕ
  pub data_field : J → Option String
  pub base64_decode : String → Option (List ℕ)
  pub decode_info : List ℕ → Option (Info T M)
  pub try_from : List ℕ → Option S
  pub create_tx_versioned : T → Option Tx
  pub create_tx_meta : M → Option Meta

-- `TransactionUpdate`, less the fields that are constant here.
pub record Update (S Tx Meta : Type 0) : Type 0 where
  pub signature : S
  pub transaction : Tx
  pub meta : Meta
  pub is_vote : Bool
  pub slot : ℕ
  pub index : ℕ

-- `let Some(a) = .. else { skip; continue }`.
abbrev pub or_skip : {A B : Type 0} → Option A → (A → Option B) → Option B
or_skip none rest = none
or_skip (some a) rest = rest a

module _ {J S T M Tx Meta : Type 0} (codec : Codec J S T M Tx Meta) where
  unfoldable pub update_of_info : ℕ → Info T M → Option (Update S Tx Meta)
  update_of_info slot info = or_skip (codec.try_from info.signature) λ signature.
      or_skip info.transaction λ raw_tx. or_skip info.meta λ raw_meta.
        or_skip (codec.create_tx_versioned raw_tx) λ transaction.
          or_skip (codec.create_tx_meta raw_meta) λ meta. some (record {
            signature = signature;
            transaction = transaction;
            meta = meta;
            is_vote = info.is_vote;
            slot = slot;
            index = info.index;
          })

  -- The body of the loop up to the send; none where the line is skipped.
  unfoldable pub read_line : String → Option (Update S Tx Meta)
  unfolding update_of_info
  read_line line = or_skip (codec.from_str line) λ value.
      let slot = unwrap_or 0 (codec.slot_field value) in
      or_skip (codec.data_field value) λ text.
        or_skip (codec.base64_decode text)
          λ bytes. or_skip (codec.decode_info bytes) λ info. update_of_info slot info

-- The locals of `consume`, the counter REPLAY_SKIPPED, and how often the token has been read.
pub record Tape (U : Type 0) : Type 0 where
  pub sent : List U
  pub skipped : ℕ
  pub replay_skipped : ℕ
  pub polls : ℕ

-- How a loop is left: by its end, by `break 'passes`, or by an error that is returned.
pub data Flow : Type 0 where
  ended broken failed : Flow

-- The channel takes updates up to `room` in all; `cancelled` is the token at each reading.
pub record Pipe : Type 0 where
  pub room : ℕ
  pub cancelled : ℕ → Bool

module _ {U : Type 0} where
  abbrev pub polled : Tape U → Tape U
  polled t = record t { polls = t.polls + 1 }

  abbrev pub skip : Tape U → Tape U
  skip t = record t { skipped = inc t.skipped; replay_skipped = inc t.replay_skipped }

  abbrev pub push : U → Tape U → Tape U
  push u t = record t { sent = t.sent ++ u ∷ [] }

  -- A line that has been read: skipped, or sent if the receiver is there.
  abbrev pub handle : ℕ → Option U → (Tape U → Flow × Tape U) → Tape U → Flow × Tape U
  handle room none rest t = rest (skip t)
  handle room (some u) rest t = if ltb (length t.sent) room then rest (push u t) else (broken, t)

  -- An I/O error of the reader is returned.
  abbrev pub or_fail : Option String → (String → Flow × Tape U) → Tape U → Flow × Tape U
  or_fail none rest t = (failed, t)
  or_fail (some line) rest t = rest line

  module _ (read : String → Option U) (pipe : Pipe) where
    -- `for line in reader.lines()`.
    unfoldable pub read_lines : List (Option String) → Tape U → Flow × Tape U
    read_lines [] t = (ended, t)
    read_lines (l ∷ ls) t =
        if pipe.cancelled t.polls
        then (broken, polled t)
        else or_fail l (λ line. handle pipe.room (read line) (read_lines ls) (polled t)) (polled t)

    -- One round of `'passes`: a file that cannot be opened is an error.
    unfoldable pub read_pass : Option (List (Option String)) → Tape U → Flow × Tape U
    unfolding read_lines
    read_pass file t =
        if pipe.cancelled t.polls
        then (broken, polled t)
        else elim file [ none ↦ (failed, polled t) | some lines ↦ read_lines lines (polled t) ]

    -- What follows a pass: `pass += 1`, and the end if that is as many as asked for.
    abbrev pub after_pass :
        ℕ → ℕ → (Tape U → Option (Bool × Tape U)) → Flow × Tape U → Option (Bool × Tape U)
    after_pass repeat pass rest (failed, t) = some (false, t)
    after_pass repeat pass rest (broken, t) = some (true, t)
    after_pass repeat pass rest (ended, t) =
        if not (repeat == 0) && leb repeat (pass + 1) then some (true, t) else rest t

    -- The loop `'passes` on fuel, where `files` is the file as it is at each pass: whether it ends
    -- with `Ok`, and the tape; none for lack of fuel.
    unfoldable pub consume :
        (ℕ → Option (List (Option String))) → ℕ → ℕ → ℕ → Tape U → Option (Bool × Tape U)
    unfolding read_pass
    consume files repeat zero pass t = none
    consume files repeat (suc fuel) pass t =
        after_pass repeat pass (consume files repeat fuel (pass + 1)) (read_pass (files pass) t)
