-- ===== src/Processors/Pumpfun/Run.antt =====
-- What a run of the pump.fun processor writes and logs (src/processors/pumpfun.rs).
use solana_realtime_indexer.Prelude.{
  String, List, [], ◌∷◌, ◌++◌, true, some, ◌≡◌, ◌∙◌, ap, arith, if◌then◌else◌, append_assoc,
  append-nil, All,
}
use solana_realtime_indexer.Db.Schema.{PendingWrite}
use solana_realtime_indexer.Processors.World.{Meta, Moment, World}
use solana_realtime_indexer.Processors.Pumpfun.{
  TradeEvent, Instruction, trade_event, other, pending, process,
}

-- An instruction as the pipeline delivers it.
pub record Delivery (P : Type 0) : Type 0 where
  pub meta : Meta
  pub at : Moment
  pub instruction : Instruction P

module _ {P V : Type 0} (to_string : P → String) (to_value : TradeEvent P → V) where
  unfoldable pub process_all : List (Delivery P) → World V → World V
  process_all [] w = w
  process_all (d ∷ ds) w = process_all ds (process to_string to_value d.meta d.at d.instruction w)

  -- The trades of the transactions that succeeded, as rows.
  abbrev pub rows_of : Delivery P → List (PendingWrite V)
  rows_of d = if d.meta.failed then [] else elim d.instruction [
    | other ↦ []
    | trade_event trade ↦ pending to_string to_value d.meta d.at trade ∷ []
  ]

  abbrev pub all_rows : List (Delivery P) → List (PendingWrite V)
  all_rows [] = []
  all_rows (d ∷ ds) = rows_of d ++ all_rows ds

  pub written-process :
      (d : Delivery P) (w : World V) (rows : List (PendingWrite V))
      → d.at.writer_open ≡ true
      → w.written ≡ some rows
      → (process to_string to_value d.meta d.at d.instruction w).written ≡ some (rows ++ rows_of d)
  unfolding process
  written-process d w rows h e = ground (arith, append-nil rows)

  -- While the writer task receives, a run sends it the trades of the transactions that succeeded,
  -- each once and in the order of the stream, and nothing else.
  pub written-process_all :
      (ds : List (Delivery P)) (w : World V) (rows : List (PendingWrite V))
      → All (λ (d : Delivery P). d.at.writer_open ≡ true) ds
      → w.written ≡ some rows
      → (process_all ds w).written ≡ some (rows ++ all_rows ds)
  unfolding process_all
  written-process_all [] w rows h e = rw append-nil e
  written-process_all (d ∷ ds) w rows h e =
      written-process_all ds (process to_string to_value d.meta d.at d.instruction w)
        (rows ++ rows_of d) h.1 (written-process d w rows h.0 e)
      ∙ ap some (append_assoc rows (rows_of d) (all_rows ds))
