-- ===== src/Tests/Recovering.antt =====
-- The theorems on backfill, recovery and verification at sample gaps.
use solana_realtime_indexer.Prelude.{
  ◌==◌, arith, String, List, In, as_i64, ◌≤ℤ◌, false, ◌++◌, ℕ, ◌≡◌, ◌↔◌, refl, [], ◌∷◌, Option,
  none, some, pos, ltb, as_u64, if◌then◌else◌, true, All, string_eq,
}
use solana_realtime_indexer.Identity.{EventId}
use solana_realtime_indexer.Db.Schema.{EventRow, GapRow, Db}
use solana_realtime_indexer.Backfill.{fetch_block}
use solana_realtime_indexer.Backfill.Fetch.{first_of_four, fetch_block-returns}
use solana_realtime_indexer.Backfill.Consume.{BlockTransaction, Block, consume_slots}
use solana_realtime_indexer.Backfill.Consume.Sent.{IsCut, of_slots, consume_slots-IsCut}
use solana_realtime_indexer.Verify.{row_id}
use solana_realtime_indexer.Recover.{
  run_recover, recover_loop, recover_gap, run_gap, fetch_gap, mark_gap, statement, any_covers,
  open_rows, open_gaps,
}
use solana_realtime_indexer.Recover.Fetched.{IsHealed, run_recover-IsHealed}
use solana_realtime_indexer.Recover.Progress.{Advances, IsDistinct, run_recover-Advances}
use solana_realtime_indexer.Db.Result.{Reply, served, dropped}
use solana_realtime_indexer.Verify.Run.{run_verify, run_verify_range}
use solana_realtime_indexer.Verify.Complete.{run_verify_iff, run_verify_range_iff}
use solana_realtime_indexer.Tests.{empty_db, event_at, brings, Brought, brings-IsFetcher}

-- A node that answers from the third attempt on.
abbrev node : ℕ → Option ℕ
node attempt = if ltb attempt 3 then none else some 42

fetch_block-returns_example : fetch_block node ≡ some (first_of_four node)
fetch_block-returns_example = fetch_block-returns node

abbrev id : ℕ → EventId
id n = record { signature = "sig"; absolute_path = n ∷ []; event_ordinal = 0 }

abbrev gap : ℕ → ℕ → ℕ → GapRow
gap gap_id start end = record {
  gap_id = gap_id;
  start_slot = pos start;
  end_slot = pos end;
  missed_slots = pos 10;
  detected_at = 1;
  recovered_at = none;
  recovery_method = none;
  status = "open";
  detected_by = "watermark";
}

-- The second gap lies within the first.
abbrev gapped : Db ℕ
gapped = record empty_db { stream_gaps = gap 1 500 700 ∷ gap 2 550 600 ∷ [] }

recovers : (run_recover (λ _ _. served) brings 9 served gapped).finished ≡ true
unfolding run_recover recover_loop recover_gap run_gap fetch_gap mark_gap statement any_covers
    open_rows as_u64
recovers = refl

run_recover-IsHealed_example :
    All
      (IsHealed
        (λ _ _. served)
        brings
        9
        Brought
        brings-IsFetcher
        (run_recover (λ _ _. served) brings 9 served gapped).db.events)
      (open_gaps gapped)
run_recover-IsHealed_example =
    run_recover-IsHealed (λ _ _. served) brings 9 Brought brings-IsFetcher served gapped recovers

abbrev row_ids : List EventId
row_ids = record { signature = "a"; absolute_path = 1 ∷ []; event_ordinal = 0 } ∷ []

abbrev with_row : Db ℕ
with_row = record empty_db { events = event_at "a" 10 ∷ [] }

run_verify_iff_example : (run_verify (some row_ids) served with_row ≡ some true) ↔ (
    ((x : EventId) → In x row_ids → (r : EventRow ℕ) × In r with_row.events × (x ≡ row_id r))
    × ((r : EventRow ℕ) (x : EventId)
        → In r with_row.events
        → In x row_ids
        → r.signature ≡ x.signature
        → In (row_id r) row_ids))
run_verify_iff_example = run_verify_iff row_ids with_row

run_verify_range_iff_example :
    (run_verify_range 5 20 (some row_ids) served with_row ≡ some true) ↔ (
      ((x : EventId)
        → In x row_ids
        → (r : EventRow ℕ) × In r with_row.events
          × (as_i64 5 ≤ℤ r.slot)
          × (r.slot ≤ℤ as_i64 20)
          × (x ≡ row_id r))
      × ((r : EventRow ℕ)
          → In r with_row.events
          → as_i64 5 ≤ℤ r.slot
          → r.slot ≤ℤ as_i64 20
          → In (row_id r) row_ids))
run_verify_range_iff_example = run_verify_range_iff 5 20 row_ids with_row

-- The connection breaks when the second gap is to be closed.
abbrev breaks : ℕ → String → Reply
breaks gap_id status = if gap_id == 2 then dropped false else served

gapped-IsDistinct : IsDistinct (open_gaps gapped)
unfolding open_rows
gapped-IsDistinct = ((ground arith, tt), (tt, tt))

run_recover-Advances_example :
    Advances 9
      (open_gaps gapped)
      gapped.stream_gaps
      (run_recover breaks (λ _ db. (true, db)) 9 served gapped).finished
      (run_recover breaks (λ _ db. (true, db)) 9 served gapped).db.stream_gaps
run_recover-Advances_example =
    run_recover-Advances breaks (λ _ db. (true, db)) 9 (λ range db. refl) served gapped
      gapped-IsDistinct

abbrev read_tx : ℕ → BlockTransaction ℕ ℕ
read_tx n = record { decoded = some n; meta = some 0 }

-- Slot 1 has three transactions, one without metadata; slot 2 cannot be fetched; slot 3 has one.
abbrev chain : ℕ → ℕ → Option (Block ℕ ℕ)
chain slot attempt =
    if slot == 1
    then some (record {
      block_time = none;
      transactions = some (read_tx 7 ∷ record { decoded = some 8; meta = none } ∷ read_tx 9 ∷ []);
    })
    else if slot == 2
    then none
    else some (record { block_time = none; transactions = some (read_tx 10 ∷ []) })

consume_slots-IsCut_example :
    IsCut 2
      ([] ++ of_slots (λ (r : ℕ). some r) (λ (d : ℕ). some d) chain (λ _. false) (1 ∷ 2 ∷ 3 ∷ []))
      (consume_slots
        (λ (r : ℕ). some r)
        (λ (d : ℕ). some d)
        chain
        (λ _. false)
        2
        (1 ∷ 2 ∷ 3 ∷ [])
        [])
consume_slots-IsCut_example =
    consume_slots-IsCut (λ (r : ℕ). some r) (λ (d : ℕ). some d) chain (λ _. false) 2
      (1 ∷ 2 ∷ 3 ∷ []) [] (omega arith)
