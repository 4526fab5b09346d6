-- ===== src/Writer/Admitted.antt =====
-- Batches that no constraint of the schema refuses (src/writer.rs, `write_batch`; migrations/).
use solana_realtime_indexer.Prelude.{
  ◌≡◌, refl, ap, ◌∙◌, String, List, [], ◌∷◌, map, true, Option, none, some, Option-cases, ℤ, ◌⊎◌,
  inl, inr, arith, All, All-map, All-of_In, In-map, subst,
}
use solana_realtime_indexer.Identity.{key_eq}
use solana_realtime_indexer.Table.{contains, insert_rows}
use solana_realtime_indexer.Table.Laws.{All-insert_rows, contains-insert_rows}
use solana_realtime_indexer.Db.Schema.{
  EventRow, TradeRow, PendingWrite, RepairedTrade, Db, event_key, trade_key,
}
use solana_realtime_indexer.Db.Result.{SqlResult, ok, Reply, served}
use solana_realtime_indexer.Db.Write.{
  side_check, amounts_fit, admit_trades, references_hold, trade_pairs, write_events, write_trades,
  insert_trades, trade_columns, write_checkpoint,
}
use solana_realtime_indexer.Db.Integrity.{IsAdmitted, IsWellFormed, references-insert_events}
use solana_realtime_indexer.Writer.Flush.{done, Trips, stage, commit, write_batch}
use solana_realtime_indexer.Writer.Atomic.{applied, stage-applied}

List-cases : {A : Type 0} (xs : List A) → (xs ≡ []) ⊎ ((x : A) × (ys : List A) × (xs ≡ x ∷ ys))
List-cases [] = inl refl
List-cases (x ∷ xs) = inr (x, xs, refl)

-- The five round trips of a flush are answered.
pub record IsAnswered (t : Trips) : Type 0 where
  pub begin : t.begin ≡ served
  pub events : t.events ≡ served
  pub trades : t.trades ≡ served
  pub checkpoint : t.checkpoint ≡ served
  pub commit : t.commit ≡ served

-- The side and the amounts are ones that the columns of `trades` take.
abbrev pub IsTyped : Option TradeRow → Type 0
IsTyped none = Unit
IsTyped (some t) = (side_check t.side ≡ true) × (amounts_fit t ≡ true)

All-admit_trades : (rows : List RepairedTrade) → All IsAdmitted rows → admit_trades rows ≡ ok tt
unfolding admit_trades
All-admit_trades [] h = refl
All-admit_trades (r ∷ rs) h = ground (arith, All-admit_trades rs)

module _ {V : Type 0} where
  abbrev pub IsSound : PendingWrite V → Type 0
  IsSound r = IsTyped r.trade

  -- What is so of the row of each trade of a batch.
  All-trade_pairs :
      (P : RepairedTrade → Type 0) (batch : List (PendingWrite V))
      → All
          (λ (r : PendingWrite V). (t : TradeRow) → r.trade ≡ some t → P (trade_columns r.event t))
          batch
      → All P (trade_pairs batch)
  unfolding trade_pairs
  All-trade_pairs P [] h = tt
  All-trade_pairs P (r ∷ rs) h = elim (Option-cases r.trade) [
    | inl bare ↦ rw bare (All-trade_pairs P rs h.1)
    | inr (t, e) ↦ rw e (h.0 t e, All-trade_pairs P rs h.1)
  ]

  typed-IsAdmitted :
      (r : PendingWrite V) (t : TradeRow)
      → IsSound r
      → r.trade ≡ some t
      → IsAdmitted (trade_columns r.event t)
  typed-IsAdmitted r t h e = subst IsTyped e h

  abbrev HasEvent : List (EventRow V) → RepairedTrade → Type 0
  HasEvent events t = contains event_key (trade_key t) events ≡ true

  references-All :
      (events : List (EventRow V)) (trades : List RepairedTrade)
      → references_hold events trades ≡ true
      → All (HasEvent events) trades
  unfolding references_hold
  references-All events [] h = tt
  references-All events (t ∷ ts) h = (ground arith, references-All events ts (ground arith))

  All-references :
      (events : List (EventRow V)) (trades : List RepairedTrade)
      → All (HasEvent events) trades
      → references_hold events trades ≡ true
  unfolding references_hold
  All-references events [] h = refl
  All-references events (t ∷ ts) h = ground (arith, All-references events ts)

  -- The trades of a batch refer to its events.
  batch-references :
      (batch : List (PendingWrite V)) (db : Db V)
      → IsWellFormed db
      → let events = insert_rows event_key (map (λ r. r.event) batch) db.events in
        references_hold events (insert_rows trade_key (trade_pairs batch) db.trades) ≡ true
  batch-references batch db w =
      let rows = map (λ (r : PendingWrite V). r.event) batch in
      let events = insert_rows event_key rows db.events in
      All-references events (insert_rows trade_key (trade_pairs batch) db.trades) (
        All-insert_rows trade_key (HasEvent events) (trade_pairs batch) db.trades
          (All-trade_pairs (HasEvent events) batch (
            All-of_In _ batch (λ r m t e.
              contains-insert_rows event_key rows db.events r.event
                (In-map (λ (x : PendingWrite V). x.event) batch r m))))
          (references-All events db.trades
            (references-insert_events rows db.events db.trades w.references)))

  sound-admitted :
      (batch : List (PendingWrite V)) → All IsSound batch → admit_trades (trade_pairs batch) ≡ ok tt
  sound-admitted batch h = All-admit_trades (trade_pairs batch) (
      All-trade_pairs IsAdmitted batch
        (All-map IsSound _ batch (λ r s t e. typed-IsAdmitted r t s e) h))

  pairs-inserted :
      (pairs : List RepairedTrade) (db : Db V)
      → admit_trades pairs ≡ ok tt
      → references_hold db.events (insert_rows trade_key pairs db.trades) ≡ true
      → insert_trades pairs db ≡ ok (record db { trades = insert_rows trade_key pairs db.trades })
  unfolding insert_trades
  pairs-inserted pairs db a h = ground arith

  write_trades-admitted :
      (batch : List (PendingWrite V)) (db : Db V)
      → IsWellFormed db
      → All IsSound batch
      → (d : Db V) × (write_trades batch (write_events batch db) ≡ ok d)
  unfolding write_trades write_events
  write_trades-admitted batch db w h =
      go (trade_pairs batch) (sound-admitted batch h) (batch-references batch db w)
    where
      written : Db V
      written = record db { events = insert_rows event_key (map (λ r. r.event) batch) db.events }

      go :
          (pairs : List RepairedTrade)
          → admit_trades pairs ≡ ok tt
          → references_hold written.events (insert_rows trade_key pairs db.trades) ≡ true
          → (d : Db V) × (elim pairs as (λ _. SqlResult (Db V)) [
            | [] ↦ ok written
            | p ∷ ps ↦ insert_trades (p ∷ ps) written
          ]
              ≡ ok d)
      go [] a r = (written, refl)
      go (p ∷ ps) a r = (
        record written { trades = insert_rows trade_key (p ∷ ps) db.trades },
        pairs-inserted (p ∷ ps) written a r,
      )

  stage-done :
      (t : Trips) (batch : List (PendingWrite V)) (slot : ℤ) (signature : String) (db d : Db V)
      → IsAnswered t
      → write_trades batch (write_events batch db) ≡ ok d
      → (tx : Db V) × (stage t batch slot signature db ≡ done tx)
  unfolding stage trade_pairs
  stage-done t [] slot signature db d a e =
      (write_checkpoint slot signature db, rw (a.begin, a.checkpoint) refl)
  stage-done t (r ∷ rs) slot signature db d a e = elim (List-cases (trade_pairs (r ∷ rs))) [
    | inl none_ ↦ (write_checkpoint slot signature (write_events (r ∷ rs) db), ground arith)
    | inr (p, ps, these) ↦ (write_checkpoint slot signature d, ground arith)
  ]

  committed : (reply : Reply) (db tx : Db V) → reply ≡ served → commit reply db tx ≡ (done tt, tx)
  unfolding commit
  committed reply db tx e = rw e refl

  -- The transaction of a flush, when its statements are answered, commits all of a batch whose
  -- trades have a side and amounts that the columns take.
  pub sound-applied :
      (t : Trips) (batch : List (PendingWrite V)) (slot : ℤ) (signature : String) (db : Db V)
      → IsAnswered t
      → IsWellFormed db
      → All IsSound batch
      → write_batch t batch slot signature db ≡ (done tt, applied batch slot signature db)
  unfolding write_batch commit
  sound-applied t batch slot signature db a w h =
      let (d, e) = write_trades-admitted batch db w h in
      let (tx, staged) = stage-done t batch slot signature db d a e in
      rw (staged, write_batch)
        (committed t.commit db tx a.commit
          ∙ ap (λ x. (done tt, x)) (stage-applied t batch slot signature db tx staged))
