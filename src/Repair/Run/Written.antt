-- ===== src/Repair/Run/Written.antt =====
-- What one statement of a repair run does to the tables, and the pieces of a run (`write_repaired` of
-- src/db.rs, `run_repair` in src/repair.rs).
use solana_realtime_indexer.Prelude.{
  ℕ, All-In, All-of_In, In-append_left, In-append_right, List, [], ◌∷◌, ◌++◌, Bool, true, false,
  ◌≡◌, ◌⊎◌, refl, sym, subst, ap, ◌∙◌, ◌+◌, All, All-map, All-append, In, inl, inr, append-nil,
}
use solana_realtime_indexer.Identity.{key_eq}
use solana_realtime_indexer.Table.{contains}
use solana_realtime_indexer.Table.Laws.{
  contains-insert_rows_old, All-contains-insert_rows, All-insert_rows,
}
use solana_realtime_indexer.Db.Schema.{RepairedTrade, Db, trade_key}
use solana_realtime_indexer.Db.Result.{
  SqlResult, SqlResult-cases, ok, err, Reply, served, dropped, silent,
}
use solana_realtime_indexer.Db.Write.{insert_trades}
use solana_realtime_indexer.Db.Integrity.{IsWellFormed, insert_trades-IsWellFormed}
use solana_realtime_indexer.Writer.Atomic.{insert_trades-ok}
use solana_realtime_indexer.Repair.Run.{
  Run, Outcome, going, failed, awaiting, landed, keep_written, await_written, write_rows,
  write_repaired, write_ready, with_affected,
}

module _ {V : Type 0} where
  abbrev pub HasTrade : Db V → RepairedTrade → Type 0
  HasTrade db r = contains trade_key (trade_key r) db.trades ≡ true

  -- From `db` to `db'` the rows were written, and nothing else: the events, every trade and the
  -- constraints are kept, and a trade that is new is one of the rows.
  pub record Fills (db : Db V) (rows : List RepairedTrade) (db' : Db V) : Type 0 where
    pub well : IsWellFormed db → IsWellFormed db'
    pub events : db'.events ≡ db.events
    pub trades : (r : RepairedTrade) → HasTrade db r → HasTrade db' r
    pub filled : All (HasTrade db') rows
    pub only : All (λ r. In r db.trades ⊎ In r rows) db'.trades

  pub Fills-none : (db : Db V) → Fills db [] db
  Fills-none db = record {
    well = λ w. w;
    events = refl;
    trades = λ r h. h;
    filled = tt;
    only = All-of_In _ db.trades (λ r m. inl m);
  }

  from-either :
      (a b : Db V) (first second : List RepairedTrade) (r : RepairedTrade)
      → All (λ x. In x a.trades ⊎ In x first) b.trades
      → In r b.trades ⊎ In r second
      → In r a.trades ⊎ In r (first ++ second)
  from-either a b first second r h (inr new) = inr (In-append_right r first second new)
  from-either a b first second r h (inl old) =
      elim (All-In (λ x. In x a.trades ⊎ In x first) b.trades h old) [
        | inl older ↦ inl older
        | inr new ↦ inr (In-append_left r first second new)
      ]

  pub Fills-trans :
      (a b c : Db V) (first second : List RepairedTrade)
      → Fills a first b
      → Fills b second c
      → Fills a (first ++ second) c
  Fills-trans a b c first second f g = record {
    well = λ w. g.well (f.well w);
    events = g.events ∙ f.events;
    trades = λ r h. g.trades r (f.trades r h);
    filled = All-append (HasTrade c) first second (All-map _ _ first g.trades f.filled) g.filled;
    only = All-map _ _ c.trades (λ r. from-either a b first second r f.only) g.only;
  }

  insert_trades-Fills :
      (rows : List RepairedTrade) (db db' : Db V)
      → insert_trades rows db ≡ ok db'
      → Fills db rows db'
  insert_trades-Fills rows db db' h =
      let same = insert_trades-ok rows db db' h in
      record {
        well = λ w. insert_trades-IsWellFormed rows db db' w h;
        events = ap (λ d. d.events) same;
        trades = λ r k. rw same (contains-insert_rows_old trade_key (trade_key r) rows db.trades k);
        filled = rw same (All-contains-insert_rows trade_key rows db.trades);
        only = rw same (
            All-insert_rows trade_key (λ r. In r db.trades ⊎ In r rows) rows db.trades
              (All-of_In _ rows (λ r m. inr m)) (All-of_In _ db.trades (λ r m. inl m)));
      }

  abbrev Wrote : Db V → List RepairedTrade → SqlResult (ℕ × Db V) → Type 0
  Wrote db rows (err e) = Unit
  Wrote db rows (ok (n, db')) = Fills db rows db'

  write_repaired-Wrote :
      (rows : List RepairedTrade) (db : Db V) → Wrote db rows (write_repaired rows db)
  unfolding write_repaired
  write_repaired-Wrote [] db = Fills-none db
  write_repaired-Wrote (r ∷ rs) db = elim (SqlResult-cases (insert_trades (r ∷ rs) db)) [
    | inl (db', done) ↦
        subst (λ x. Wrote db (r ∷ rs) (with_affected db x)) (sym done)
          (insert_trades-Fills (r ∷ rs) db db' done)
    | inr (x, refused) ↦ subst (λ y. Wrote db (r ∷ rs) (with_affected db y)) (sym refused) tt
  ]

  -- The rows up to some place were written, and `rest` was not.
  abbrev pub UpTo : Db V → List RepairedTrade → Db V → (rest : List RepairedTrade) → Type 0
  UpTo db rows db' rest = (first : List RepairedTrade) × (first ++ rest ≡ rows) × Fills db first db'

  -- What has become of the rows that waited or were built: those that still wait are the last.
  abbrev pub Fared : Db V → List RepairedTrade → Outcome V → Type 0
  Fared db rows (going s) = UpTo db rows s.db s.ready
  Fared db rows (failed e db') = (rest : List RepairedTrade) × UpTo db rows db' rest
  Fared db rows (awaiting db') = (rest : List RepairedTrade) × UpTo db rows db' rest

  -- The end of a run: no row waits if it returned.
  abbrev pub Filled : Db V → List RepairedTrade → Outcome V → Type 0
  Filled db rows (going s) = Fills db rows s.db × (s.ready ≡ [])
  Filled db rows (failed e db') = (rest : List RepairedTrade) × UpTo db rows db' rest
  Filled db rows (awaiting db') = (rest : List RepairedTrade) × UpTo db rows db' rest

  pub Filled-Fared :
      (db : Db V) (rows : List RepairedTrade) (o : Outcome V) → Filled db rows o → Fared db rows o
  Filled-Fared db rows (going s) (f, empty) = (rows, rw empty (append-nil rows), f)
  Filled-Fared db rows (failed e db') f = f
  Filled-Fared db rows (awaiting db') f = f

  pub nothing_yet : (db : Db V) (rows : List RepairedTrade) → UpTo db rows db rows
  nothing_yet db rows = ([], refl, Fills-none db)

  landed-UpTo :
      (executed : Bool) (db : Db V) (rows : List RepairedTrade) (r : SqlResult (ℕ × Db V))
      → Wrote db rows r
      → (rest : List RepairedTrade) × UpTo db rows (landed executed db r) rest
  landed-UpTo false db rows r w = (rows, nothing_yet db rows)
  landed-UpTo true db rows (err e) w = (rows, nothing_yet db rows)
  landed-UpTo true db rows (ok (n, db')) w = ([], (rows, append-nil rows, w))

  keep_written-Filled :
      (s : Run V) (rows : List RepairedTrade) (r : SqlResult (ℕ × Db V))
      → Wrote s.db rows r
      → Filled s.db rows (keep_written s r)
  keep_written-Filled s rows (err e) w = (rows, nothing_yet s.db rows)
  keep_written-Filled s rows (ok (n, db)) w = (w, refl)

  await_written-Filled :
      (reply : Reply) (s : Run V) (rows : List RepairedTrade) (r : SqlResult (ℕ × Db V))
      → Wrote s.db rows r
      → Filled s.db rows (await_written reply s r)
  await_written-Filled served s rows r w = keep_written-Filled s rows r w
  await_written-Filled (dropped x) s rows r w = landed-UpTo x s.db rows r w
  await_written-Filled (silent x) s rows r w = landed-UpTo x s.db rows r w

  write_rows-Filled :
      (rows : List RepairedTrade) (reply : ℕ → Reply) (s : Run V)
      → Filled s.db rows (write_rows rows reply s)
  write_rows-Filled [] reply s = keep_written-Filled s [] _ (write_repaired-Wrote [] s.db)
  write_rows-Filled (r ∷ rs) reply s =
      await_written-Filled (reply s.statements) (record s { statements = s.statements + 1 })
        (r ∷ rs) (write_repaired (r ∷ rs) s.db) (write_repaired-Wrote (r ∷ rs) s.db)

  pub write_ready-Filled :
      (reply : ℕ → Reply) (s : Run V) → Filled s.db s.ready (write_ready reply s)
  write_ready-Filled reply s = write_rows-Filled s.ready reply s
