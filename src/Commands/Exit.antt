-- ===== src/Commands/Exit.antt =====
-- When the process exits with 0 (src/main.rs, src/verify.rs).
use solana_realtime_indexer.Prelude.{
  String, List, Bool, true, false, Option, none, some, ◌≡◌, ◌↔◌, sym, ap, ◌∙◌, inl, inr, arith, In,
  Bool-cases, Option-cases,
}
use solana_realtime_indexer.Config.{database_url}
use solana_realtime_indexer.Commands.{
  verify, Environment, Task, run_verify, Returned, broken, verdict, launch, exit_code, main,
}
use solana_realtime_indexer.Db.Schema.{EventRow, Db}
use solana_realtime_indexer.Db.Result.{served}
use solana_realtime_indexer.Identity.{EventId}
use solana_realtime_indexer.Verify.{row_id}
use solana_realtime_indexer.Verify.Run
use solana_realtime_indexer.Verify.Complete.{run_verify_iff}

-- `let clean = run_verify(..).await?`.
abbrev pub returned_of : Option Bool → Returned
returned_of none = broken
returned_of (some clean) = verdict clean

-- The variable is set, and the database can be reached.
abbrev pub IsConnected : Environment → Type 0
IsConnected env = (url : String) × (database_url env.var ≡ some url) × (env.connects url ≡ true)

-- The table has the events of the capture, and no others under their signatures.
abbrev pub IsSameAs : {V : Type 0} → List EventId → Db V → Type 0
IsSameAs {V} ids db =
    ((x : EventId) → In x ids → (r : EventRow V) × In r db.events × (x ≡ row_id r))
    × ((r : EventRow V) (x : EventId)
        → In r db.events
        → In x ids
        → r.signature ≡ x.signature
        → In (row_id r) ids)

exit_zero_iff : (o : Option Bool) → (exit_code (returned_of o) ≡ 0) ↔ (o ≡ some true)
unfolding exit_code
exit_zero_iff none = ground arith
exit_zero_iff (some true) = ground arith
exit_zero_iff (some false) = ground arith

module _ (env : Environment) (task : Task → Returned) (path : String) where
  main-unset : database_url env.var ≡ none → main env task (verify path) ≡ 101
  unfolding main launch
  main-unset unset = ground arith

  main-refused :
      (url : String)
      → database_url env.var ≡ some url
      → env.connects url ≡ false
      → main env task (verify path) ≡ 1
  unfolding main launch
  main-refused url set down = ground arith

  main-connected :
      IsConnected env → main env task (verify path) ≡ exit_code (task (run_verify path))
  unfolding main launch
  main-connected (url, set, up) = ground arith

  zero-IsConnected : main env task (verify path) ≡ 0 → IsConnected env
  zero-IsConnected zero_ = elim (Option-cases (database_url env.var)) [
    | inl unset ↦ absurd (omega (arith, main-unset unset, zero_))
    | inr (url, set) ↦ elim (Bool-cases (env.connects url)) [
      | inl up ↦ (url, set, up)
      | inr down ↦ absurd (omega (arith, main-refused url set down, zero_))
    ]
  ]

  -- `verify` exits with 0 exactly if `DATABASE_URL` is set, the database can be reached, and its table
  -- has each event of the capture and, under the signatures of the capture, no other; given that
  -- the capture could be replayed and the query is answered.
  pub main-verify_iff :
      {V : Type 0} (ids : List EventId) (db : Db V)
      → task (run_verify path) ≡ returned_of (Run.run_verify (some ids) served db)
      → (main env task (verify path) ≡ 0) ↔ (IsConnected env × IsSameAs ids db)
  main-verify_iff ids db ran =
      let verdict_ = exit_zero_iff (Run.run_verify (some ids) served db) in
      let same = run_verify_iff ids db in
      (
        (λ zero_.
            let up = zero-IsConnected zero_ in
            (up, same.0 (verdict_.0 (sym (main-connected up ∙ ap exit_code ran) ∙ zero_)))),
        (λ (up, matches). main-connected up ∙ ap exit_code ran ∙ verdict_.1 (same.1 matches)),
      )
