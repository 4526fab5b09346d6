-- ===== src/Bench/Paced/Sent.antt =====
-- What a paced replay sends down the pipeline (src/bench.rs, src/datasources/replay.rs).
use solana_realtime_indexer.Prelude.{
  ℕ, ◌+◌, ◌*◌, ◌%◌, ◌≤◌, ◌<◌, String, List, [], ◌∷◌, ◌++◌, map, Bool, true, false, Option, none,
  some, ◌≡◌, sym, ◌∙◌, ap, arith, length, append_assoc, append-nil, u64_mod,
}
use solana_realtime_indexer.Bench.{
  finish, record_schedule_lag, record_channel_send_wait, SignatureType, Update, Forward, forward,
  make_signature_unique,
}
use solana_realtime_indexer.Bench.Paced.{Tick, no_stats, turns_of, forwarder, joined, paced_consume}
use solana_realtime_indexer.Replay.{Tape, Pipe}
use solana_realtime_indexer.Replay.Passes.{Completed, repeated, updates, unread, consume-Completed}

-- The pipeline takes each update, and the token is not cancelled.
abbrev pub IsOpen : (ℕ → Tick) → Type 0
IsOpen ticks = (i : ℕ) → ((ticks i).cancelled ≡ false) × ((ticks i).taken ≡ true)

module _ {S R : Type 0} (sig : SignatureType S) (salt : ℕ) where
  -- Each update with the signature for its place.
  abbrev pub all_salted : ℕ → List (Update S R) → List (Update S R)
  all_salted i [] = []
  all_salted i (u ∷ us) = make_signature_unique sig salt i u ∷ all_salted (i + 1) us

  pub record IsForwarded (us : List (Update S R)) (f f' : Forward S R) : Type 0 where
    pub sent : f'.sent ≡ f.sent + length us
    pub updates : f'.updates ≡ f.updates ++ all_salted f.sent us

  forward-IsForwarded :
      (ticks : ℕ → Tick) (i : ℕ) (us : List (Update S R)) (f : Forward S R)
      → IsOpen ticks
      → f.sent + length us < u64_mod
      → IsForwarded us f (forward sig salt (turns_of ticks i us) f)
  unfolding forward turns_of
  forward-IsForwarded ticks i [] f open_ small = record {
    sent = omega arith;
    updates = sym (append-nil f.updates);
  }
  forward-IsForwarded ticks i (u ∷ us) f open_ small =
      let next : Forward S R = record {
        stats =
            record_schedule_lag (ticks i).lag (record_channel_send_wait (ticks i).waited f.stats);
        sent = (f.sent + 1) % u64_mod;
        updates = f.updates ++ make_signature_unique sig salt f.sent u ∷ [];
      } in
      let moved : next.sent ≡ f.sent + 1 = omega arith in
      let rest = forward-IsForwarded ticks (i + 1) us next open_ (omega (arith, moved)) in
      rw ((open_ i).0, (open_ i).1)
        (record {
          sent = omega (arith, rest.sent, moved);
          updates =
              rest.updates
              ∙ ap (λ n. next.updates ++ all_salted n us) moved
              ∙ append_assoc f.updates (make_signature_unique sig salt f.sent u ∷ [])
                  (all_salted (f.sent + 1) us);
        })

  module _ (ticks : ℕ → Tick) (elapsed : ℕ) where
    -- The datasource has returned `Ok`, after these updates, and their number is in the statistics.
    abbrev pub Forwarded : List (Update S R) → Option (Bool × Forward S R) → Type 0
    Forwarded us none = ⊥
    Forwarded us (some (ok, f)) =
        (ok ≡ true) × (f.updates ≡ all_salted 0 us) × (f.stats.sent ≡ length us)

    forwarder-sent :
        (us : List (Update S R))
        → IsOpen ticks
        → length us < u64_mod
        → ((forwarder sig salt ticks elapsed us).updates ≡ all_salted 0 us)
          × ((forwarder sig salt ticks elapsed us).stats.sent ≡ length us)
    unfolding forwarder finish
    forwarder-sent us open_ small =
        let start : Forward S R = record { stats = no_stats; sent = 0; updates = [] } in
        let f = forward-IsForwarded ticks 0 us start open_ (omega arith) in
        (f.updates, omega (arith, f.sent))

    joined-Forwarded :
        (due : List (Update S R)) (missed : ℕ) (t : Tape (Update S R))
        (o : Option (Bool × Tape (Update S R)))
        → t.sent ≡ []
        → IsOpen ticks
        → length due < u64_mod
        → Completed due missed t o
        → Forwarded due (joined sig salt ticks elapsed o)
    joined-Forwarded due missed t none fresh open_ small c = c
    joined-Forwarded due missed t (some (ok, t')) fresh open_ small (e, p) =
        let all : t'.sent ≡ due = p.sent ∙ ap (λ l. l ++ due) fresh in
        let (these, count) = forwarder-sent due open_ small in rw all (e, these, count)

    -- A benchmark of a readable file that is to be played one or more times, is not cancelled and
    -- finds its pipeline there: its datasource ends with `Ok`, given as much fuel as passes. It has
    -- sent the updates of the lines that can be read, pass after pass in the order of the file, each
    -- with the signature made for its place in the run, and the statistics have their number (fewer
    -- than 2 ^ 64).
    pub paced_consume-Forwarded :
        (read : String → Option (Update S R)) (pipe : Pipe) (ls : List String) (repeat fuel : ℕ)
        (t : Tape (Update S R))
        → ((n : ℕ) → pipe.cancelled n ≡ false)
        → t.sent ≡ []
        → IsOpen ticks
        → 0 < repeat
        → repeat ≤ fuel
        → length (repeated repeat (updates read ls)) ≤ pipe.room
        → length (repeated repeat (updates read ls)) < u64_mod
        → Forwarded (repeated repeat (updates read ls)) (
            paced_consume sig salt ticks elapsed read pipe
              (λ _. some (map (λ l. some l) ls))
              repeat
              fuel
              t)
    unfolding paced_consume
    paced_consume-Forwarded read pipe ls repeat fuel t runs fresh open_ some_ fuelled room small =
        joined-Forwarded (repeated repeat (updates read ls)) (repeat * unread read ls) t _ fresh
          open_ small
          (consume-Completed read pipe runs ls repeat fuel t some_ fuelled
            (omega (arith, ap length fresh)))
