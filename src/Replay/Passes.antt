-- ===== src/Replay/Passes.antt =====
-- What a replay sends and counts (src/datasources/replay.rs).
use solana_realtime_indexer.Prelude.{
  ℕ, zero, suc, ◌+◌, ◌*◌, ◌%◌, ◌≤◌, ◌<◌, String, List, [], ◌∷◌, ◌++◌, map, Bool, true, false, not,
  ◌&&◌, Option, none, some, leb, ltb, ◌==◌, length, length-append, ◌≡◌, refl, sym, ◌∙◌, ap, subst,
  arith, append-nil, append_assoc, u64_mod,
}
use solana_realtime_indexer.Metrics.{inc}
use solana_realtime_indexer.Replay.{
  Tape, Flow, ended, broken, failed, Pipe, polled, skip, push, handle, read_lines, read_pass,
  after_pass, consume,
}

module _ {U : Type 0} where
  abbrev pub prepend : Option U → List U → List U
  prepend none us = us
  prepend (some u) us = u ∷ us

  abbrev pub missed_by : Option U → ℕ
  missed_by none = 1
  missed_by (some u) = 0

  -- What a run over some lines has done to the tape.
  pub record IsPlayed (due : List U) (missed : ℕ) (t t' : Tape U) : Type 0 where
    pub sent : t'.sent ≡ t.sent ++ due
    pub skipped : t'.skipped % u64_mod ≡ (t.skipped + missed) % u64_mod
    pub counted : t'.replay_skipped % u64_mod ≡ (t.replay_skipped + missed) % u64_mod

  -- A loop that has come to its end, as `IsPlayed` says.
  abbrev pub Played : List U → ℕ → Tape U → Flow × Tape U → Type 0
  Played due missed t (f, t') = (f ≡ ended) × IsPlayed due missed t t'

  -- The loop has ended with `Ok`, as `IsPlayed` says.
  abbrev pub Completed : List U → ℕ → Tape U → Option (Bool × Tape U) → Type 0
  Completed due missed t none = ⊥
  Completed due missed t (some (ok, t')) = (ok ≡ true) × IsPlayed due missed t t'

  nothing-IsPlayed :
      (t t' : Tape U)
      → t'.sent ≡ t.sent
      → t'.skipped ≡ t.skipped
      → t'.replay_skipped ≡ t.replay_skipped
      → IsPlayed [] 0 t t'
  nothing-IsPlayed t t' e f g = record {
    sent = e ∙ sym (append-nil t.sent);
    skipped = omega (arith, f);
    counted = omega (arith, g);
  }

  IsPlayed-trans :
      (due more : List U) (m n : ℕ) (t t' t'' : Tape U)
      → IsPlayed due m t t'
      → IsPlayed more n t' t''
      → IsPlayed (due ++ more) (m + n) t t''
  IsPlayed-trans due more m n t t' t'' p q = record {
    sent = q.sent ∙ ap (λ l. l ++ more) p.sent ∙ append_assoc t.sent due more;
    skipped = omega (arith, p.skipped, q.skipped);
    counted = omega (arith, p.counted, q.counted);
  }

  then-Played :
      (due more : List U) (m n : ℕ) (t t' : Tape U) (x : Flow × Tape U)
      → IsPlayed due m t t'
      → Played more n t' x
      → Played (due ++ more) (m + n) t x
  then-Played due more m n t t' (f, t'') p q = (q.0, IsPlayed-trans due more m n t t' t'' p q.1)

  -- The polls of the token do not show.
  polled-Played :
      (due : List U) (m : ℕ) (t : Tape U) (x : Flow × Tape U)
      → Played due m (polled t) x
      → Played due m t x
  polled-Played due m t (f, t') q =
      (q.0, record { sent = q.1.sent; skipped = q.1.skipped; counted = q.1.counted })

  skip-IsPlayed : (t : Tape U) → IsPlayed [] 1 t (skip t)
  unfolding inc
  skip-IsPlayed t = record {
    sent = sym (append-nil t.sent);
    skipped = omega arith;
    counted = omega arith;
  }

  handle-Played :
      (room : ℕ) (o : Option U) (rest : Tape U → Flow × Tape U) (more : List U) (n : ℕ) (t : Tape U)
      → length t.sent + length (prepend o more) ≤ room
      → ((t' : Tape U) → length t'.sent + length more ≤ room → Played more n t' (rest t'))
      → Played (prepend o more) (missed_by o + n) t (handle room o rest t)
  handle-Played room none rest more n t h r =
      then-Played [] more 1 n t (skip t) (rest (skip t)) (skip-IsPlayed t) (r (skip t) h)
  handle-Played room (some u) rest more n t h r =
      let fits : ltb (length t.sent) room ≡ true = ground arith in
      let pushed : IsPlayed (u ∷ []) 0 t (push u t) = record {
        sent = refl;
        skipped = omega arith;
        counted = omega arith;
      } in
      rw fits (
        then-Played (u ∷ []) more 0 n t (push u t) (rest (push u t)) pushed
          (r (push u t) (omega (arith, length-append t.sent (u ∷ []), h))))

-- A list several times over.
abbrev pub repeated : {A : Type 0} → ℕ → List A → List A
repeated zero xs = []
repeated (suc n) xs = xs ++ repeated n xs

module _ {U : Type 0} (read : String → Option U) where
  -- The updates of the lines that can be read.
  abbrev pub updates : List String → List U
  updates [] = []
  updates (l ∷ ls) = prepend (read l) (updates ls)

  -- How many lines cannot.
  abbrev pub unread : List String → ℕ
  unread [] = 0
  unread (l ∷ ls) = missed_by (read l) + unread ls

  module _ (pipe : Pipe) (open_ : (n : ℕ) → pipe.cancelled n ≡ false) where
    read_lines-Played :
        (ls : List String) (t : Tape U)
        → length t.sent + length (updates ls) ≤ pipe.room
        → Played (updates ls) (unread ls) t (read_lines read pipe (map (λ l. some l) ls) t)
    unfolding read_lines
    read_lines-Played [] t h = (refl, nothing-IsPlayed t t refl refl refl)
    read_lines-Played (l ∷ ls) t h = rw (open_ t.polls) (
        polled-Played (updates (l ∷ ls)) (unread (l ∷ ls)) t _ (
          handle-Played pipe.room (read l) _ (updates ls) (unread ls) (polled t) h
            (λ t' h'. read_lines-Played ls t' h')))

    read_pass-Played :
        (ls : List String) (t : Tape U)
        → length t.sent + length (updates ls) ≤ pipe.room
        → Played (updates ls) (unread ls) t (read_pass read pipe (some (map (λ l. some l) ls)) t)
    unfolding read_pass
    read_pass-Played ls t h =
        rw (open_ t.polls)
          (polled-Played (updates ls) (unread ls) t _ (read_lines-Played ls (polled t) h))

    Completed-trans :
        (due more : List U) (m n : ℕ) (t t' : Tape U) (o : Option (Bool × Tape U))
        → IsPlayed due m t t'
        → Completed more n t' o
        → Completed (due ++ more) (m + n) t o
    Completed-trans due more m n t t' none p q = q
    Completed-trans due more m n t t' (some (ok, t'')) p q =
        (q.0, IsPlayed-trans due more m n t t' t'' p q.1)

    last_pass-Completed :
        (repeat pass : ℕ) (rest : Tape U → Option (Bool × Tape U)) (due : List U) (m : ℕ)
        (t : Tape U) (x : Flow × Tape U)
        → repeat ≡ pass + 1
        → Played due m t x
        → Completed due m t (after_pass read pipe repeat pass rest x)
    last_pass-Completed repeat pass rest due m t (ended, t') e p =
        let ends : (not (repeat == 0) && leb repeat (pass + 1)) ≡ true = ground arith in
        rw ends (refl, p.1)
    last_pass-Completed repeat pass rest due m t (broken, t') e p = cc (p.0)
    last_pass-Completed repeat pass rest due m t (failed, t') e p = cc (p.0)

    next_pass-Completed :
        (repeat pass : ℕ) (rest : Tape U → Option (Bool × Tape U)) (due more : List U) (m n : ℕ)
        (t : Tape U) (x : Flow × Tape U)
        → pass + 1 < repeat
        → Played due m t x
        → ((t' : Tape U) → IsPlayed due m t t' → Completed more n t' (rest t'))
        → Completed (due ++ more) (m + n) t (after_pass read pipe repeat pass rest x)
    next_pass-Completed repeat pass rest due more m n t (ended, t') e p r =
        let goes_on : (not (repeat == 0) && leb repeat (pass + 1)) ≡ false = ground arith in
        rw goes_on (Completed-trans due more m n t t' (rest t') p.1 (r t' p.1))
    next_pass-Completed repeat pass rest due more m n t (broken, t') e p r = cc (p.0)
    next_pass-Completed repeat pass rest due more m n t (failed, t') e p r = cc (p.0)

    pub Completed-eq :
        (due due' : List U) (m m' : ℕ) (t : Tape U) (o : Option (Bool × Tape U))
        → due ≡ due'
        → m ≡ m'
        → Completed due m t o
        → Completed due' m' t o
    Completed-eq due due' m m' t o e f c =
        subst (λ l. Completed l m' t o) e (subst (λ n. Completed due n t o) f c)

    consume_from-Completed :
        (ls : List String) (left fuel pass repeat : ℕ) (t : Tape U)
        → repeat ≡ pass + suc left
        → left < fuel
        → length t.sent + length (repeated (suc left) (updates ls)) ≤ pipe.room
        → Completed
            (repeated (suc left) (updates ls))
            (suc left * unread ls)
            t
            (consume read pipe (λ _. some (map (λ l. some l) ls)) repeat fuel pass t)
    unfolding consume
    consume_from-Completed ls left zero pass repeat t e f h = absurd (omega arith)
    consume_from-Completed ls zero (suc fuel) pass repeat t e f h =
        Completed-eq (updates ls) _ (unread ls) _ t _ (sym (append-nil (updates ls))) (omega arith)
          (last_pass-Completed repeat pass _ (updates ls) (unread ls) t _ (omega arith)
            (read_pass-Played ls t (omega (arith, length-append (updates ls) []))))
    consume_from-Completed ls (suc left) (suc fuel) pass repeat t e f h =
        let more = repeated (suc left) (updates ls) in
        Completed-eq (updates ls ++ more) _ (unread ls + suc left * unread ls) _ t _ refl
          (grind arith)
          (next_pass-Completed repeat pass _ (updates ls) more (unread ls) (suc left * unread ls) t
            _ (omega arith) (read_pass-Played ls t (omega (arith, length-append (updates ls) more)))
            (λ t' p.
              consume_from-Completed ls left fuel (pass + 1) repeat t' (omega arith) (omega arith) (
                omega (
                  arith,
                  length-append (updates ls) more,
                  length-append t.sent (updates ls),
                  ap length p.sent,
                ))))

    -- A replay of a readable file that is to be played one or more times, is not cancelled and
    -- finds its receiver there ends with `Ok`, given as much fuel as passes: it has sent the
    -- updates of the lines that can be read, pass after pass in the order of the file, and both
    -- counters have moved by the number of the other lines in all passes, modulo 2 ^ 64.
    pub consume-Completed :
        (ls : List String) (repeat fuel : ℕ) (t : Tape U)
        → 0 < repeat
        → repeat ≤ fuel
        → length t.sent + length (repeated repeat (updates ls)) ≤ pipe.room
        → Completed
            (repeated repeat (updates ls))
            (repeat * unread ls)
            t
            (consume read pipe (λ _. some (map (λ l. some l) ls)) repeat fuel 0 t)
    consume-Completed ls zero fuel t n f h = absurd (omega arith)
    consume-Completed ls (suc left) fuel t n f h =
        consume_from-Completed ls left fuel 0 (suc left) t (omega arith) (omega arith) h
