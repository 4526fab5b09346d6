-- ===== src/Processors/PumpSwap/Resolve.antt =====
-- How often the PumpSwap processor asks for a pool (`resolve` in src/processors/pumpswap.rs).
use solana_realtime_indexer.Prelude.{
  ℕ, ◌+◌, ◌<◌, ◌≤◌, List, [], ◌∷◌, ◌++◌, Bool, true, false, none, some, Eq, ◌=?◌, =?_refl, =?_iff,
  get, get-insert, ◌≡◌, ◌⊎◌, inl, inr, arith, refl, All, Bool-cases, if◌then◌else◌, subst, sym, ap,
  ◌∙◌,
}
use solana_realtime_indexer.Config.{pool_retry_after}
use solana_realtime_indexer.Processors.PumpSwap.{Swap, resolve}

-- The lookups that the channel has taken.
abbrev pub queued : {P V : Type 0} → Swap P V → List P
queued x = elim x.resolver [ none ↦ [] | some h ↦ h.requests ]

pub record Call (P : Type 0) : Type 0 where
  pub pool : P
  pub now : ℕ
  -- the channel has room
  pub taken : Bool

module _ {P : Type 0} where
  -- The calls come within the retry interval from this time on.
  abbrev pub IsWithin : ℕ → Call P → Type 0
  IsWithin from c = (from ≤ c.now) × (c.now < from + pool_retry_after)

module _ {P : Type 0} ⦃e : Eq P⦄ where
  unfoldable pub count : P → List P → ℕ
  count pool [] = 0
  count pool (p ∷ ps) = (if p =? pool then 1 else 0) + count pool ps

  count-snoc :
      (pool p : P) (ps : List P)
      → count pool (ps ++ p ∷ []) ≡ count pool ps + (if p =? pool then 1 else 0)
  unfolding count
  count-snoc pool p [] = omega arith
  count-snoc pool p (q ∷ ps) = omega (arith, count-snoc pool p ps)

  count-snoc_this :
      (pool p : P) (ps : List P)
      → (p =? pool) ≡ true
      → count pool (ps ++ p ∷ []) ≡ count pool ps + 1
  count-snoc_this pool p ps this = count-snoc pool p ps ∙ rw this refl

  count-snoc_other :
      (pool p : P) (ps : List P) → (p =? pool) ≡ false → count pool (ps ++ p ∷ []) ≡ count pool ps
  count-snoc_other pool p ps other = ground (arith, count-snoc pool p ps)

module _ {P V : Type 0} ⦃e : Eq P⦄ where
  quiet_if_recent :
      (taken : Bool) (now at : ℕ) (pool : P) (x : Swap P V)
      → get pool x.requested ≡ some at
      → now < at + pool_retry_after
      → queued (resolve taken now pool x).1 ≡ queued x
  unfolding resolve
  quiet_if_recent taken now at pool x h recent = ground arith

  -- A call queues nothing, or a lookup of its pool, and then it leaves its time behind.
  sent_or_quiet :
      (taken : Bool) (now : ℕ) (pool : P) (x : Swap P V)
      → (queued (resolve taken now pool x).1 ≡ queued x)
        ⊎ ((queued (resolve taken now pool x).1 ≡ queued x ++ pool ∷ [])
            × (get pool (resolve taken now pool x).1.requested ≡ some now))
  unfolding resolve
  sent_or_quiet taken now pool x =
      ground (arith, get-insert pool pool now x.requested, =?_refl pool)

  keeps_others :
      (taken : Bool) (now : ℕ) (pool other : P) (x : Swap P V)
      → (other =? pool) ≡ false
      → get pool (resolve taken now other x).1.requested ≡ get pool x.requested
  unfolding resolve
  keeps_others taken now pool other x h = ground (arith, get-insert other pool now x.requested)

  keeps_recent :
      (taken : Bool) (now at : ℕ) (pool : P) (x : Swap P V)
      → get pool x.requested ≡ some at
      → now < at + pool_retry_after
      → get pool (resolve taken now pool x).1.requested ≡ some at
  unfolding resolve
  keeps_recent taken now at pool x h recent = ground arith

  -- The calls of a run, in their order.
  unfoldable pub resolve_all : List (Call P) → Swap P V → Swap P V
  unfolding resolve
  resolve_all [] x = x
  resolve_all (c ∷ cs) x = resolve_all cs (resolve c.taken c.now c.pool x).1

  -- What one call means for a pool that was asked for lately, and for any.
  recent_call :
      (c : Call P) (at : ℕ) (pool : P) (x : Swap P V)
      → get pool x.requested ≡ some at
      → c.now < at + pool_retry_after
      → let x' = (resolve c.taken c.now c.pool x).1 in
        (get pool x'.requested ≡ some at) × (count pool (queued x') ≡ count pool (queued x))
  recent_call c at pool x h recent =
      let x' = (resolve c.taken c.now c.pool x).1 in
      elim (Bool-cases (c.pool =? pool)) [
        | inl this ↦
            let e : c.pool ≡ pool = (=?_iff c.pool pool).0 this in
            let asked : get c.pool x.requested ≡ some at =
              subst (λ p. get p x.requested ≡ some at) (sym e) h in
            (
              subst (λ p. get p x'.requested ≡ some at) e
                  (keeps_recent c.taken c.now at c.pool x asked recent),
              ap (count pool) (quiet_if_recent c.taken c.now at c.pool x asked recent),
            )
        | inr other ↦ (
          keeps_others c.taken c.now pool c.pool x other ∙ h,
          elim (sent_or_quiet c.taken c.now c.pool x) [
            | inl quiet ↦ ap (count pool) quiet
            | inr (sent, _) ↦ ap (count pool) sent ∙ count-snoc_other pool c.pool (queued x) other
          ],
        )
      ]

  any_call :
      (c : Call P) (pool : P) (x : Swap P V)
      → let x' = (resolve c.taken c.now c.pool x).1 in
        (count pool (queued x') ≡ count pool (queued x))
        ⊎ ((count pool (queued x') ≡ count pool (queued x) + 1)
            × (get pool x'.requested ≡ some c.now))
  any_call c pool x = elim (sent_or_quiet c.taken c.now c.pool x) [
    | inl quiet ↦ inl (ap (count pool) quiet)
    | inr (sent, asked) ↦
        let x' = (resolve c.taken c.now c.pool x).1 in
        elim (Bool-cases (c.pool =? pool)) [
          | inl this ↦ inr (
            ap (count pool) sent ∙ count-snoc_this pool c.pool (queued x) this,
            subst (λ p. get p x'.requested ≡ some c.now) ((=?_iff c.pool pool).0 this) asked,
          )
          | inr other ↦ inl (ap (count pool) sent ∙ count-snoc_other pool c.pool (queued x) other)
        ]
  ]

  resolve_all-recent :
      (from at : ℕ) (cs : List (Call P)) (pool : P) (x : Swap P V)
      → All (IsWithin from) cs
      → from ≤ at
      → get pool x.requested ≡ some at
      → count pool (queued (resolve_all cs x)) ≡ count pool (queued x)
  unfolding resolve_all
  resolve_all-recent from at [] pool x h low asked = refl
  resolve_all-recent from at (c ∷ cs) pool x ((early, late), h) low asked =
      let x' = (resolve c.taken c.now c.pool x).1 in
      let (asked', same) = recent_call c at pool x asked (omega arith) in
      omega (arith, same, resolve_all-recent from at cs pool x' h low asked')

  -- However often and for whatever pools the processor resolves within the retry interval, it queues at
  -- most one lookup of each pool.
  pub resolve_once :
      (from : ℕ) (cs : List (Call P)) (pool : P) (x : Swap P V)
      → All (IsWithin from) cs
      → count pool (queued (resolve_all cs x)) ≤ count pool (queued x) + 1
  unfolding resolve_all
  resolve_once from [] pool x h = omega arith
  resolve_once from (c ∷ cs) pool x (within, h) =
      let x' = (resolve c.taken c.now c.pool x).1 in
      elim (any_call c pool x) [
        | inl same ↦ omega (arith, same, resolve_once from cs pool x' h)
        | inr (more, asked) ↦
            omega (arith, more, resolve_all-recent from c.now cs pool x' h within.0 asked)
      ]
