-- ===== src/Gaps/Watermark.antt =====
-- What the watermark reports and what it misses (src/gaps.rs, `check_slot`).
use solana_realtime_indexer.Prelude.{
  ℕ, ◌+◌, ◌≤◌, ◌<◌, max, List, [], ◌∷◌, ◌++◌, Bool, true, leb, ◌≡◌, ◌≢◌, refl, ◌⊎◌, inl, inr, All,
  In, arith, Bool-cases, In-append_left, In-append_right, u64_mod,
}
use native.Mathlib.Decide.{dec_le}
use solana_realtime_indexer.Config.{slot_gap_tolerance}
use solana_realtime_indexer.Gaps.{
  Disconnection, Watch, Sight, watermark_gap, check_slot, check_slots,
}

-- Slot numbers that leave room for the tolerance in 64 bits.
abbrev pub IsSmall : ℕ → Type 0
IsSmall slot = slot + slot_gap_tolerance < u64_mod

-- The greatest of the slots seen, from a given one on.
abbrev pub highest : ℕ → List Sight → ℕ
highest top [] = top
highest top (at ∷ rest) = highest (max top at.slot) rest

watermark-check_slot :
    (a : Bool) (at : Sight) (w : Watch) → (check_slot a at w).watermark ≡ max w.watermark at.slot
unfolding check_slot
watermark-check_slot a at w = ground arith

-- The watermark is the greatest slot seen, in whatever order the slots come and whatever the
-- channel takes.
watermark-check_slots :
    (a : Bool) (seen : List Sight) (w : Watch)
    → (check_slots a seen w).watermark ≡ highest w.watermark seen
unfolding check_slots
watermark-check_slots a [] w = refl
watermark-check_slots a (at ∷ rest) w =
    rw (watermark-check_slots a rest (check_slot a at w)) (rw watermark-check_slot refl)

-- What the call has sent: nothing, or the gap between the watermark and the slot.
abbrev IsReported : Sight → Watch → Type 0
IsReported at w =
    (w.watermark + slot_gap_tolerance < at.slot)
    × ((check_slot true at w).sent ≡ w.sent ++ watermark_gap w.watermark at.slot at.now ∷ [])

abbrev IsQuiet : Sight → Watch → Type 0
IsQuiet at w = (at.slot ≤ w.watermark + slot_gap_tolerance) × ((check_slot true at w).sent ≡ w.sent)

check_slot-cases :
    (at : Sight) (w : Watch)
    → at.taken ≡ true
    → w.watermark ≢ 0
    → IsSmall w.watermark
    → IsReported at w ⊎ IsQuiet at w
unfolding check_slot
check_slot-cases at w t n s = elim (Bool-cases (leb at.slot (w.watermark + slot_gap_tolerance))) [
  | inl near ↦ inr (ground arith, ground arith)
  | inr far ↦ inl (ground arith, ground arith)
]

-- Two slots enclose the given one, and a gap with these ends was reported.
abbrev pub IsEnclosed : ℕ → List Disconnection → Type 0
IsEnclosed x gaps =
    (g : Disconnection) × In g gaps
    × (g.last_slot_before_disconnect < x)
    × (x < g.first_slot_after_reconnect)

-- A slot at the given one or shortly after it was seen.
abbrev pub IsPassed : ℕ → List Sight → Type 0
IsPassed x seen = (at : Sight) × In at seen × (x ≤ at.slot) × (at.slot < x + slot_gap_tolerance)

-- Each call finds the channel with room, and its slot is in range.
abbrev pub IsHeard : Sight → Type 0
IsHeard at = (at.taken ≡ true) × IsSmall at.slot

sent-check_slot :
    (at : Sight) (w : Watch) (g : Disconnection)
    → IsReported at w ⊎ IsQuiet at w
    → In g w.sent
    → In g (check_slot true at w).sent
sent-check_slot at w g (inl (far, e)) m = rw e (In-append_left g w.sent _ m)
sent-check_slot at w g (inr (near, e)) m = rw e m

highest-ne-zero : (at : Sight) (w : Watch) → w.watermark ≢ 0 → (check_slot true at w).watermark ≢ 0
highest-ne-zero at w n = omega (arith, watermark-check_slot true at w)

IsSmall-watermark :
    (at : Sight) (w : Watch)
    → IsSmall at.slot
    → IsSmall w.watermark
    → IsSmall (check_slot true at w).watermark
IsSmall-watermark at w s t = omega (arith, watermark-check_slot true at w)

sent-check_slots :
    (seen : List Sight) (w : Watch) (g : Disconnection)
    → All IsHeard seen
    → w.watermark ≢ 0
    → IsSmall w.watermark
    → In g w.sent
    → In g (check_slots true seen w).sent
unfolding check_slots
sent-check_slots [] w g h n s m = m
sent-check_slots (at ∷ rest) w g h n s m =
    sent-check_slots rest (check_slot true at w) g h.1 (highest-ne-zero at w n)
      (IsSmall-watermark at w h.0.1 s) (sent-check_slot at w g (check_slot-cases at w h.0.0 n s) m)

IsPassed-later : (x : ℕ) (at : Sight) (rest : List Sight) → IsPassed x rest → IsPassed x (at ∷ rest)
IsPassed-later x at rest (found, m, p, q) = (found, inr m, p, q)

-- A slot that this call skips or reaches is passed closely, or enclosed by the gap that is sent.
step_covers :
    (x : ℕ) (at : Sight) (rest : List Sight) (w : Watch)
    → w.watermark < x
    → x ≤ (check_slot true at w).watermark
    → IsReported at w ⊎ IsQuiet at w
    → IsPassed x (at ∷ rest) ⊎ IsEnclosed x (check_slot true at w).sent
step_covers x at rest w low high (inr (near, e)) =
    inl (at, inl refl, omega (arith, watermark-check_slot true at w), omega arith)
step_covers x at rest w low high (inl (far, e)) = elim (dec_le at.slot x) [
  | yes last ↦ inl (at, inl refl, omega (arith, watermark-check_slot true at w), omega arith)
  | no more ↦ inr (
    watermark_gap w.watermark at.slot at.now,
    rw e (In-append_right _ w.sent _ (inl refl)),
    low,
    omega arith,
  )
]

-- Where the sender of gaps is attached and the channel takes every message, and from a running
-- watermark on, no slot is skipped unnoticed: each slot above the watermark and up to the
-- greatest one seen has a slot that was seen at it or fewer than 50 after it, or it lies strictly
-- within a gap that was reported.
pub watermark_covers :
    (x : ℕ) (seen : List Sight) (w : Watch)
    → All IsHeard seen
    → w.watermark ≢ 0
    → IsSmall w.watermark
    → w.watermark < x
    → x ≤ highest w.watermark seen
    → IsPassed x seen ⊎ IsEnclosed x (check_slots true seen w).sent
unfolding check_slots
watermark_covers x [] w h n s low high = absurd (omega arith)
watermark_covers x (at ∷ rest) w h n s low high =
    let w' = check_slot true at w in
    let cases = check_slot-cases at w h.0.0 n s in
    elim (dec_le x w'.watermark) [
      | no above ↦
          elim (watermark_covers x rest w' h.1 (highest-ne-zero at w n)
            (IsSmall-watermark at w h.0.1 s) (omega arith) (rw watermark-check_slot high)) [
              | inl p ↦ inl (IsPassed-later x at rest p)
              | inr e ↦ inr e
            ]
      | yes below ↦ elim (step_covers x at rest w low below cases) [
        | inl p ↦ inl p
        | inr (g, m, p, q) ↦ inr (
          g,
          sent-check_slots rest w' g h.1 (highest-ne-zero at w n) (IsSmall-watermark at w h.0.1 s)
              m,
          p,
          q,
        )
      ]
    ]
