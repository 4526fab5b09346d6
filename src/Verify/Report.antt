-- ===== src/Verify/Report.antt =====
-- What a successful verification means (src/verify.rs).
use solana_realtime_indexer.Prelude.{
  List, [], ◌∷◌, true, =?_iff, ◌≡◌, ◌↔◌, inl, inr, refl, arith, In,
}
use solana_realtime_indexer.Identity.{EventId, id_eq}
use solana_realtime_indexer.Verify.{has, difference, is_empty, report}

has_iff_In : (x : EventId) (ys : List EventId) → (has x ys ≡ true) ↔ In x ys
unfolding has
has_iff_In x [] = ground arith
has_iff_In x (y ∷ ys) = ground (arith, =?_iff x y, =?_iff y x, has_iff_In x ys)

abbrev pub IsSubset : List EventId → List EventId → Type 0
IsSubset xs ys = (x : EventId) → In x xs → In x ys

difference-IsSubset : (xs ys : List EventId) → is_empty (difference xs ys) ≡ true → IsSubset xs ys
unfolding difference
difference-IsSubset [] ys h x m = absurd m
difference-IsSubset (z ∷ xs) ys h x (inl p) = ground (arith, p, has_iff_In z ys, has_iff_In x ys)
difference-IsSubset (z ∷ xs) ys h x (inr m) = difference-IsSubset xs ys (ground arith) x m

IsSubset-difference : (xs ys : List EventId) → IsSubset xs ys → is_empty (difference xs ys) ≡ true
unfolding difference
IsSubset-difference [] ys h = refl
IsSubset-difference (z ∷ xs) ys h =
    ground (arith, has_iff_In z ys, h z (inl refl), IsSubset-difference xs ys (λ x m. h x (inr m)))

-- Verification succeeds exactly if the capture and the table have the same events: none is
-- missing and none is extra.
pub report_iff :
    (expected actual : List EventId)
    → (report expected actual ≡ true) ↔ (IsSubset expected actual × IsSubset actual expected)
unfolding report
report_iff expected actual = (
  (λ h. (
    difference-IsSubset expected actual (ground arith),
    difference-IsSubset actual expected (ground arith),
  )),
  (λ both. ground (
    arith,
    IsSubset-difference expected actual both.0,
    IsSubset-difference actual expected both.1,
  )),
)
