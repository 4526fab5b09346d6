-- ===== src/Prelude/Xor.antt =====
-- The exclusive or of native numbers: one binary digit at a time, and injective.
use Prim.Native.Nat.{ℕ, zero, suc, ◌/◌, ◌%◌, ◌≤◌, ◌<◌, digits, differ, bit_xor, bit_xor-bitwise}
use mathlib.Core.Path.{◌≡◌, refl}
use native.Mathlib.Omega.{arith}

differ-lt : (x y : ℕ) → x < 2 → y < 2 → differ x y < 2
differ-lt zero y p q = q
differ-lt (suc x) zero p q = p
differ-lt (suc x) (suc y) p q = differ-lt x y (omega arith) (omega arith)

differ_injective : (x y z : ℕ) → x < 2 → y < 2 → z < 2 → differ x y ≡ differ x z → y ≡ z
differ_injective zero y z p q r h = h
differ_injective (suc x) zero zero p q r h = refl
differ_injective (suc zero) zero (suc zero) p q r h = absurd (omega (arith, h))
differ_injective (suc zero) (suc zero) zero p q r h = absurd (omega (arith, h))
differ_injective (suc x) (suc y) (suc z) p q r h = omega arith
differ_injective (suc x) (suc (suc y)) z p q r h = absurd (omega arith)
differ_injective (suc x) y (suc (suc z)) p q r h = absurd (omega arith)
differ_injective (suc (suc x)) y z p q r h = absurd (omega arith)

-- On any fuel that is enough for the first number.
digits_injective :
    (fuel a b c : ℕ)
    → a ≤ fuel
    → digits (λ y. y) differ fuel a b ≡ digits (λ y. y) differ fuel a c
    → b ≡ c
digits_injective zero zero b c enough same = same
digits_injective (suc fuel) zero b c enough same = same
digits_injective zero (suc a) b c enough same = absurd (omega arith)
digits_injective (suc fuel) (suc a) b c enough same =
    let low_b = differ-lt (suc a % 2) (b % 2) (omega arith) (omega arith) in
    let low_c = differ-lt (suc a % 2) (c % 2) (omega arith) (omega arith) in
    let halves =
      digits_injective fuel (suc a / 2) (b / 2) (c / 2) (omega arith)
        (omega (arith, same, low_b, low_c)) in
    let lowest =
      differ_injective (suc a % 2) (b % 2) (c % 2) (omega arith) (omega arith) (omega arith)
        (omega (arith, same, low_b, low_c)) in
    omega (arith, halves, lowest)

pub bit_xor_injective : (a b c : ℕ) → bit_xor a b ≡ bit_xor a c → b ≡ c
bit_xor_injective a b c same =
    digits_injective a a b c (omega arith)
      (omega (arith, same, bit_xor-bitwise a b, bit_xor-bitwise a c))
