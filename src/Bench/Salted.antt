-- ===== src/Bench/Salted.antt =====
-- Signatures that a benchmark makes unique (`make_signature_unique` in src/bench.rs).
use solana_realtime_indexer.Prelude.{
  ℕ, zero, suc, ◌+◌, ◌/◌, ◌%◌, ◌^◌, ◌≤◌, ◌<◌, List, [], ◌∷◌, some, length, ◌≡◌, ◌≢◌, refl, sym, ◌∙◌,
  ap, arith, u64_mod,
}
use solana_realtime_indexer.Prelude.Xor.{bit_xor_injective}
use native.Mathlib.Nat.{pow-suc}
use solana_realtime_indexer.Bench.{SignatureType, to_le_bytes, xor_bytes, masked_bytes, salted}

head_or : ℕ → List ℕ → ℕ
head_or d [] = d
head_or d (x ∷ xs) = x

length-to_le_bytes : (k n : ℕ) → length (to_le_bytes k n) ≡ k
unfolding to_le_bytes
length-to_le_bytes zero n = refl
length-to_le_bytes (suc k) n = omega (arith, length-to_le_bytes k (n / 256))

cons_injective : (x y : ℕ) (xs ys : List ℕ) → (x ∷ xs) ≡ (y ∷ ys) → (x ≡ y) × (xs ≡ ys)
cons_injective x y xs ys h = (cc (h), cc (h))

to_le_bytes_injective :
    (k n m : ℕ) → n < 256 ^ k → m < 256 ^ k → to_le_bytes k n ≡ to_le_bytes k m → n ≡ m
unfolding to_le_bytes
to_le_bytes_injective zero n m p q h = omega arith
to_le_bytes_injective (suc k) n m p q h =
    let tails = cons_injective (n % 256) (m % 256) _ _ h in
    let rest =
      to_le_bytes_injective k (n / 256) (m / 256) (omega (arith, pow-suc 256 k, p))
        (omega (arith, pow-suc 256 k, q)) tails.1 in
    omega (arith, tails.0, rest)

-- A mask that is no longer than the bytes can be read off the result.
xor_bytes_injective :
    (bs ms ns : List ℕ)
    → length ms ≤ length bs
    → length ns ≡ length ms
    → xor_bytes bs ms ≡ xor_bytes bs ns
    → ms ≡ ns
unfolding xor_bytes
xor_bytes_injective bs [] [] p q h = refl
xor_bytes_injective bs [] (n ∷ ns) p q h = absurd (omega arith)
xor_bytes_injective bs (m ∷ ms) [] p q h = absurd (omega arith)
xor_bytes_injective [] (m ∷ ms) (n ∷ ns) p q h = absurd (omega arith)
xor_bytes_injective (b ∷ bs) (m ∷ ms) (n ∷ ns) p q h =
    let parts = cons_injective _ _ _ _ h in
    let heads = bit_xor_injective b m n parts.0 in
    let tails = xor_bytes_injective bs ms ns (omega arith) (omega arith) parts.1 in
    rw (heads, tails) refl

length-xor_bytes : (bs ms : List ℕ) → length (xor_bytes bs ms) ≡ length bs
unfolding xor_bytes
length-xor_bytes [] ms = refl
length-xor_bytes (b ∷ bs) [] = refl
length-xor_bytes (b ∷ bs) (m ∷ ms) = omega (arith, length-xor_bytes bs ms)

module _ {S : Type 0} (sig : SignatureType S) where
  -- A signature has 64 bytes, and is made of any 64 bytes.
  pub record IsSignature : Type 0 where
    pub size : (s : S) → length (sig.as_ref s) ≡ 64
    pub made :
        (bytes : List ℕ)
        → length bytes ≡ 64
        → (s : S) × (sig.try_from bytes ≡ some s) × (sig.as_ref s ≡ bytes)

  bytes-salted :
      (salt index : ℕ) (s : S)
      → IsSignature
      → sig.as_ref (salted sig salt index s) ≡ masked_bytes sig salt index s
  unfolding salted masked_bytes
  bytes-salted salt index s law =
      let (u, made, same) =
        law.made (masked_bytes sig salt index s) (length-xor_bytes _ _ ∙ law.size s) in
      rw made same

  -- Two updates with the same signature that are sent at different places of a run get different
  -- signatures, so that a fixture that is played several times stores each of its events anew.
  pub salted_distinct :
      (salt i j : ℕ) (s : S)
      → IsSignature
      → i < u64_mod
      → j < u64_mod
      → i ≢ j
      → salted sig salt i s ≢ salted sig salt j s
  unfolding masked_bytes
  salted_distinct salt i j s law p q differ same =
      let masks =
        xor_bytes_injective (sig.as_ref s) (to_le_bytes 8 ((salt + i) % u64_mod))
          (to_le_bytes 8 ((salt + j) % u64_mod))
          (omega (arith, law.size s, length-to_le_bytes 8 ((salt + i) % u64_mod)))
          (omega (
            arith,
            length-to_le_bytes 8 ((salt + i) % u64_mod),
            length-to_le_bytes 8 ((salt + j) % u64_mod),
          ))
          (sym (bytes-salted salt i s law) ∙ ap sig.as_ref same ∙ bytes-salted salt j s law) in
      let sums =
        to_le_bytes_injective 8 ((salt + i) % u64_mod) ((salt + j) % u64_mod) (omega arith)
          (omega arith) masks in
      differ (omega (arith, sums))
