-- ===== src/Wire.antt =====
-- src/wire.hpp: big-endian integers, as the protocol sends them.
use native.Mathlib.Nat.{mod-eq_of_lt}
use lsm_tree_storage_engine.Prelude.{
  ℕ, arith, bit_or, ◌<◌, ◌≡◌, ◌^◌, ◌++◌, [], ◌*◌, ◌+◌, ap, ◌∙◌, ◌∷◌, List, bit_or_high,
}
use lsm_tree_storage_engine.Encoding.{byte_at, byte_of, shl_u32}

unfoldable pub append_u32 : List ℕ → ℕ → List ℕ
append_u32 out v = out ++ (byte_of v 24 ∷ byte_of v 16 ∷ byte_of v 8 ∷ byte_of v 0 ∷ [])

unfoldable pub get_u32 : List ℕ → ℕ → ℕ
get_u32 bytes at =
    bit_or
      (bit_or (bit_or (shl_u32 (byte_at bytes (at + 0)) 24) (shl_u32 (byte_at bytes (at + 1)) 16))
        (shl_u32 (byte_at bytes (at + 2)) 8))
      (byte_at bytes (at + 3))

-- The bytes of an integer, highest first.
abbrev pub be32 : ℕ → List ℕ
be32 v = byte_of v 24 ∷ byte_of v 16 ∷ byte_of v 8 ∷ byte_of v 0 ∷ []

-- `|` of the bytes from the highest down is a sum.
pub get_u32-be32 : (v : ℕ) (back : List ℕ) → v < 2 ^ 32 → get_u32 (be32 v ++ back) 0 ≡ v
unfolding get_u32
get_u32-be32 v back h =
    let b3 = byte_of v 24 in
    let b2 = byte_of v 16 in
    let b1 = byte_of v 8 in
    let b0 = byte_of v 0 in
    ap (λ (t : ℕ). bit_or (bit_or (bit_or t (shl_u32 b2 16)) (shl_u32 b1 8)) b0)
      (high 24 b3 (omega arith))
    ∙ ap (λ (t : ℕ). bit_or (bit_or (bit_or (b3 * 2 ^ 24) t) (shl_u32 b1 8)) b0)
        (high 16 b2 (omega arith))
    ∙ ap (λ (t : ℕ). bit_or (bit_or t (shl_u32 b1 8)) b0) (joined 24 b3 (b2 * 2 ^ 16) (omega arith))
    ∙ ap (λ (t : ℕ). bit_or (bit_or (b2 * 2 ^ 16 + b3 * 2 ^ 24) t) b0) (high 8 b1 (omega arith))
    ∙ ap (λ (t : ℕ). bit_or (bit_or t (b1 * 2 ^ 8)) b0) (the_same_sum b3 b2)
    ∙ ap (λ (t : ℕ). bit_or t b0) (joined 16 (b2 + b3 * 2 ^ 8) (b1 * 2 ^ 8) (omega arith))
    ∙ ap (λ (t : ℕ). bit_or t b0) (three b3 b2 b1)
    ∙ joined 8 (b1 + b2 * 2 ^ 8 + b3 * 2 ^ 16) b0 (omega arith)
    ∙ omega arith
  where
    high : (k b : ℕ) → b * 2 ^ k < 2 ^ 32 → shl_u32 b k ≡ b * 2 ^ k
    high k b h = mod-eq_of_lt h

    joined : (k q r : ℕ) → r < 2 ^ k → bit_or (q * 2 ^ k) r ≡ r + q * 2 ^ k
    joined k q r h = bit_or_high k q r h

    the_same_sum : (b3 b2 : ℕ) → b2 * 2 ^ 16 + b3 * 2 ^ 24 ≡ (b2 + b3 * 2 ^ 8) * 2 ^ 16
    the_same_sum b3 b2 = omega arith

    three :
        (b3 b2 b1 : ℕ)
        → b1 * 2 ^ 8 + (b2 + b3 * 2 ^ 8) * 2 ^ 16 ≡ (b1 + b2 * 2 ^ 8 + b3 * 2 ^ 16) * 2 ^ 8
    three b3 b2 b1 = omega arith
