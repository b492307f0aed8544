-- ===== src/Prelude/Bits.antt =====
-- `|` of two words with no common digit.
use Prim.Native.Nat.{
  ℕ, zero, suc, ◌+◌, ◌*◌, ◌/◌, ◌^◌, ◌≤◌, ◌<◌, max, digits, bit_or, bit_or-bitwise,
}
use mathlib.Core.Path.{refl, ◌≡◌, ap, ◌∙◌}
use native.Mathlib.Nat.{pow-suc}
use native.Mathlib.Omega.{arith}

mul-pow-suc : (q k : ℕ) → q * 2 ^ suc k ≡ 2 * (q * 2 ^ k)
mul-pow-suc q k = omega (arith, ap (λ (t : ℕ). q * t) (pow-suc 2 k))

-- `n` counts digits, of which the low word `r` has `k` at most.
digits_disjoint :
    (n k r q : ℕ) → r ≤ n → r < 2 ^ k → digits (λ b. b) max n r (q * 2 ^ k) ≡ r + q * 2 ^ k
digits_disjoint zero k zero q h l = omega arith
digits_disjoint zero k (suc r) q h l = absurd (omega arith)
digits_disjoint (suc n) k zero q h l = omega arith
digits_disjoint (suc n) zero (suc r) q h l = absurd (omega arith)
digits_disjoint (suc n) (suc k) (suc r) q h l = omega (
  arith,
  mul-pow-suc q k,
  pow-suc 2 k,
  ap (λ (t : ℕ). digits (λ b. b) max n (suc r / 2) t) (halve),
  digits_disjoint n k (suc r / 2) q (omega arith) (omega (arith, pow-suc 2 k)),
)
  where
    halve : q * 2 ^ suc k / 2 ≡ q * 2 ^ k
    halve = omega (arith, mul-pow-suc q k)

-- `r | (q << k)` is a sum when `r` fits `k` bits.
pub bit_or_disjoint : (k r q : ℕ) → r < 2 ^ k → bit_or r (q * 2 ^ k) ≡ r + q * 2 ^ k
bit_or_disjoint k r q h = bit_or-bitwise r (q * 2 ^ k) ∙ digits_disjoint r k r q (omega arith) h

digits-zero : (n a : ℕ) → a ≤ n → digits (λ b. b) max n a 0 ≡ a
digits-zero zero zero h = refl
digits-zero zero (suc a) h = absurd (omega arith)
digits-zero (suc n) zero h = refl
digits-zero (suc n) (suc a) h = omega (arith, digits-zero n (suc a / 2) (omega arith))

-- The same with the high word first.
digits_high :
    (n k r q a : ℕ) → a ≡ q * 2 ^ k → a ≤ n → r < 2 ^ k → digits (λ b. b) max n a r ≡ r + a
digits_high zero k r q zero e h l = omega arith
digits_high (suc n) k r q zero e h l = omega arith
digits_high zero k r q (suc a) e h l = absurd (omega arith)
digits_high (suc n) zero zero q (suc a) e h l = omega (arith, digits-zero (suc n) (suc a) h)
digits_high (suc n) zero (suc r) q (suc a) e h l = absurd (omega arith)
digits_high (suc n) (suc k) r q (suc a) e h l = omega (
  arith,
  e,
  mul-pow-suc q k,
  pow-suc 2 k,
  digits_high n k (r / 2) q (suc a / 2) (omega (arith, e, mul-pow-suc q k)) (omega arith)
      (omega (arith, pow-suc 2 k)),
)

pub bit_or_high : (k q r : ℕ) → r < 2 ^ k → bit_or (q * 2 ^ k) r ≡ r + q * 2 ^ k
bit_or_high k q r h =
    bit_or-bitwise (q * 2 ^ k) r ∙ digits_high (q * 2 ^ k) k r q (q * 2 ^ k) refl (omega arith) h
