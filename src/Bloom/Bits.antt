-- ===== src/Bloom/Bits.antt =====
-- src/bloom.cpp: the bits of the array of a filter, under the writes of `finish`.
use native.Mathlib.Decide.{ℕ_discrete, dec_lt}
use lsm_tree_storage_engine.Prelude.{
  ℕ, zero, ltb, not, ◌^◌, ◌≡◌, ◌==◌, true, bit_or, ◌<◌, ◌%◌, refl, Bool, arith, bit_and, suc,
  if◌then◌else◌, List, ◌/◌, get_or, All, sym, ◌≢◌, length, [], ltb→lt, ◌≤◌, ◌∙◌, ◌∷◌, length-set,
  set, ap, false,
}
use lsm_tree_storage_engine.Encoding.{IsByte, byte_at}
use lsm_tree_storage_engine.Bloom.{has_bit, set_bit, bit_mask}
use lsm_tree_storage_engine.Encoding.RoundTrip.{byte_at-IsByte}

-- A test that every number below a bound passes, found out by running it.
passes : (ℕ → Bool) → ℕ → Bool
passes test zero = true
passes test (suc top) = if test top then passes test top else false

passes-at : (test : ℕ → Bool) (top b : ℕ) → b < top → passes test top ≡ true → test b ≡ true
unfolding passes
passes-at test (suc top) b small on = elim (ℕ_discrete b top) [
  | yes last ↦ rw last (ground (arith, on))
  | no other ↦ passes-at test top b (omega (arith, other)) (ground (arith, on))
]
passes-at test zero b small on = absurd (omega arith)

abbrev holds : ℕ → ℕ → Bool
holds b j = not (bit_and b (2 ^ j % 256) == 0)

abbrev agrees : ℕ → ℕ → ℕ → Bool
agrees b i j =
    if holds b j
    then holds (bit_or b (2 ^ i % 256)) j
    else if i == j
    then holds (bit_or b (2 ^ i % 256)) j
    else true

-- The bits of a byte, and the bytes with one more bit set.
abbrev agrees_all : ℕ → ℕ → Bool
agrees_all b i = passes (agrees b i) 8

abbrev agrees_byte : ℕ → Bool
agrees_byte b = passes (agrees_all b) 8

or_table : passes agrees_byte 256 ≡ true
unfolding passes
or_table = refl

or_agrees : (b i j : ℕ) → b < 256 → i < 8 → j < 8 → agrees b i j ≡ true
or_agrees b i j hb hi hj =
    passes-at (agrees b i) 8 j hj
      (passes-at (agrees_all b) 8 i hi (passes-at agrees_byte 256 b hb or_table))

abbrev stays_byte : ℕ → ℕ → Bool
stays_byte b i = ltb (bit_or b (2 ^ i % 256)) 256

abbrev stays_byte_all : ℕ → Bool
stays_byte_all b = passes (stays_byte b) 8

or_small_table : passes stays_byte_all 256 ≡ true
unfolding passes
or_small_table = refl

or-IsByte : (b i : ℕ) → b < 256 → i < 8 → bit_or b (2 ^ i % 256) < 256
or-IsByte b i hb hi =
    ltb→lt (bit_or b (2 ^ i % 256)) 256
      (passes-at (stays_byte b) 8 i hi (passes-at stays_byte_all 256 b hb or_small_table))

get_or-set_self : (xs : List ℕ) (i v : ℕ) → i < length xs → get_or (set xs i v) i 0 ≡ v
get_or-set_self [] i v h = absurd (omega arith)
get_or-set_self (x ∷ xs) zero v h = refl
get_or-set_self (x ∷ xs) (suc i) v h = get_or-set_self xs i v (omega arith)

get_or-set_ne : (xs : List ℕ) (i j v : ℕ) → i ≢ j → get_or (set xs i v) j 0 ≡ get_or xs j 0
get_or-set_ne [] i j v h = refl
get_or-set_ne (x ∷ xs) zero zero v h = absurd (h refl)
get_or-set_ne (x ∷ xs) zero (suc j) v h = refl
get_or-set_ne (x ∷ xs) (suc i) zero v h = refl
get_or-set_ne (x ∷ xs) (suc i) (suc j) v h = get_or-set_ne xs i j v (λ e. h (ap suc e))

set-IsByte : (xs : List ℕ) (i v : ℕ) → All IsByte xs → v < 256 → All IsByte (set xs i v)
set-IsByte [] i v h k = tt
set-IsByte (x ∷ xs) zero v h k = (k, h.1)
set-IsByte (x ∷ xs) (suc i) v h k = (h.0, set-IsByte xs i v h.1 k)

set_past : (xs : List ℕ) (i v : ℕ) → length xs ≤ i → set xs i v ≡ xs
set_past [] i v h = refl
set_past (x ∷ xs) zero v h = absurd (omega arith)
set_past (x ∷ xs) (suc i) v h = ap (λ ys. x ∷ ys) (set_past xs i v (omega arith))

-- Every bit that is set in the one is set in the other.
pub record Grows (a b : List ℕ) : Type 0 where
  pub keeps : (q : ℕ) → has_bit a q ≡ true → has_bit b q ≡ true

pub Grows-refl : (a : List ℕ) → Grows a a
Grows-refl a = record { keeps = λ q h. h }

pub Grows-trans : {a b c : List ℕ} → Grows a b → Grows b c → Grows a c
Grows-trans f g = record { keeps = λ q h. g.keeps q (f.keeps q h) }

module _ (array : List ℕ) (p : ℕ) (bytes : All IsByte array) where
  pub set_bit-IsByte : All IsByte (set_bit array p)
  unfolding set_bit
  set_bit-IsByte =
      set-IsByte array (p / 8) _ bytes (
        or-IsByte (byte_at array (p / 8)) (p % 8) (byte_at-IsByte array (p / 8) bytes)
          (omega arith))

  pub length-set_bit : length (set_bit array p) ≡ length array
  unfolding set_bit
  length-set_bit = length-set array (p / 8) _

  pub has_bit-set_bit : p / 8 < length array → has_bit (set_bit array p) p ≡ true
  unfolding has_bit set_bit
  has_bit-set_bit h =
      ap (λ (b : ℕ). holds b (p % 8)) (get_or-set_self array (p / 8) _ h)
      ∙ ground (
        arith,
        or_agrees (byte_at array (p / 8)) (p % 8) (p % 8) (byte_at-IsByte array (p / 8) bytes),
      )

  pub set_bit-Grows : Grows array (set_bit array p)
  unfolding has_bit set_bit
  set_bit-Grows = record {
    keeps = λ q h. elim (ℕ_discrete (p / 8) (q / 8)) [
      | no other ↦ ap (λ (b : ℕ). holds b (q % 8)) (get_or-set_ne array (p / 8) (q / 8) _ other) ∙ h
      | yes same ↦ elim (dec_lt (p / 8) (length array)) [
        | no past ↦
            ap (λ (t : List ℕ). holds (byte_at t (q / 8)) (q % 8))
              (set_past array (p / 8) _ (omega arith))
            ∙ h
        | yes inside ↦
            ap
              (λ (n : ℕ).
                holds (byte_at (set array (p / 8) (bit_or (byte_at array (p / 8)) (bit_mask p))) n)
                  (q % 8))
              (sym same)
            ∙ ap (λ (b : ℕ). holds b (q % 8)) (get_or-set_self array (p / 8) _ inside)
            ∙ kept q (ap (λ (n : ℕ). holds (byte_at array n) (q % 8)) same ∙ h)
      ]
    ];
  }
    where
      kept :
          (q : ℕ)
          → holds (byte_at array (p / 8)) (q % 8) ≡ true
          → holds (bit_or (byte_at array (p / 8)) (bit_mask p)) (q % 8) ≡ true
      kept q h =
          sym (
            ap
              (λ (c : Bool).
                if c
                then holds (bit_or (byte_at array (p / 8)) (bit_mask p)) (q % 8)
                else (if p % 8 == q % 8
                    then holds (bit_or (byte_at array (p / 8)) (bit_mask p)) (q % 8)
                    else true))
              h)
          ∙ or_agrees (byte_at array (p / 8)) (p % 8) (q % 8) (byte_at-IsByte array (p / 8) bytes)
              (omega arith) (omega arith)
