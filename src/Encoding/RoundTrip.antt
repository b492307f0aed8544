-- ===== src/Encoding/RoundTrip.antt =====
-- Reading back what was put: the integers of src/encoding.hpp and their bytes.
use native.Mathlib.Nat.{mod-eq_of_lt, add_assoc, add-zero}
use lsm_tree_storage_engine.Prelude.{
  ℕ, zero, suc, ◌+◌, ◌*◌, ◌%◌, ◌^◌, ◌<◌, ◌≡◌, refl, sym, ap, ◌≤◌, ◌∙◌, List, [], ◌∷◌, ◌++◌, length,
  bit_or, bit_or_disjoint, arith, get_or-append_add, All, take, drop, length-take, take-append-drop,
  length-drop,
}
use lsm_tree_storage_engine.Encoding.Layout.{put_u32-append, put_u64-append}
use lsm_tree_storage_engine.Encoding.{
  IsByte, IsU32, IsU64, byte_of, byte_at, shl_u32, get_u32, get_u64_loop, get_u64, put_u32, put_u64,
  le32, le64,
}

-- `r |= q << k` in a word of `w` bits, where `r` fits `k` bits and nothing is shifted out.
or_word :
    (k w r q : ℕ) → r < 2 ^ k → q * 2 ^ k < 2 ^ w → bit_or r (q * 2 ^ k % 2 ^ w) ≡ r + q * 2 ^ k
or_word k w r q h fits = rw (mod-eq_of_lt fits) (bit_or_disjoint k r q h)

pub byte_at-IsByte : (bytes : List ℕ) (at : ℕ) → All IsByte bytes → IsByte (byte_at bytes at)
byte_at-IsByte [] at h = omega arith
byte_at-IsByte (b ∷ bytes) zero h = h.0
byte_at-IsByte (b ∷ bytes) (suc at) h = byte_at-IsByte bytes at h.1

-- `get_u32` of a vector of bytes is the number that its four bytes stand for.
pub get_u32_sum :
    (bytes : List ℕ) (at : ℕ)
    → All IsByte bytes
    → get_u32 bytes at
      ≡ byte_at bytes (at + 0)
        + byte_at bytes (at + 1) * 2 ^ 8
        + byte_at bytes (at + 2) * 2 ^ 16
        + byte_at bytes (at + 3) * 2 ^ 24
unfolding get_u32
get_u32_sum bytes at h =
    let a = byte_at bytes (at + 0) in
    let b = byte_at bytes (at + 1) in
    let c = byte_at bytes (at + 2) in
    let d = byte_at bytes (at + 3) in
    let ha : a < 256 = byte_at-IsByte bytes (at + 0) h in
    let hb : b < 256 = byte_at-IsByte bytes (at + 1) h in
    let hc : c < 256 = byte_at-IsByte bytes (at + 2) h in
    let hd : d < 256 = byte_at-IsByte bytes (at + 3) h in
    ap (λ (t : ℕ). bit_or (bit_or t (shl_u32 c 16)) (shl_u32 d 24))
      (or_word 8 32 a b (omega arith) (omega arith))
    ∙ ap (λ (t : ℕ). bit_or t (shl_u32 d 24))
        (or_word 16 32 (a + b * 2 ^ 8) c (omega arith) (omega arith))
    ∙ or_word 24 32 (a + b * 2 ^ 8 + c * 2 ^ 16) d (omega arith) (omega arith)

pub get_u32-IsU32 : (bytes : List ℕ) (at : ℕ) → All IsByte bytes → IsU32 (get_u32 bytes at)
get_u32-IsU32 bytes at h = omega (
  arith,
  get_u32_sum bytes at h,
  byte_at-IsByte bytes (at + 0) h,
  byte_at-IsByte bytes (at + 1) h,
  byte_at-IsByte bytes (at + 2) h,
  byte_at-IsByte bytes (at + 3) h,
)

-- `get_u32` reads back the 32-bit integer that stands behind `front`.
pub get_u32-le32 : (v : ℕ) (back : List ℕ) → IsU32 v → get_u32 (le32 v ++ back) 0 ≡ v
unfolding get_u32
get_u32-le32 v back h =
    ap (λ (t : ℕ). bit_or (bit_or t (shl_u32 (byte_of v 16) 16)) (shl_u32 (byte_of v 24) 24))
      (or_word 8 32 (byte_of v 0) (byte_of v 8) (omega arith) (omega arith))
    ∙ ap (λ (t : ℕ). bit_or t (shl_u32 (byte_of v 24) 24))
        (or_word 16 32 (byte_of v 0 + byte_of v 8 * 2 ^ 8) (byte_of v 16) (omega arith)
          (omega arith))
    ∙ or_word 24 32 (byte_of v 0 + byte_of v 8 * 2 ^ 8 + byte_of v 16 * 2 ^ 16) (byte_of v 24)
        (omega arith) (omega arith)
    ∙ omega arith

-- One round of `get_u64`: the bytes below the `i`-th are read, and the `i`-th is that of `v`.
u64_round :
    (rounds i v : ℕ) (bytes : List ℕ)
    → v % 2 ^ (8 * i) < 2 ^ (8 * i)
    → byte_at bytes (0 + i) ≡ byte_of v (8 * i)
    → byte_of v (8 * i) * 2 ^ (8 * i) < 2 ^ 64
    → v % 2 ^ (8 * i) + byte_of v (8 * i) * 2 ^ (8 * i) ≡ v % 2 ^ (8 * (i + 1))
    → get_u64_loop (suc rounds) i (v % 2 ^ (8 * i)) bytes 0
      ≡ get_u64_loop rounds (i + 1) (v % 2 ^ (8 * (i + 1))) bytes 0
unfolding get_u64_loop
u64_round rounds i v bytes low e fits join =
    ap
      (λ (b : ℕ).
        get_u64_loop rounds (i + 1) (bit_or (v % 2 ^ (8 * i)) (b * 2 ^ (8 * i) % 2 ^ 64)) bytes 0)
      e
    ∙ ap (λ (t : ℕ). get_u64_loop rounds (i + 1) t bytes 0)
        (or_word (8 * i) 64 (v % 2 ^ (8 * i)) (byte_of v (8 * i)) low fits ∙ join)

pub get_u64-le64 : (v : ℕ) (back : List ℕ) → IsU64 v → get_u64 (le64 v ++ back) 0 ≡ v
unfolding get_u64
get_u64-le64 v back h =
    let bytes = le64 v ++ back in
    ap (λ (t : ℕ). get_u64_loop 8 0 t bytes 0) (omega arith)
    ∙ u64_round 7 0 v bytes (omega arith) refl (omega arith) (omega arith)
    ∙ u64_round 6 1 v bytes (omega arith) refl (omega arith) (omega arith)
    ∙ u64_round 5 2 v bytes (omega arith) refl (omega arith) (omega arith)
    ∙ u64_round 4 3 v bytes (omega arith) refl (omega arith) (omega arith)
    ∙ u64_round 3 4 v bytes (omega arith) refl (omega arith) (omega arith)
    ∙ u64_round 2 5 v bytes (omega arith) refl (omega arith) (omega arith)
    ∙ u64_round 1 6 v bytes (omega arith) refl (omega arith) (omega arith)
    ∙ u64_round 0 7 v bytes (omega arith) refl (omega arith) (omega arith)
    ∙ omega arith

-- A read behind `front` is a read of what follows it.
module _ (front back : List ℕ) (at : ℕ) where
  pub get_u32-append_add : get_u32 (front ++ back) (length front + at) ≡ get_u32 back at
  unfolding get_u32
  get_u32-append_add = simp (add_assoc, get_or-append_add)

  pub get_u64-append_add : get_u64 (front ++ back) (length front + at) ≡ get_u64 back at
  unfolding get_u64 get_u64_loop
  get_u64-append_add = simp (add_assoc, get_or-append_add)

-- The integer that stands behind `front`, at a position that equals its length.
module _ (front back : List ℕ) (v at : ℕ) (place : at ≡ length front) where
  pub get_u32-append : IsU32 v → get_u32 (front ++ (le32 v ++ back)) at ≡ v
  get_u32-append h =
      ap (λ (n : ℕ). get_u32 (front ++ (le32 v ++ back)) n) (place ∙ sym (add-zero (length front)))
      ∙ get_u32-append_add front (le32 v ++ back) 0
      ∙ get_u32-le32 v back h

  pub get_u64-append : IsU64 v → get_u64 (front ++ (le64 v ++ back)) at ≡ v
  get_u64-append h =
      ap (λ (n : ℕ). get_u64 (front ++ (le64 v ++ back)) n) (place ∙ sym (add-zero (length front)))
      ∙ get_u64-append_add front (le64 v ++ back) 0
      ∙ get_u64-le64 v back h

  pub byte_at-append : byte_at (front ++ (v ∷ back)) at ≡ v
  byte_at-append =
      ap (λ (n : ℕ). byte_at (front ++ (v ∷ back)) n) (place ∙ sym (add-zero (length front)))
      ∙ get_or-append_add front (v ∷ back) 0 0

pub le32-IsByte : (v : ℕ) → All IsByte (le32 v)
le32-IsByte v = omega arith

pub le64-IsByte : (v : ℕ) → All IsByte (le64 v)
le64-IsByte v = omega arith

pub put_u32-at :
    (front rest : List ℕ) (v : ℕ)
    → 4 ≤ length rest
    → put_u32 (front ++ rest) (length front) v ≡ front ++ (le32 v ++ drop 4 rest)
put_u32-at front (a ∷ b ∷ c ∷ d ∷ back) v h = put_u32-append front a b c d back v
put_u32-at front [] v h = absurd (omega arith)
put_u32-at front (a ∷ []) v h = absurd (omega arith)
put_u32-at front (a ∷ b ∷ []) v h = absurd (omega arith)
put_u32-at front (a ∷ b ∷ c ∷ []) v h = absurd (omega arith)

pub put_u64-at :
    (front rest : List ℕ) (v : ℕ)
    → 8 ≤ length rest
    → put_u64 (front ++ rest) (length front) v ≡ front ++ (le64 v ++ drop 8 rest)
put_u64-at front (a ∷ b ∷ c ∷ d ∷ e ∷ f ∷ g ∷ h ∷ back) v p =
    put_u64-append front a b c d e f g h back v
put_u64-at front [] v p = absurd (omega arith)
put_u64-at front (a ∷ []) v p = absurd (omega arith)
put_u64-at front (a ∷ b ∷ []) v p = absurd (omega arith)
put_u64-at front (a ∷ b ∷ c ∷ []) v p = absurd (omega arith)
put_u64-at front (a ∷ b ∷ c ∷ d ∷ []) v p = absurd (omega arith)
put_u64-at front (a ∷ b ∷ c ∷ d ∷ e ∷ []) v p = absurd (omega arith)
put_u64-at front (a ∷ b ∷ c ∷ d ∷ e ∷ f ∷ []) v p = absurd (omega arith)
put_u64-at front (a ∷ b ∷ c ∷ d ∷ e ∷ f ∷ g ∷ []) v p = absurd (omega arith)

module _ (out : List ℕ) (at v : ℕ) where
  -- A vector is its first `at` bytes and the rest.
  module _ (inside : at ≤ length out) where
    place : at ≡ length (take at out)
    place = omega (arith, length-take at out)

    parts : take at out ++ drop at out ≡ out
    parts = take-append-drop at out

    moved {ℓ} :
        {B : Type ℓ} (f : List ℕ → ℕ → B)
        → f out at ≡ f (take at out ++ drop at out) (length (take at out))
    moved f =
        ap (λ (t : List ℕ). f t at) (sym parts)
        ∙ ap (λ (n : ℕ). f (take at out ++ drop at out) n) place

  -- `put_u32` replaces the four bytes from `at` on, keeps all others, and `get_u32` reads `v` there.
  pub get_u32-put_u32 :
      at + 4 ≤ length out
      → IsU32 v
      → (put_u32 out at v ≡ take at out ++ (le32 v ++ drop 4 (drop at out)))
        × (get_u32 (put_u32 out at v) at ≡ v)
  get_u32-put_u32 room h =
      let written : put_u32 out at v ≡ take at out ++ (le32 v ++ drop 4 (drop at out)) =
        moved (omega arith) (λ t n. put_u32 t n v)
        ∙ put_u32-at (take at out) (drop at out) v (omega (arith, length-drop at out)) in
      (
        written,
        ap (λ (t : List ℕ). get_u32 t at) written
            ∙ get_u32-append (take at out) (drop 4 (drop at out)) v at (place (omega arith)) h,
      )

  -- The same of `put_u64` and its eight bytes.
  pub get_u64-put_u64 :
      at + 8 ≤ length out
      → IsU64 v
      → (put_u64 out at v ≡ take at out ++ (le64 v ++ drop 8 (drop at out)))
        × (get_u64 (put_u64 out at v) at ≡ v)
  get_u64-put_u64 room h =
      let written : put_u64 out at v ≡ take at out ++ (le64 v ++ drop 8 (drop at out)) =
        moved (omega arith) (λ t n. put_u64 t n v)
        ∙ put_u64-at (take at out) (drop at out) v (omega (arith, length-drop at out)) in
      (
        written,
        ap (λ (t : List ℕ). get_u64 t at) written
            ∙ get_u64-append (take at out) (drop 8 (drop at out)) v at (place (omega arith)) h,
      )
