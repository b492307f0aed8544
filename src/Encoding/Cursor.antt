-- ===== src/Encoding/Cursor.antt =====
-- A reader that stands at a position of a block, with what it still has to read.
use lsm_tree_storage_engine.Prelude.{
  ℕ, arith, [], refl, ◌++◌, ◌+◌, zero, ◌∷◌, get_or, suc, length, ◌≡◌, take-append_eq, drop, ap,
  drop-append_eq, take, List, ◌∙◌, sym,
}
use lsm_tree_storage_engine.Encoding.{subspan, get_u32, get_u64, le32, IsU32, le64, IsU64, byte_at}
use lsm_tree_storage_engine.Encoding.RoundTrip.{get_u32-le32, get_u64-le64}

drop-nil : (n : ℕ) → drop {A = ℕ} n [] ≡ []
drop-nil zero = refl
drop-nil (suc n) = refl

pub drop-drop : (n m : ℕ) (xs : List ℕ) → drop (n + m) xs ≡ drop m (drop n xs)
drop-drop zero m xs = ap (λ k. drop k xs) (omega arith)
drop-drop (suc n) m [] = drop-nil (suc n + m) ∙ sym (drop-nil m)
drop-drop (suc n) m (x ∷ xs) = ap (λ k. drop k (x ∷ xs)) (moved n m) ∙ drop-drop n m xs
  where
    moved : (n m : ℕ) → suc n + m ≡ suc (n + m)
    moved n m = omega arith

get_or-drop : (n i : ℕ) (xs : List ℕ) → get_or xs (n + i) 0 ≡ get_or (drop n xs) i 0
get_or-drop zero i xs = ap (λ k. get_or xs k 0) (omega arith)
get_or-drop (suc n) zero [] = refl
get_or-drop (suc n) (suc i) [] = refl
get_or-drop (suc n) i (x ∷ xs) = ap (λ k. get_or (x ∷ xs) k 0) (moved n i) ∙ get_or-drop n i xs
  where
    moved : (n i : ℕ) → suc n + i ≡ suc (n + i)
    moved n i = omega arith

-- The bytes from a position on.
pub record At (bytes : List ℕ) (at : ℕ) (rest : List ℕ) : Type 0 where
  pub left : drop at bytes ≡ rest

pub At-skip :
    {bytes : List ℕ} {at : ℕ} (n : ℕ) {rest : List ℕ}
    → At bytes at rest
    → At bytes (at + n) (drop n rest)
At-skip {bytes} {at} n a = record { left = drop-drop at n bytes ∙ ap (drop n) a.left }

pub At-append : (front rest : List ℕ) (at : ℕ) → at ≡ length front → At (front ++ rest) at rest
At-append front rest at h = record { left = drop-append_eq at front rest h }

get_u32-drop : (bytes : List ℕ) (at : ℕ) → get_u32 bytes at ≡ get_u32 (drop at bytes) 0
unfolding get_u32
get_u32-drop bytes at = simp get_or-drop

get_u64-drop : (bytes : List ℕ) (at : ℕ) → get_u64 bytes at ≡ get_u64 (drop at bytes) 0
unfolding get_u64
get_u64-drop bytes at = simp get_or-drop

module _ {bytes : List ℕ} {at : ℕ} (v : ℕ) (rest : List ℕ) where
  pub get_u32-At : At bytes at (le32 v ++ rest) → IsU32 v → get_u32 bytes at ≡ v
  get_u32-At a h =
      get_u32-drop bytes at ∙ ap (λ (t : List ℕ). get_u32 t 0) a.left ∙ get_u32-le32 v rest h

  pub get_u64-At : At bytes at (le64 v ++ rest) → IsU64 v → get_u64 bytes at ≡ v
  get_u64-At a h =
      get_u64-drop bytes at ∙ ap (λ (t : List ℕ). get_u64 t 0) a.left ∙ get_u64-le64 v rest h

module _ {bytes : List ℕ} {at : ℕ} (s rest : List ℕ) where
  pub subspan-At : At bytes at (s ++ rest) → subspan bytes at (length s) ≡ s
  subspan-At a = ap (take (length s)) a.left ∙ take-append_eq (length s) s rest refl

  pub At-append_skip : At bytes at (s ++ rest) → At bytes (at + length s) rest
  At-append_skip a = record {
    left =
        drop-drop at (length s) bytes
        ∙ ap (drop (length s)) a.left
        ∙ drop-append_eq (length s) s rest refl;
  }

pub byte_at-At :
    {bytes : List ℕ} {at b : ℕ} {rest : List ℕ} → At bytes at (b ∷ rest) → byte_at bytes at ≡ b
byte_at-At {bytes} {at} a =
    ap (λ (n : ℕ). get_or bytes n 0) (omega arith)
    ∙ get_or-drop at 0 bytes
    ∙ ap (λ (t : List ℕ). get_or t 0 0) a.left
