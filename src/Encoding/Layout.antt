-- ===== src/Encoding/Layout.antt =====
-- What the puts of src/encoding.hpp leave in the vector.
use lsm_tree_storage_engine.Prelude.{
  ℕ, zero, suc, ◌+◌, ◌≡◌, refl, sym, ap, ◌∙◌, List, [], ◌∷◌, ◌++◌, length, set, replicate, arith,
  set-append_add, append_assoc, length-append,
}
use lsm_tree_storage_engine.Encoding.{copy_to, put_u32, put_u64, append_u32, append_u64, le32, le64}

module _ (front : List ℕ) where
  -- A put over four bytes behind `front` replaces just these.
  pub put_u32-append :
      (a b c d : ℕ) (back : List ℕ) (v : ℕ)
      → put_u32 (front ++ (a ∷ b ∷ c ∷ d ∷ back)) (length front) v ≡ front ++ (le32 v ++ back)
  unfolding put_u32
  put_u32-append a b c d back v = simp set-append_add

  pub put_u64-append :
      (a b c d e f g h : ℕ) (back : List ℕ) (v : ℕ)
      → put_u64 (front ++ (a ∷ b ∷ c ∷ d ∷ e ∷ f ∷ g ∷ h ∷ back)) (length front) v
        ≡ front ++ (le64 v ++ back)
  unfolding put_u64
  put_u64-append a b c d e f g h back v = simp set-append_add

  pub append_u32_lem : (v : ℕ) → append_u32 front v ≡ front ++ le32 v
  unfolding append_u32
  append_u32_lem v = put_u32-append 0 0 0 0 [] v

  pub append_u64_lem : (v : ℕ) → append_u64 front v ≡ front ++ le64 v
  unfolding append_u64
  append_u64_lem v = put_u64-append 0 0 0 0 0 0 0 0 [] v

-- A copy over as many bytes replaces just these.
pub copy_to-append :
    (front bytes old back : List ℕ)
    → length old ≡ length bytes
    → copy_to (front ++ (old ++ back)) (length front) bytes ≡ front ++ (bytes ++ back)
copy_to-append front [] [] back h = refl
copy_to-append front [] (o ∷ old) back h = absurd (omega arith)
copy_to-append front (b ∷ bytes) [] back h = absurd (omega arith)
copy_to-append front (b ∷ bytes) (o ∷ old) back h =
    ap (λ (t : List ℕ). copy_to t (length front + 1) bytes) first
    ∙ ap (λ (n : ℕ). copy_to ((front ++ b ∷ []) ++ (old ++ back)) n bytes) place
    ∙ copy_to-append (front ++ b ∷ []) bytes old back (omega arith)
    ∙ append_assoc front (b ∷ []) (bytes ++ back)
  where
    first : set (front ++ (o ∷ old ++ back)) (length front) b ≡ (front ++ b ∷ []) ++ (old ++ back)
    first =
        ap (λ (n : ℕ). set (front ++ (o ∷ old ++ back)) n b) (omega arith)
        ∙ set-append_add front (o ∷ old ++ back) 0 b
        ∙ sym (append_assoc front (b ∷ []) (old ++ back))

    place : length front + 1 ≡ length (front ++ b ∷ [])
    place = omega (arith, length-append front (b ∷ []))

pub replicate-add {ℓ} :
    {A : Type ℓ} (n m : ℕ) (a : A) → replicate (n + m) a ≡ replicate n a ++ replicate m a
replicate-add zero m a = ap (λ k. replicate k a) (omega arith)
replicate-add (suc n) m a =
    ap (λ k. replicate k a) (step n m) ∙ ap (λ xs. a ∷ xs) (replicate-add n m a)
  where
    step : (n k : ℕ) → suc n + k ≡ suc (n + k)
    step n k = omega arith
