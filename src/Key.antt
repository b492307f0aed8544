-- ===== src/Key.antt =====
-- Keys are byte strings, compared as `std::string_view` compares them: by the first byte that
-- differs, as an unsigned number, and a proper prefix comes first.
use lsm_tree_storage_engine.Prelude.{
  ℕ, ◌≡◌, Bool, List, true, false, Bool-cases, ◌↔◌, refl, ◌&&◌, [], arith, ltb, ◌==◌, inr, ◌∷◌, inl,
  if◌then◌else◌,
}

abbrev pub Key : Type 0
Key = List ℕ

-- `a < b`.
unfoldable pub key_lt : Key → Key → Bool
key_lt [] [] = false
key_lt [] (y ∷ ys) = true
key_lt (x ∷ xs) [] = false
key_lt (x ∷ xs) (y ∷ ys) = if x == y then key_lt xs ys else ltb x y

-- `a == b`.
unfoldable pub key_eq : Key → Key → Bool
key_eq [] [] = true
key_eq [] (y ∷ ys) = false
key_eq (x ∷ xs) [] = false
key_eq (x ∷ xs) (y ∷ ys) = (x == y) && key_eq xs ys

pub key_eq_iff : (a b : Key) → (key_eq a b ≡ true) ↔ (a ≡ b)
unfolding key_eq
key_eq_iff [] [] = (λ _. refl, λ _. refl)
key_eq_iff [] (y ∷ ys) = (λ h. cc, λ h. cc)
key_eq_iff (x ∷ xs) [] = (λ h. cc, λ h. cc)
key_eq_iff (x ∷ xs) (y ∷ ys) = ground (arith, key_eq_iff xs ys)

pub key_eq_refl : (a : Key) → key_eq a a ≡ true
key_eq_refl a = (key_eq_iff a a).1 refl

pub key_lt_irrefl : (a : Key) → key_lt a a ≡ false
unfolding key_lt
key_lt_irrefl [] = refl
key_lt_irrefl (x ∷ xs) = ground (arith, key_lt_irrefl xs)

pub key_lt_trans : (a b c : Key) → key_lt a b ≡ true → key_lt b c ≡ true → key_lt a c ≡ true
unfolding key_lt
key_lt_trans [] [] c h k = cc
key_lt_trans [] (y ∷ b) [] h k = cc
key_lt_trans [] (y ∷ b) (z ∷ c) h k = refl
key_lt_trans (x ∷ a) [] c h k = cc
key_lt_trans (x ∷ a) (y ∷ b) [] h k = cc
key_lt_trans (x ∷ a) (y ∷ b) (z ∷ c) h k = ground (arith, key_lt_trans a b c)

pub key_lt_asymm : (a b : Key) → key_lt a b ≡ true → key_lt b a ≡ false
unfolding key_lt
key_lt_asymm [] [] h = cc
key_lt_asymm [] (y ∷ b) h = refl
key_lt_asymm (x ∷ a) [] h = cc
key_lt_asymm (x ∷ a) (y ∷ b) h = ground (arith, key_lt_asymm a b)

-- Of two keys that are not equal one is the smaller.
pub key_lt_total : (a b : Key) → key_lt a b ≡ false → key_lt b a ≡ false → a ≡ b
unfolding key_lt
key_lt_total [] [] h k = refl
key_lt_total [] (y ∷ b) h k = cc
key_lt_total (x ∷ a) [] h k = cc
key_lt_total (x ∷ a) (y ∷ b) h k = ground (arith, key_lt_total a b)

-- `a` is not above `b`, and `b` is below `c`.
pub key_le_lt_trans : (a b c : Key) → key_lt b a ≡ false → key_lt b c ≡ true → key_lt a c ≡ true
key_le_lt_trans a b c h k = elim (Bool-cases (key_lt a b)) [
  | inl lt ↦ key_lt_trans a b c lt k
  | inr ge ↦ rw (key_lt_total a b ge h) k
]

pub key_lt_le_trans : (a b c : Key) → key_lt a b ≡ true → key_lt c b ≡ false → key_lt a c ≡ true
key_lt_le_trans a b c h k = elim (Bool-cases (key_lt b c)) [
  | inl lt ↦ key_lt_trans a b c h lt
  | inr ge ↦ rw (← key_lt_total b c ge k) h
]
