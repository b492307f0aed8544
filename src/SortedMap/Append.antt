-- ===== src/SortedMap/Append.antt =====
-- Maps cut in two, as tables in blocks are.
use lsm_tree_storage_engine.Prelude.{
  ◌≡◌, ap, sym, append-nil, ◌∷◌, ◌<◌, [], length, ◌∙◌, false, true, ◌++◌, arith, refl, none,
}
use lsm_tree_storage_engine.Key.{
  Key, key_lt, key_eq, key_lt_trans, key_eq_iff, key_le_lt_trans, key_lt_irrefl,
}
use lsm_tree_storage_engine.SortedMap.{Entries, IsSorted, find, Above}
use lsm_tree_storage_engine.SortedMap.Laws.{find-Above}

module _ {ℓ} {V : Type ℓ} where
  -- The last key, the empty one for no entries.
  abbrev pub last_of : Entries V → Key
  last_of [] = []
  last_of ((k, v) ∷ []) = k
  last_of ((k, v) ∷ e ∷ m) = last_of (e ∷ m)

  -- Every key is below `k`.
  abbrev pub Below : Key → Entries V → Type 0
  Below k [] = Unit
  Below k ((j, v) ∷ m) = (key_lt j k ≡ true) × Below k m

  pub Above-left : (j : Key) (m n : Entries V) → Above j (m ++ n) → Above j m
  Above-left j [] n a = tt
  Above-left j ((k, v) ∷ m) n a = (a.0, Above-left j m n a.1)

  pub IsSorted-left : (m n : Entries V) → IsSorted (m ++ n) → IsSorted m
  IsSorted-left [] n s = tt
  IsSorted-left ((j, v) ∷ m) n s = (Above-left j m n s.0, IsSorted-left m n s.1)

  pub IsSorted-right : (m n : Entries V) → IsSorted (m ++ n) → IsSorted n
  IsSorted-right [] n s = s
  IsSorted-right (e ∷ m) n s = IsSorted-right m n s.1

  Above-right : (j : Key) (m n : Entries V) → Above j (m ++ n) → Above j n
  Above-right j [] n a = a
  Above-right j (e ∷ m) n a = Above-right j m n a.1

  pub Above-last : (m n : Entries V) → 0 < length m → IsSorted (m ++ n) → Above (last_of m) n
  Above-last [] n h s = absurd (omega arith)
  Above-last ((k, v) ∷ []) n h s = s.0
  Above-last ((k, v) ∷ e ∷ m) n h s = Above-last (e ∷ m) n (omega arith) s.1

  pub Above-le : (k l : Key) (m : Entries V) → key_lt l k ≡ false → Above l m → Above k m
  Above-le k l [] h a = tt
  Above-le k l ((j, v) ∷ m) h a = (key_le_lt_trans k l j h a.0, Above-le k l m h a.1)

  pub Below-last : (k : Key) (m : Entries V) → IsSorted m → key_lt (last_of m) k ≡ true → Below k m
  Below-last k [] s h = tt
  Below-last k ((j, v) ∷ []) s h = (h, tt)
  Below-last k ((j, v) ∷ (i, w) ∷ m) s h =
      let rest = Below-last k ((i, w) ∷ m) s.1 h in (key_lt_trans j i k s.0.0 rest.0, rest)

  pub find-append-Below : (k : Key) (m n : Entries V) → Below k m → find k (m ++ n) ≡ find k n
  unfolding find
  find-append-Below k [] n b = refl
  find-append-Below k ((j, v) ∷ m) n b = rw (key_lt-key_eq j k b.0) (find-append-Below k m n b.1)
    where
      key_lt-key_eq : (j k : Key) → key_lt j k ≡ true → key_eq j k ≡ false
      key_lt-key_eq j k h = ground (arith, h, key_eq_iff j k, key_lt_irrefl j)

  pub find-append-Above : (k : Key) (m n : Entries V) → Above k n → find k (m ++ n) ≡ find k m
  unfolding find
  find-append-Above k [] n a = find-Above k n a
  find-append-Above k ((j, v) ∷ m) n a = ground (arith, find-append-Above k m n a)

  -- Nothing is found below the first key and behind the last.
  pub find-behind_last :
      (k : Key) (m : Entries V) → IsSorted m → key_lt (last_of m) k ≡ true → find k m ≡ none
  unfolding find
  find-behind_last k m s h =
      ap (find k) (sym (append-nil m)) ∙ find-append-Below k m [] (Below-last k m s h)
