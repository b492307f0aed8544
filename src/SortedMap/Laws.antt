-- ===== src/SortedMap/Laws.antt =====
-- Order and lookup of the map's operations.
use lsm_tree_storage_engine.Prelude.{
  ◌≡◌, true, if◌then◌else◌, none, some, [], arith, refl, ◌∷◌, false, inr, Bool-cases, ◌∙◌, Bool, ap,
  inl,
}
use lsm_tree_storage_engine.Key.{
  Key, key_lt, key_eq, key_lt_trans, key_eq_iff, key_lt_total, key_lt_irrefl, key_eq_refl,
}
use lsm_tree_storage_engine.SortedMap.{find, assign, Entries, Above, IsSorted}

module _ {ℓ} {V : Type ℓ} where
  pub Above-trans : (k j : Key) (m : Entries V) → key_lt k j ≡ true → Above j m → Above k m
  Above-trans k j [] h a = tt
  Above-trans k j ((i, v) ∷ m) h a = (key_lt_trans k j i h a.0, Above-trans k j m h a.1)

  pub find-Above : (k : Key) (m : Entries V) → Above k m → find k m ≡ none
  unfolding find
  find-Above k [] a = refl
  find-Above k ((j, v) ∷ m) a = ground (arith, key_eq_iff j k, key_lt_irrefl k, find-Above k m)

  pub find-assign :
      (k j : Key) (v : V) (m : Entries V)
      → find j (assign k v m) ≡ (if key_eq k j then some v else find j m)
  unfolding find assign
  find-assign k j v [] = refl
  find-assign k j v ((i, w) ∷ m) =
      ground (arith, key_eq_iff i k, key_eq_iff i j, key_eq_iff k j, find-assign k j v m)

  Above-assign :
      (i k : Key) (v : V) (m : Entries V) → key_lt i k ≡ true → Above i m → Above i (assign k v m)
  unfolding assign
  Above-assign i k v [] h a = (h, tt)
  Above-assign i k v ((j, w) ∷ m) h a = ground (arith, Above-assign i k v m h a.1)

  pub assign-IsSorted : (k : Key) (v : V) (m : Entries V) → IsSorted m → IsSorted (assign k v m)
  unfolding assign
  assign-IsSorted k v [] s = (tt, tt)
  assign-IsSorted k v ((j, w) ∷ m) s = ground (
    arith,
    key_eq_iff j k,
    Above-trans k j m,
    Above-assign j k v m,
    key_lt_total j k,
    assign-IsSorted k v m s.1,
  )

  -- A bound on what can be found is a bound on the keys.
  pub Above-of_find :
      (k : Key) (m : Entries V)
      → IsSorted m
      → ((j : Key) (v : V) → find j m ≡ some v → key_lt k j ≡ true)
      → Above k m
  unfolding find
  Above-of_find k [] s h = tt
  Above-of_find k ((j, v) ∷ m) s h = (
    h j v (ap (λ (b : Bool). if b then some v else find j m) (key_eq_refl j)),
    Above-of_find k m s.1 (λ i w found.
        h i w (ap (λ (b : Bool). if b then some v else find i m) (other i w found) ∙ found)),
  )
    where
      other : (i : Key) (w : V) → find i m ≡ some w → key_eq j i ≡ false
      other i w found = elim (Bool-cases (key_eq j i)) [
        | inr e ↦ e
        | inl same ↦
            cc (found, find-Above j m s.0, ap (λ (x : Key). find x m) ((key_eq_iff j i).0 same))
      ]
