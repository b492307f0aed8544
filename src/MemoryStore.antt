-- ===== src/MemoryStore.antt =====
-- include/kvstore/memory_store.hpp and src/memory_store.cpp: the store that keeps all in memory. The
-- hash table is a map whose order nothing reads, kept here in key order. `get` is given somewhere to
-- write; a null pointer is not modelled.
use mathlib.Core.Path.{subst}
use lsm_tree_storage_engine.Prelude.{
  ℕ, invalid_argument, Status, List, false, inl, none, Result, sym, refl, not_found, map, Bool, ◌∷◌,
  [], inr, ap, Option, some, length, err, Bool-cases, true, arith, ◌∙◌, ◌≡◌, ok, if◌then◌else◌,
}
use lsm_tree_storage_engine.Key.{Key, key_eq, key_eq_iff}
use lsm_tree_storage_engine.SortedMap.{Entries, find, assign, erase, IsSorted, Above}
use lsm_tree_storage_engine.SortedMap.Laws.{find-Above, assign-IsSorted, find-assign}

abbrev pub Map : Type 0
Map = Entries (List ℕ)

unfoldable pub put : Map → Key → List ℕ → Map × Status
put map key value =
    if key_eq key [] then (map, err invalid_argument) else (assign key value map, ok tt)

abbrev pub found : Option (List ℕ) → Result (List ℕ)
found none = err not_found
found (some value) = ok value

unfoldable pub get : Map → Key → Result (List ℕ)
get map key = found (find key map)

unfoldable pub remove : Map → Key → Map × Status
remove map key = (erase key map, ok tt)

unfoldable pub size : Map → ℕ
size map = length map

find-erase :
    (j k : Key) (m : Map)
    → IsSorted m
    → find k (erase j m) ≡ (if key_eq j k then none else find k m)
unfolding find erase
find-erase j k [] s = elim (Bool-cases (key_eq j k)) [
  | inl same ↦ rw same refl
  | inr other ↦ rw other refl
]
find-erase j k ((i, v) ∷ m) s = elim (Bool-cases (key_eq i j)) [
  | inl here ↦ elim (Bool-cases (key_eq j k)) [
    | inl same ↦
        rw (here, same)
          (find-Above k m (
            subst (λ (x : Key). Above x m) ((key_eq_iff i j).0 here ∙ (key_eq_iff j k).0 same) s.0))
    | inr other ↦
        rw (here, other)
          (ground
            (arith, subst (λ (x : Key). key_eq x k ≡ false) (sym ((key_eq_iff i j).0 here)) other))
  ]
  | inr past ↦ elim (Bool-cases (key_eq j k)) [
    | inl same ↦
        let off : key_eq i k ≡ false =
          subst (λ (x : Key). key_eq i x ≡ false) ((key_eq_iff j k).0 same) past in
        ground (arith, past, same, off, find-erase j k m s.1)
    | inr other ↦ ground (arith, past, other, find-erase j k m s.1)
  ]
]

Above-erase : (i k : Key) (m : Map) → Above i m → Above i (erase k m)
unfolding erase
Above-erase i k [] a = tt
Above-erase i k ((j, w) ∷ m) a = elim (Bool-cases (key_eq j k)) [
  | inl here ↦ rw here a.1
  | inr past ↦ rw past (a.0, Above-erase i k m a.1)
]

erase-IsSorted : (k : Key) (m : Map) → IsSorted m → IsSorted (erase k m)
unfolding erase
erase-IsSorted k [] s = tt
erase-IsSorted k ((j, w) ∷ m) s = elim (Bool-cases (key_eq j k)) [
  | inl here ↦ rw here s.1
  | inr past ↦ rw past (Above-erase j k m s.0, erase-IsSorted k m s.1)
]

-- In a map in key order: a put of a key that is not empty succeeds, a remove always does, the map
-- stays in key order, and a lookup then finds what was put, nothing under the key removed, and under
-- any other key what it found before.
pub get-put-remove :
    (map : Map) (key k : Key) (value : List ℕ)
    → IsSorted map
    → key_eq key [] ≡ false
    → ((put map key value).1 ≡ ok tt)
      × (IsSorted (put map key value).0)
      × (get (put map key value).0 k ≡ (if key_eq key k then ok value else get map k))
      × ((remove map key).1 ≡ ok tt)
      × (IsSorted (remove map key).0)
      × (get (remove map key).0 k ≡ (if key_eq key k then err not_found else get map k))
unfolding put get remove
get-put-remove map key k value s nonempty = rw nonempty (
  refl,
  assign-IsSorted key value map s,
  ap found (find-assign key k value map) ∙ pushed (key_eq key k),
  refl,
  erase-IsSorted key map s,
  ap found (find-erase key k map s) ∙ emptied (key_eq key k),
)
  where
    pushed :
        (b : Bool)
        → found (if b then some value else find k map)
          ≡ (if b then ok value else found (find k map))
    pushed true = refl
    pushed false = refl

    emptied :
        (b : Bool)
        → found (if b then none else find k map) ≡ (if b then err not_found else found (find k map))
    emptied true = refl
    emptied false = refl
