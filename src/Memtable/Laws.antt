-- ===== src/Memtable/Laws.antt =====
-- src/memtable.cpp: the order of the memtable, its size estimate, and its lookups.
use lsm_tree_storage_engine.Prelude.{
  ◌∷◌, none, length, ◌≡◌, ◌+◌, [], some, arith, List, inr, ℕ, true, false, Bool, ◌≤◌, Option-cases,
  inl, if◌then◌else◌,
}
use lsm_tree_storage_engine.Key.{Key, key_eq_iff, key_eq}
use lsm_tree_storage_engine.SortedMap.{find, assign, Entries, IsSorted}
use lsm_tree_storage_engine.Memtable.{
  MemEntry, counted, get, insert, put, resized, remove, Memtable, IsValid,
}
use lsm_tree_storage_engine.SortedMap.Laws.{Above-trans, find-Above, assign-IsSorted, find-assign}

counted-fresh :
    (k : Key) (e : MemEntry) (m : Entries MemEntry)
    → find k m ≡ none
    → counted (assign k e m) ≡ counted m + (length k + length e.value + 64)
unfolding find assign
counted-fresh k e [] h = omega arith
counted-fresh k e ((j, w) ∷ m) h = ground (arith, key_eq_iff j k, counted-fresh k e m)

-- An entry that is there is counted.
counted-find :
    (k : Key) (old : MemEntry) (m : Entries MemEntry)
    → find k m ≡ some old
    → length k + length old.value + 64 ≤ counted m
unfolding find
counted-find k old [] h = cc
counted-find k old ((j, w) ∷ m) h = ground (arith, key_eq_iff j k, counted-find k old m)

counted-assign :
    (k : Key) (e old : MemEntry) (m : Entries MemEntry)
    → IsSorted m
    → find k m ≡ some old
    → counted (assign k e m) + length old.value ≡ counted m + length e.value
unfolding find assign
counted-assign k e old [] s h = cc
counted-assign k e old ((j, w) ∷ m) s h =
    ground (arith, key_eq_iff j k, Above-trans k j m, find-Above k m, counted-assign k e old m s.1)

-- Every write keeps the entries in order and the size estimate equal to the sizes of the entries.
pub insert-IsValid :
    (m : Memtable) (key : Key) (value : List ℕ) (tombstone : Bool)
    → IsValid m
    → IsValid (insert m key value tombstone)
unfolding insert resized
insert-IsValid m key value tombstone v = record {
  sorted = assign-IsSorted key _ m.entries v.sorted;
  sized = elim (Option-cases (find key m.entries)) [
    | inl fresh ↦ rw fresh (omega (arith, v.sized, counted-fresh key entry m.entries fresh))
    | inr (old, found) ↦ rw found (
        omega (
          arith,
          v.sized,
          counted-assign key entry old m.entries v.sorted found,
          counted-find key old m.entries found,
        ))
  ];
}
  where
    entry : MemEntry
    entry = record { value = value; tombstone = tombstone }

-- A lookup after a write returns the entry written, and any other key's entry as before.
pub get-put :
    (m : Memtable) (key j : Key) (value : List ℕ)
    → get (put m key value) j
      ≡ (if key_eq key j then some (record { value = value; tombstone = false }) else get m j)
unfolding get put insert
get-put m key j value = find-assign key j _ m.entries

-- A removed key has an entry, a tombstone with no value, and any other key's entry is as before.
pub get-remove :
    (m : Memtable) (key j : Key)
    → get (remove m key) j
      ≡ (if key_eq key j then some (record { value = []; tombstone = true }) else get m j)
unfolding get remove insert
get-remove m key j = find-assign key j _ m.entries
