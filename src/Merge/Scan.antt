-- ===== src/Merge/Scan.antt =====
-- The loop of every user of the merge: `seek_to_first()`, then a row and `next()` while `valid()`.
use mathlib.Core.Path.{subst}
use lsm_tree_storage_engine.Prelude.{
  ℕ, false, ◌≡◌, err, ap, inl, none, suc, ◌∷◌, map, true, inr, [], ◌<◌, ◌∙◌, some, ok, zero, List,
  refl, sym, arith, Status, Option, All, if◌then◌else◌,
}
use lsm_tree_storage_engine.Key.{Key, key_eq}
use lsm_tree_storage_engine.Memtable.{MemEntry}
use lsm_tree_storage_engine.SortedMap.{IsSorted, find}
use lsm_tree_storage_engine.Merge.{
  MergingIterator, Tombstones, find_next_live, all_rows_left, merging, find_loop,
}
use lsm_tree_storage_engine.Merge.Pick.{Table, source_of, newest}
use lsm_tree_storage_engine.Merge.Rows.{Next, shown, entry_at, find_loop-Next}
use lsm_tree_storage_engine.SortedMap.Laws.{Above-of_find}

-- The rows read, and the status that ended the loop. `none` means that the fuel ran out.
unfoldable pub read_rows : ℕ → Option (MergingIterator × Status) → Option (Table × Status)
read_rows zero r = none
read_rows (suc fuel) none = none
read_rows (suc fuel) (some (it, err code)) = some ([], err code)
read_rows (suc fuel) (some (it, ok _)) = elim it.valid [
  | false ↦ some ([], ok tt)
  | true ↦ elim (read_rows fuel (find_next_live it)) [
    | none ↦ none
    | some (rows, status) ↦ some ((it.key, entry_at it) ∷ rows, status)
  ]
]

unfoldable pub read_all : MergingIterator → Option (Table × Status)
read_all it = read_rows (suc (all_rows_left it.sources)) (find_next_live it)

read_rows-row :
    (fuel : ℕ) (it : MergingIterator) (rows : Table) (status : Status)
    → it.valid ≡ true
    → read_rows fuel (find_next_live it) ≡ some (rows, status)
    → read_rows (suc fuel) (some (it, ok tt)) ≡ some ((it.key, entry_at it) ∷ rows, status)
unfolding read_rows
read_rows-row fuel it rows status v h = ground arith

module _ (mode : Tombstones) where
  find_next_live-Next :
      (ms : List Table) (it : MergingIterator)
      → it.sources ≡ map source_of ms
      → it.mode ≡ mode
      → All IsSorted ms
      → Next mode ms (find_next_live it)
  unfolding find_next_live
  find_next_live-Next ms it src md s =
      subst (λ r. Next mode ms r)
        (λ i. find_loop (suc (all_rows_left (sym src i))) (record {
          sources = sym src i;
          mode = sym md i;
          key = it.key;
          value = it.value;
          tombstone = it.tombstone;
          valid = false;
          status = it.status;
        }))
        (find_loop-Next mode (suc (all_rows_left (map source_of ms))) ms it.key it.value
          it.tombstone it.status (omega arith) s)

  -- The rows read are those that the sources show.
  abbrev Reads : List Table → Option (Table × Status) → Type 0
  Reads ms r =
      (rows : Table) × (r ≡ some (rows, ok tt))
      × IsSorted rows
      × ((k : Key) → find k rows ≡ shown mode (newest k ms))

  read_rows-Reads :
      (fuel : ℕ) (ms : List Table) (r : Option (MergingIterator × Status))
      → all_rows_left (map source_of ms) < fuel
      → Next mode ms r
      → Reads ms (read_rows fuel r)
  unfolding read_rows find
  read_rows-Reads zero ms r h n = absurd (omega arith)
  read_rows-Reads (suc fuel) ms r h (it, e, inr end) =
      ([], rw e (rw (end.invalid, read_rows)), tt, λ k. sym (end.nothing k))
  read_rows-Reads (suc fuel) ms r h (it, e, inl on) =
      let (rows, read, sorted, same) =
        read_rows-Reads fuel on.left (find_next_live it) (omega (arith, on.fewer))
          (find_next_live-Next on.left it on.sources on.same_mode on.sorted) in
      (
        (it.key, entry_at it) ∷ rows,
        ap (read_rows (suc fuel)) e ∙ read_rows-row fuel it rows (ok tt) on.valid read,
        (Above-of_find it.key rows sorted (λ j v f. on.above j v (sym (same j) ∙ f)), sorted),
        λ k.
            ap (λ (o : Option MemEntry). if key_eq it.key k then some (entry_at it) else o) (same k)
            ∙ sym (on.here k),
      )

  -- Over sorted sources, newest first, the merge ends and gives rows in key order. Each key has the
  -- entry of the first source that holds it; a tombstone is left out in skip mode, and given with no
  -- value in emit mode; and a key that no source holds has no row.
  pub read_all-newest :
      (ms : List Table)
      → All IsSorted ms
      → (rows : Table) × (read_all (merging (map source_of ms) mode) ≡ some (rows, ok tt))
        × IsSorted rows
        × ((k : Key) → find k rows ≡ shown mode (newest k ms))
  unfolding read_all
  read_all-newest ms s =
      read_rows-Reads (suc (all_rows_left (map source_of ms))) ms _ (omega arith)
        (find_next_live-Next ms (merging (map source_of ms) mode) refl refl s)
