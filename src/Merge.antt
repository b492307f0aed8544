-- ===== src/Merge.antt =====
-- src/lsm_iterator.hpp and src/lsm_iterator.cpp: `MergingIterator`, the merge of entry sources that
-- stand newest first.
pub mod Pick
pub mod Round
pub mod Rows
pub mod Scan
use lsm_tree_storage_engine.Prelude.{
  ℕ, StatusCode, some, err, zero, ◌∷◌, none, Option, ◌||◌, suc, Bool, List, Status, not, true, ok,
  ◌+◌, [], false, if◌then◌else◌,
}
use lsm_tree_storage_engine.Key.{Key, key_lt, key_eq}
use lsm_tree_storage_engine.Memtable.{MemEntry}

-- An `EntrySource` by what it still has: a row behind which `advance()` succeeds, or one behind
-- which it fails with a status.
pub data Source : Type 0 where
  exhausted : Source
  row : Key → MemEntry → Source → Source
  broken : Key → MemEntry → StatusCode → Source

pub data Tombstones : Type 0 where
  skip emit : Tombstones

pub record MergingIterator : Type 0 where
  pub sources : List Source
  pub mode : Tombstones
  pub key : Key
  pub value : List ℕ
  pub tombstone : Bool
  pub valid : Bool
  pub status : Status

abbrev pub merging : List Source → Tombstones → MergingIterator
merging sources mode = record {
  sources = sources;
  mode = mode;
  key = [];
  value = [];
  tombstone = false;
  valid = false;
  status = ok tt;
}

-- `winner == nullptr || source->key() < winner->key()`.
abbrev pub better : Key → MemEntry → Option (Key × MemEntry) → Option (Key × MemEntry)
better k e none = some (k, e)
better k e (some (a, x)) = if key_lt k a then some (k, e) else some (a, x)

-- The search for the winner, from the newest source on, with the winner so far.
unfoldable pub winner : Option (Key × MemEntry) → List Source → Option (Key × MemEntry)
winner best [] = best
winner best (exhausted ∷ sources) = winner best sources
winner best (row k e _ ∷ sources) = winner (better k e best) sources
winner best (broken k e _ ∷ sources) = winner (better k e best) sources

-- Every source that stands on the key is advanced, up to the first that fails.
unfoldable pub advance_all : Key → List Source → List Source × Status
advance_all key [] = ([], ok tt)
advance_all key (exhausted ∷ sources) =
    let (rest, status) = advance_all key sources in (exhausted ∷ rest, status)
advance_all key (row k e next ∷ sources) =
    let (rest, status) = advance_all key sources in
    ((if key_eq k key then next else row k e next) ∷ rest, status)
advance_all key (broken k e code ∷ sources) =
    let (rest, status) = advance_all key sources in
    if key_eq k key then (broken k e code ∷ sources, err code) else (broken k e code ∷ rest, status)

abbrev pub emits : Tombstones → Bool
emits skip = false
emits emit = true

-- The loop of `find_next_live`; `none` means that the fuel ran out.
unfoldable pub find_loop : ℕ → MergingIterator → Option (MergingIterator × Status)
find_loop zero it = none
find_loop (suc fuel) it = elim (winner none it.sources) [
  | none ↦ some (it, ok tt)
  | some (key, entry) ↦
      let deleted = entry.tombstone in
      let value = if deleted then [] else entry.value in
      let (sources, advanced) = advance_all key it.sources in
      let moved = record it { sources = sources; key = key; value = value } in
      elim advanced [
        | err code ↦ some (record moved { status = err code }, err code)
        | ok _ ↦ elim (not deleted || emits it.mode) [
          | true ↦ some (record moved { tombstone = deleted; valid = true }, ok tt)
          | false ↦ find_loop fuel moved
        ]
      ]
]

abbrev pub rows_left : Source → ℕ
rows_left exhausted = 0
rows_left (row k e next) = suc (rows_left next)
rows_left (broken k e code) = 1

abbrev pub all_rows_left : List Source → ℕ
all_rows_left [] = 0
all_rows_left (s ∷ sources) = rows_left s + all_rows_left sources

-- `find_next_live`, which `seek_to_first` and `next` call. Each round takes a row at least.
unfoldable pub find_next_live : MergingIterator → Option (MergingIterator × Status)
find_next_live it = find_loop (suc (all_rows_left it.sources)) (record it { valid = false })
