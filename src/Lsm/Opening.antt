-- ===== src/Lsm/Opening.antt =====
-- src/lsm.cpp, `LsmStore::recover` and what it calls. A directory is what it holds: the file of each
-- table's id, the ids that stand in it in order, the manifest, and the logs with their ids in order.
-- Removing swept files is not modelled.
use lsm_tree_storage_engine.Prelude.{
  ℕ, List, none, ltb, reject_if, ◌∷◌, false, ◌^◌, Option, [], ◌+◌, ◌%◌, some, ◌==◌, set, ok, Result,
  leb, Bool, err, not, ◌>>=◌, io_error, ◌++◌, corruption, ◌&&◌, if◌then◌else◌, ◌>>◌, ◌||◌, length,
}
use lsm_tree_storage_engine.Crc.{Zlib}
use lsm_tree_storage_engine.Key.{key_eq}
use lsm_tree_storage_engine.Memtable.{Memtable, empty_table}
use lsm_tree_storage_engine.Manifest.{TableMeta, LevelSet, first_file_id}
use lsm_tree_storage_engine.Wal.{Replayed, replay_into}
use lsm_tree_storage_engine.SsTable.Table.{SsTable, load}
use lsm_tree_storage_engine.Lsm.{StoreOptions, Store, Levels, no_fail_point, publish}
use lsm_tree_storage_engine.Lsm.Flushing.{
  build_table_unlocked, commit_manifest, holds_nothing, replaced,
}
use lsm_tree_storage_engine.LogFile.{new_file}
use lsm_tree_storage_engine.Manifest

pub record Directory : Type 0 where
  pub table_file : ℕ → Result (List ℕ)
  pub table_ids : List ℕ
  pub manifest : Option (List ℕ)
  pub logs : List (ℕ × List ℕ)

unfoldable pub open_table : Zlib → StoreOptions → Directory → ℕ → Result SsTable
open_table z options dir id = do
  file ← dir.table_file id
  load z id options.mapped options.bloom_enabled file

-- The manifest's entry is what the table says of itself.
abbrev pub agrees : SsTable → TableMeta → Bool
agrees table meta =
    (table.footer.entry_count == meta.entry_count)
    && (key_eq table.min_key meta.min_key && key_eq table.max_key meta.max_key)

-- The loops of `open_from_manifest`.
unfoldable pub open_tables :
    Zlib → StoreOptions → Directory → ℕ → List TableMeta → Result (List SsTable)
open_tables z options dir next_id [] = ok []
open_tables z options dir next_id (meta ∷ metas) = do
  reject_if (leb next_id meta.id) corruption
  table ← open_table z options dir meta.id
  reject_if (not (agrees table meta)) corruption
  rest ← open_tables z options dir next_id metas
  ok (table ∷ rest)

unfoldable pub open_levels :
    Zlib → StoreOptions → Directory → ℕ → List (List TableMeta) → Result Levels
open_levels z options dir next_id [] = ok []
open_levels z options dir next_id (metas ∷ levels) = do
  level ← open_tables z options dir next_id metas
  rest ← open_levels z options dir next_id levels
  ok (level ∷ rest)

unfoldable pub open_from_manifest : Zlib → StoreOptions → Directory → LevelSet → Result (ℕ × Levels)
open_from_manifest z options dir set = do
  levels ← open_levels z options dir set.next_id set.levels
  ok (set.next_id, levels)

-- The counter behind every id.
unfoldable pub raise_next_id : ℕ → List ℕ → Result ℕ
raise_next_id next_id [] = ok next_id
raise_next_id next_id (id ∷ ids) = do
  reject_if (id == 4294967295) io_error
  raise_next_id (if ltb next_id (id + 1) then id + 1 else next_id) ids

-- Level 0 of the tables, in reverse order of their ids.
unfoldable pub open_reversed : Zlib → StoreOptions → Directory → List ℕ → Result (List SsTable)
open_reversed z options dir [] = ok []
open_reversed z options dir (id ∷ ids) = do
  newer ← open_reversed z options dir ids
  table ← open_table z options dir id
  ok (newer ++ table ∷ [])

unfoldable pub adopt_unmanifested_layout : Zlib → StoreOptions → Directory → Result (ℕ × Levels)
adopt_unmanifested_layout z options dir = do
  next_id ← raise_next_id first_file_id dir.table_ids
  level0 ← open_reversed z options dir dir.table_ids
  ok (next_id, level0 ∷ [])

-- `kHeaderSize + kTrailerSize` and `kMaxManifestSize`.
abbrev min_manifest_size : ℕ
min_manifest_size = 20

abbrev pub max_manifest_size : ℕ
max_manifest_size = 67108864

-- `manifest::read` of a file that is there.
unfoldable pub read_manifest : Zlib → List ℕ → Result LevelSet
read_manifest z manifest = do
  reject_if (ltb (length manifest) min_manifest_size || ltb max_manifest_size (length manifest))
      corruption
  Manifest.decode z manifest

-- What the manifest leads to.
unfoldable pub open_levels_of :
    Zlib → StoreOptions → Directory → Option (List ℕ) → Result (ℕ × Levels)
open_levels_of z options dir none = adopt_unmanifested_layout z options dir
open_levels_of z options dir (some manifest) = do
  set ← read_manifest z manifest
  open_from_manifest z options dir set

-- The logs, oldest first; `none` is a scan out of fuel.
abbrev pub replay_on :
    (Memtable → Option (Result Memtable)) → Option Replayed → Option (Result Memtable)
replay_on next none = none
replay_on next (some replayed) = elim replayed.result [
  | err code ↦ some (err code)
  | ok count ↦ next replayed.table
]

unfoldable pub replay_logs : Zlib → List (ℕ × List ℕ) → Memtable → Option (Result Memtable)
replay_logs z [] mem = some (ok mem)
replay_logs z ((id, log) ∷ logs) mem = replay_on (replay_logs z logs) (replay_into z log mem)

abbrev pub log_ids : List (ℕ × List ℕ) → List ℕ
log_ids [] = []
log_ids ((id, log) ∷ logs) = id ∷ log_ids logs

-- The store that recovery leaves, with an empty log behind the tables.
abbrev pub opened_store : ℕ → Levels → Option (List ℕ) → Store
opened_store next_id levels manifest = publish (record {
  stopping = false;
  halted_by_fail_point = false;
  background_status = ok tt;
  mem = empty_table;
  imm = none;
  imm_wal_id = 0;
  imm_table_id = 0;
  wal = some new_file;
  wal_id = next_id;
  levels = levels;
  current = [];
  next_id = (next_id + 1) % 2 ^ 32;
  imm_wal = none;
  manifest = manifest;
  compact_requested = false;
  compact_pointer = [];
})

-- What was replayed becomes a table, with the fail point paused.
unfoldable pub install_replayed :
    Zlib → (ℕ → ℕ) → StoreOptions → Directory → ℕ → Levels → Memtable → Result Store
install_replayed z lround_ln2 options dir next_id levels mem =
    let paused = record options { fail_at = no_fail_point } in
    let after = (next_id + 1) % 2 ^ 32 in
    if holds_nothing mem
    then ok (
        opened_store next_id levels (elim dir.manifest [
          | some manifest ↦ some manifest
          | none ↦ some (commit_manifest z levels next_id)
        ]))
    else (build_table_unlocked z lround_ln2 paused mem next_id levels after >>= λ built.
        ok (opened_store after built.0 (replaced built.1 dir.manifest)))

abbrev pub install_on : (Memtable → Result Store) → Option (Result Memtable) → Option (Result Store)
install_on next none = none
install_on next (some (err code)) = some (err code)
install_on next (some (ok mem)) = some (next mem)

-- `recover` behind the manifest.
abbrev pub recover_logs :
    Zlib → (ℕ → ℕ) → StoreOptions → Directory → Levels → Result ℕ → Option (Result Store)
recover_logs z lround_ln2 options dir levels (err code) = some (err code)
recover_logs z lround_ln2 options dir levels (ok next_id) =
    install_on (install_replayed z lround_ln2 options dir next_id levels)
      (replay_logs z dir.logs empty_table)

abbrev pub recover_on :
    Zlib → (ℕ → ℕ) → StoreOptions → Directory → Result (ℕ × Levels) → Option (Result Store)
recover_on z lround_ln2 options dir (err code) = some (err code)
recover_on z lround_ln2 options dir (ok (next_id, levels)) =
    recover_logs z lround_ln2 options dir levels (raise_next_id next_id (log_ids dir.logs))

unfoldable pub recover : Zlib → (ℕ → ℕ) → StoreOptions → Directory → Option (Result Store)
recover z lround_ln2 options dir =
    recover_on z lround_ln2 options dir (open_levels_of z options dir dir.manifest)
