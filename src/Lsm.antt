-- ===== src/Lsm.antt =====
-- src/lsm.cpp and include/kvstore/lsm.hpp: the store that joins the write-ahead log, the memtable, the
-- tables and the manifest. Readers, the writer and the background thread are steps on one state, each
-- step taken while the code holds its lock; a wait that would not end yet gives `none`. The directory
-- is the bytes of what it holds: a table keeps its own file, and `wal`, `imm_wal` and `manifest` are
-- the other files. How the operating system answers a write is an argument: the write and the sync of
-- the log, and the change of logs. Statistics and a store that is being destroyed are not modelled.
pub mod Flushing
pub mod Tables
pub mod View
pub mod Built
pub mod Flushed
pub mod Writes
pub mod Calm
pub mod Rounds
pub mod Schedule
pub mod Figures
pub mod Opening
pub mod Logs
pub mod Reopened
pub mod Survives
pub mod Failed
use lsm_tree_storage_engine.Prelude.{
  ℕ, List, io_error, ◌==◌, [], true, ◌+◌, ltb, Result, ◌^◌, Option, err, ◌||◌, ok, none, Status,
  ◌-◌, some, invalid_argument, false, length, leb, Bool, ◌%◌, not_found, ◌∷◌, if◌then◌else◌,
}
use lsm_tree_storage_engine.Crc.{Zlib}
use lsm_tree_storage_engine.Key.{Key, key_lt}
use lsm_tree_storage_engine.Memtable.{Memtable, MemEntry, empty_table}
use lsm_tree_storage_engine.Manifest.{TableMeta, LevelSet}
use lsm_tree_storage_engine.SsTable.{SsTableBuilder, create, finish}
use lsm_tree_storage_engine.SsTable.Table.{
  SsTable, Lookup, not_present, deleted, found, load, lookup,
}
use lsm_tree_storage_engine.SsTable.Adds.{add_rows}
use lsm_tree_storage_engine.LogFile.{SyncMode, LogFile, AppendIo, new_file}
use lsm_tree_storage_engine.Compaction.{LsmOptions}
use lsm_tree_storage_engine.LogFile
use lsm_tree_storage_engine.Memtable
use lsm_tree_storage_engine.Record
use lsm_tree_storage_engine.Wal

pub data LsmFailPoint : Type 0 where
  no_fail_point after_writing_table after_installing_table after_manifest_commit : LsmFailPoint

-- `LsmOptions`; the fields that the picking of a compaction reads stand together, and the target size
-- of a compaction's tables is left out.
pub record StoreOptions : Type 0 where
  pub sync_mode : SyncMode
  pub memtable_size : ℕ
  pub block_size : ℕ
  pub bits_per_key : ℕ
  pub bloom_enabled : Bool
  pub mapped : Bool
  pub fail_at : LsmFailPoint
  pub compaction : LsmOptions

abbrev pub Levels : Type 0
Levels = List (List SsTable)

pub record Store : Type 0 where
  pub stopping : Bool
  pub halted_by_fail_point : Bool
  pub background_status : Status
  pub mem : Memtable
  pub imm : Option Memtable
  pub imm_wal_id : ℕ
  pub imm_table_id : ℕ
  pub wal : Option LogFile
  pub wal_id : ℕ
  pub levels : Levels
  pub current : Levels
  pub next_id : ℕ
  pub imm_wal : Option LogFile
  pub manifest : Option (List ℕ)
  pub compact_requested : Bool
  pub compact_pointer : List Key

-- `std::lower_bound` by the largest key, and the check of the smallest.
unfoldable pub find_in_level : List SsTable → Key → Option SsTable
find_in_level [] key = none
find_in_level (table ∷ level) key =
    let rest = find_in_level level key in
    if key_lt table.max_key key then rest else if key_lt key table.min_key then none else some table

abbrev pub entry_value : MemEntry → Result (List ℕ)
entry_value entry = if entry.tombstone then err not_found else ok entry.value

-- `ask`: what a table's answer leaves to be asked.
abbrev pub ask : Result Lookup → Result (List ℕ) → Result (List ℕ)
ask (err code) rest = err code
ask (ok not_present) rest = rest
ask (ok deleted) rest = err not_found
ask (ok (found value)) rest = ok value

unfoldable pub ask_level0 : Zlib → Key → List SsTable → Result (List ℕ) → Result (List ℕ)
ask_level0 z key [] rest = rest
ask_level0 z key (table ∷ level) rest = ask (lookup z table key) (ask_level0 z key level rest)

abbrev pub ask_candidate : Zlib → Key → Option SsTable → Result (List ℕ) → Result (List ℕ)
ask_candidate z key none rest = rest
ask_candidate z key (some table) rest = ask (lookup z table key) rest

unfoldable pub ask_below : Zlib → Key → Levels → Result (List ℕ)
ask_below z key [] = err not_found
ask_below z key (level ∷ levels) =
    ask_candidate z key (find_in_level level key) (ask_below z key levels)

unfoldable pub ask_levels : Zlib → Key → Levels → Result (List ℕ)
ask_levels z key [] = err not_found
ask_levels z key (level0 ∷ levels) = ask_level0 z key level0 (ask_below z key levels)

abbrev pub or_ask : Option MemEntry → Result (List ℕ) → Result (List ℕ)
or_ask none rest = rest
or_ask (some entry) rest = entry_value entry

abbrev pub get_frozen : Option Memtable → Key → Option MemEntry
get_frozen none key = none
get_frozen (some table) key = Memtable.get table key

unfoldable pub get : Zlib → Store → Key → Result (List ℕ)
get z s key =
    if length key == 0
    then err not_found
    else or_ask (Memtable.get s.mem key)
        (or_ask (get_frozen s.imm key) (ask_levels z key s.current))

-- `publish_locked`.
unfoldable pub publish : Store → Store
publish s = record s { current = s.levels }

-- How the operating system answers a write: the append to the log, and the first error of the close,
-- the opening and the directory's sync where the logs change.
pub record WriteIo : Type 0 where
  pub append : AppendIo
  pub rotation : Status

-- The memtable is frozen.
abbrev pub frozen_memtable : Store → Store
frozen_memtable s = record s {
  imm = some s.mem;
  imm_wal_id = s.wal_id;
  imm_wal = s.wal;
  imm_table_id = s.next_id;
  mem = empty_table;
  next_id = ((s.next_id + 1) % 2 ^ 32 + 1) % 2 ^ 32;
}

-- An empty log is open.
abbrev pub rotated : Store → Store
rotated s = record (frozen_memtable s) { wal = some new_file; wal_id = (s.next_id + 1) % 2 ^ 32 }

-- `rotate_memtable`. An error leaves the memtable frozen and `wal_` closed; a closed log answers an
-- append as none does.
unfoldable pub rotate_memtable : Status → Store → Store × Status
rotate_memtable (err code) s = (record (frozen_memtable s) { wal = none }, err code)
rotate_memtable (ok _) s = (rotated s, ok tt)

abbrev pub is_none {ℓ} : {A : Type ℓ} → Option A → Bool
is_none none = true
is_none (some _) = false

abbrev pub is_err {ℓ} : {A : Type ℓ} → Result A → Bool
is_err (err _) = true
is_err (ok _) = false

-- The predicate of the writer's wait.
abbrev pub may_go : Store → Bool
may_go s = s.stopping || (is_err s.background_status || (s.halted_by_fail_point || is_none s.imm))

abbrev pub is_full : StoreOptions → Store → Bool
is_full options s = leb options.memtable_size s.mem.bytes

-- The first critical section of `write_entry`; `none` is the write stall.
unfoldable pub make_room : StoreOptions → Status → Store → Option (Store × Status)
make_room options rotation s = elim s.background_status [
  | err code ↦ some (s, err code)
  | ok _ ↦
      if is_full options s
      then (if may_go s
          then some (if is_none s.imm then rotate_memtable rotation s else (s, ok tt))
          else none)
      else some (s, ok tt)
]

-- `write_entry` behind the append: the memtable takes what the log has taken.
abbrev pub insert_appended : Key → List ℕ → Bool → Store → LogFile × Result ℕ → Store × Status
insert_appended key value tombstone s (log, err code) = (record s { wal = some log }, err code)
insert_appended key value tombstone s (log, ok _) = (
  record s {
    wal = some log;
    mem = if tombstone then Memtable.remove s.mem key else Memtable.put s.mem key value;
  },
  ok tt,
)

-- The rest of `write_entry`: the log first, the memtable second.
unfoldable pub write_through :
    Zlib → SyncMode → AppendIo → ℕ → Key → List ℕ → Bool → Store → Store × Status
write_through z mode io now key value tombstone s = elim s.wal [
  | none ↦ (s, err io_error)
  | some log ↦
      let bytes = Record.encode z key (if tombstone then [] else value) now tombstone in
      insert_appended key value tombstone s (LogFile.append mode io log bytes)
]

abbrev pub write_in_room :
    Zlib
    → SyncMode
    → AppendIo
    → ℕ
    → Key
    → List ℕ
    → Bool
    → Option (Store × Status)
    → Option (Store × Status)
write_in_room z mode io now key value tombstone none = none
write_in_room z mode io now key value tombstone (some (s, err code)) = some (s, err code)
write_in_room z mode io now key value tombstone (some (s, ok _)) =
    some (write_through z mode io now key value tombstone s)

unfoldable pub write_entry :
    Zlib → StoreOptions → WriteIo → ℕ → Store → Key → List ℕ → Bool → Option (Store × Status)
write_entry z options io now s key value tombstone =
    let payload = length key + (if tombstone then 0 else length value) in
    if length key == 0
    then some (s, err invalid_argument)
    else if ltb (Record.max_record_size - Record.header_size) payload
    then some (s, err invalid_argument)
    else write_in_room z options.sync_mode io.append now key value tombstone
        (make_room options io.rotation s)

unfoldable pub put :
    Zlib → StoreOptions → WriteIo → ℕ → Store → Key → List ℕ → Option (Store × Status)
put z options io now s key value = write_entry z options io now s key value false

unfoldable pub remove : Zlib → StoreOptions → WriteIo → ℕ → Store → Key → Option (Store × Status)
remove z options io now s key = write_entry z options io now s key [] true

-- The operating system does what it is asked for.
abbrev pub all_done : WriteIo
all_done = record { append = record { cut_off = none; fsync = ok tt }; rotation = ok tt }
