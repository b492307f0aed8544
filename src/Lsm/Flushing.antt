-- ===== src/Lsm/Flushing.antt =====
-- src/lsm.cpp: a memtable built into a table, and the flush that installs it. The schedule of `flush`
-- is the one in which the background thread runs until it waits at each wait of the call, and no other
-- writer comes between.
use lsm_tree_storage_engine.Prelude.{
  ℕ, List, ◌==◌, ◌&&◌, not, [], true, Result, ◌>>=◌, Option, err, ◌||◌, ok, none, Status, some,
  false, length, Bool, ◌∷◌, if◌then◌else◌,
}
use lsm_tree_storage_engine.Crc.{Zlib}
use lsm_tree_storage_engine.Memtable.{Memtable}
use lsm_tree_storage_engine.Manifest.{TableMeta, LevelSet}
use lsm_tree_storage_engine.SsTable.{SsTableBuilder, create, finish}
use lsm_tree_storage_engine.SsTable.Table.{SsTable, load}
use lsm_tree_storage_engine.SsTable.Adds.{add_rows}
use lsm_tree_storage_engine.Lsm.{
  LsmFailPoint, no_fail_point, after_writing_table, after_installing_table, after_manifest_commit,
  StoreOptions, Levels, Store, is_none, is_err, rotate_memtable, publish,
}
use lsm_tree_storage_engine.Compaction.{LsmStore, pick_compaction}
use lsm_tree_storage_engine.Manifest

abbrev pub meta_of : SsTable → TableMeta
meta_of table = record {
  id = table.id;
  file_size = length table.file;
  entry_count = table.footer.entry_count;
  min_key = table.min_key;
  max_key = table.max_key;
}

abbrev pub metas_of : List SsTable → List TableMeta
metas_of [] = []
metas_of (table ∷ tables) = meta_of table ∷ metas_of tables

abbrev pub level_metas : Levels → List (List TableMeta)
level_metas [] = []
level_metas (level ∷ levels) = metas_of level ∷ level_metas levels

unfoldable pub level_set_of : Levels → ℕ → LevelSet
level_set_of levels next_id = record { next_id = next_id; levels = level_metas levels }

-- What `commit_manifest` leaves under the manifest's name.
unfoldable pub commit_manifest : Zlib → Levels → ℕ → List ℕ
commit_manifest z levels next_id = Manifest.encode z (level_set_of levels next_id)

-- `resize(1)` of an empty set, and `insert` at the front of level 0.
unfoldable pub push_front : SsTable → Levels → Levels
push_front table [] = (table ∷ []) ∷ []
push_front table (level0 ∷ levels) = (table ∷ level0) ∷ levels

abbrev pub status_of : SsTableBuilder × Status → Result SsTableBuilder
status_of (b, err code) = err code
status_of (b, ok _) = ok b

-- The first part of `build_table_unlocked`: the file of a memtable's entries.
unfoldable pub write_table : Zlib → (ℕ → ℕ) → StoreOptions → Memtable → Result (List ℕ)
write_table z lround_ln2 options table = do
  builder ← create options.block_size options.bits_per_key
  added ← status_of (add_rows z builder table.entries)
  finished ← status_of (finish z lround_ln2 added)
  ok finished.file

abbrev pub stops_written : LsmFailPoint → Bool
stops_written after_writing_table = true
stops_written after_installing_table = false
stops_written after_manifest_commit = false
stops_written no_fail_point = false

abbrev pub stops_installed : LsmFailPoint → Bool
stops_installed after_installing_table = true
stops_installed after_writing_table = false
stops_installed after_manifest_commit = false
stops_installed no_fail_point = false

abbrev pub stops_committed : LsmFailPoint → Bool
stops_committed after_manifest_commit = true
stops_committed after_writing_table = false
stops_committed after_installing_table = false
stops_committed no_fail_point = false

-- The levels, and the manifest where one was committed.
abbrev pub install_table : Zlib → StoreOptions → Levels → ℕ → SsTable → Levels × Option (List ℕ)
install_table z options base next_id opened =
    let levels = push_front opened base in
    if stops_installed options.fail_at
    then (base, none)
    else (levels, some (commit_manifest z levels next_id))

abbrev pub open_written :
    Zlib → StoreOptions → ℕ → Levels → ℕ → List ℕ → Result (Levels × Option (List ℕ))
open_written z options id base next_id file =
    if stops_written options.fail_at
    then ok (base, none)
    else (load z id options.mapped options.bloom_enabled file >>= λ opened.
        ok (install_table z options base next_id opened))

unfoldable pub build_table_unlocked :
    Zlib → (ℕ → ℕ) → StoreOptions → Memtable → ℕ → Levels → ℕ → Result (Levels × Option (List ℕ))
build_table_unlocked z lround_ln2 options table id base next_id =
    write_table z lround_ln2 options table >>= open_written z options id base next_id

-- A manifest that was not written leaves the one before.
abbrev pub replaced : Option (List ℕ) → Option (List ℕ) → Option (List ℕ)
replaced none old = old
replaced (some manifest) old = some manifest

-- `run_flush` behind the build: the state, the status, and whether it progressed.
abbrev pub installed :
    StoreOptions → Store → Result (Levels × Option (List ℕ)) → (Store × Status) × Bool
installed options s (err code) = ((s, err code), false)
installed options s (ok (levels, manifest)) =
    let published =
      publish (record s { levels = levels; manifest = replaced manifest s.manifest }) in
    if stops_written options.fail_at || stops_installed options.fail_at
    then ((s, ok tt), false)
    else if stops_committed options.fail_at
    then ((published, ok tt), false)
    else ((record published { imm = none; imm_wal = none }, ok tt), true)

unfoldable pub run_flush :
    Zlib → (ℕ → ℕ) → StoreOptions → Store → Memtable → (Store × Status) × Bool
run_flush z lround_ln2 options s table =
    installed options s
      (build_table_unlocked z lround_ln2 options table s.imm_table_id s.levels s.next_id)

-- What the background thread makes of a flush.
abbrev pub settled : (Store × Status) × Bool → Store
settled ((s, err code), progressed) = record s { background_status = err code }
settled ((s, ok _), false) = record s { halted_by_fail_point = true }
settled ((s, ok _), true) = s

-- `idle` of `background_loop`.
abbrev pub is_idle : Store → Bool
is_idle s = s.stopping || (is_err s.background_status || s.halted_by_fail_point)

abbrev pub tree_of : StoreOptions → Store → LsmStore
tree_of options s = record {
  options = options.compaction;
  levels = level_metas s.levels;
  compact_pointer = s.compact_pointer;
}

unfoldable pub needs_compaction : StoreOptions → Store → Bool
needs_compaction options s = not (is_none (pick_compaction (tree_of options s) false))

-- The second branch of `background_loop`, and the wait behind it: `none` is a compaction that starts.
unfoldable pub background_rest : StoreOptions → Store → Option Store
background_rest options s =
    if not (is_idle s) && (s.compact_requested || needs_compaction options s) then none else some s

-- `background_loop` until it waits, the lock held from a flush into the second branch.
unfoldable pub background_flush : Zlib → (ℕ → ℕ) → StoreOptions → Store → Option Store
background_flush z lround_ln2 options s = if is_idle s then some s else elim s.imm [
  | none ↦ background_rest options s
  | some table ↦ background_rest options (settled (run_flush z lround_ln2 options s table))
]

-- `wait_for_background`: the status that the thread leaves.
abbrev pub waited_for : Option Store → Option (Store × Status)
waited_for none = none
waited_for (some s) = some (s, s.background_status)

-- A call that goes on behind a wait, and behind a rotation.
abbrev pub behind : (Store → Option (Store × Status)) → Option Store → Option (Store × Status)
behind next none = none
behind next (some s) = next s

abbrev pub behind_rotation :
    (Store → Option (Store × Status)) → Store × Status → Option (Store × Status)
behind_rotation next (s, err code) = some (s, err code)
behind_rotation next (s, ok _) = next s

-- `flush` behind its first wait.
unfoldable pub flush_rest : Zlib → (ℕ → ℕ) → StoreOptions → Status → Store → Option (Store × Status)
flush_rest z lround_ln2 options rotation s =
    let background = λ (t : Store). waited_for (background_flush z lround_ln2 options t) in
    elim s.background_status [
      | err code ↦ some (s, err code)
      | ok _ ↦
          if not s.stopping && is_none s.imm
          then behind_rotation background (rotate_memtable rotation s)
          else background s
    ]

abbrev pub holds_nothing : Memtable → Bool
holds_nothing m = length m.entries == 0

-- The first wait ends at once where nothing is frozen.
unfoldable pub flush : Zlib → (ℕ → ℕ) → StoreOptions → Status → Store → Option (Store × Status)
flush z lround_ln2 options rotation s = elim s.background_status [
  | err code ↦ some (s, err code)
  | ok _ ↦
      if holds_nothing s.mem && is_none s.imm
      then some (s, ok tt)
      else if holds_nothing s.mem
      then waited_for (background_flush z lround_ln2 options s)
      else behind (flush_rest z lround_ln2 options rotation)
          (if is_none s.imm then some s else background_flush z lround_ln2 options s)
]
