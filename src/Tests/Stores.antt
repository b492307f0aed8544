-- ===== src/Tests/Stores.antt =====
-- The store and its tables at concrete inputs.
use lsm_tree_storage_engine.Prelude.{
  ℕ, List, true, [], refl, ◌≡◌, ok, err, ◌*◌, none, arith, inl, false, some, ◌∷◌, if◌then◌else◌,
  Result, io_error, take, zero, ◌≤◌, suc, drop, length, ◌<◌,
}
use lsm_tree_storage_engine.Key.{Key, key_eq, key_lt}
use lsm_tree_storage_engine.Memtable.{Memtable, empty_table}
use lsm_tree_storage_engine.SsTable.{IndexEntry, BlockEntry, parse_block}
use lsm_tree_storage_engine.SsTable.Table.{SsTable, load, lookup, read_at}
use lsm_tree_storage_engine.SsTable.Find.{answer}
use lsm_tree_storage_engine.SsTable.Index.{index_payload, load_index-index_payload}
use lsm_tree_storage_engine.SsTable.Hostile.{
  IsIndex, load_index-IsIndex, read_at-modes, parse_block-total,
}
use lsm_tree_storage_engine.Lsm.{
  StoreOptions, Store, no_fail_point, get, write_entry, make_room, write_through, all_done, WriteIo,
}
use lsm_tree_storage_engine.Lsm.Flushing.{write_table, flush, holds_nothing}
use lsm_tree_storage_engine.Lsm.Built.{CanFlush, lookup-write_table}
use lsm_tree_storage_engine.Lsm.View.{Sound, view, read_of, get-newest}
use lsm_tree_storage_engine.Lsm.Writes.{IsReady, get-write_entry}
use lsm_tree_storage_engine.Lsm.Failed.{write_entry-err}
use lsm_tree_storage_engine.Lsm.Rounds.{IsRunning}
use lsm_tree_storage_engine.Lsm.Schedule.{flush-reads}
use lsm_tree_storage_engine.Tests.Fixtures.{zlib, key_ab, text_xyz}
use lsm_tree_storage_engine.Merge.Pick.{Table}
use lsm_tree_storage_engine.LogFile.{always, new_file}
use lsm_tree_storage_engine.Lsm.Calm.{IsCalm}
use lsm_tree_storage_engine.Compaction.{choose_over_budget}
use lsm_tree_storage_engine.LogFile.Reads.{IsPread}
use lsm_tree_storage_engine.Encoding.{put_u32, put_u64}
use lsm_tree_storage_engine.Memtable
use lsm_tree_storage_engine.LogFile
use lsm_tree_storage_engine.Record

abbrev pub options : StoreOptions
options = record {
  sync_mode = always;
  memtable_size = 300;
  block_size = 16;
  bits_per_key = 10;
  bloom_enabled = true;
  mapped = false;
  fail_at = no_fail_point;
  compaction = record {
    l0_compaction_trigger = 4;
    level_base_bytes = 1000;
    level_multiplier = 10;
    max_levels = 7;
  };
}

abbrev pub twice : ℕ → ℕ
twice n = 2 * n

-- A value and a removal.
abbrev two_rows : Memtable
two_rows = record {
  entries =
      (key_ab, record { value = text_xyz; tombstone = false })
      ∷ (text_xyz, record { value = []; tombstone = true })
      ∷ [];
  bytes = 136;
}

two_rows-CanFlush : CanFlush two_rows
unfolding key_lt
two_rows-CanFlush = record {
  sorted = ((refl, tt), (tt, tt));
  storable = (
    record { has_key = omega arith; small = omega arith; clean = refl },
    (record { has_key = omega arith; small = omega arith; clean = refl }, tt),
  );
  small = omega arith;
}

lookup-write_table_example :
    (file : List ℕ) × (t : SsTable) × (write_table zlib twice options two_rows ≡ ok file)
    × (load zlib 1 false true file ≡ ok t)
    × ((key : Key) → lookup zlib t key ≡ ok (answer (Memtable.get two_rows key)))
lookup-write_table_example =
    lookup-write_table zlib twice options (omega arith) two_rows 1 two_rows-CanFlush

-- A store with both memtables in use.
abbrev store : Store
store = record {
  stopping = false;
  halted_by_fail_point = false;
  background_status = ok tt;
  mem = two_rows;
  imm = some two_rows;
  imm_wal_id = 1;
  imm_table_id = 2;
  wal = some new_file;
  wal_id = 3;
  levels = [];
  current = [];
  next_id = 4;
  imm_wal = some new_file;
  manifest = none;
  compact_requested = false;
  compact_pointer = [];
}

store-Sound : Sound zlib store []
store-Sound = record { same = refl; hold = tt; disjoint = tt }

store-IsRunning : IsRunning store
store-IsRunning = record { going = refl; healthy = refl; unhalted = refl }

store-IsCalm : IsCalm options 2 store
unfolding choose_over_budget
store-IsCalm = record { unasked = refl; below = omega arith; within = refl }

store-IsReady : IsReady options store
store-IsReady = record { healthy = refl; log = new_file; logged = refl; room = inl refl }

flush-reads_example :
    (s' : Store) × (rows' : List (List Table)) × (flush zlib twice options (ok tt) store
      ≡ some (s', ok tt))
    × Sound zlib s' rows'
    × (holds_nothing s'.mem ≡ true)
    × (s'.imm ≡ none)
    × ((key : Key) → get zlib s' key ≡ get zlib store key)
flush-reads_example =
    flush-reads zlib twice options (omega arith) refl store [] store-Sound store-IsRunning
      store-IsCalm two_rows-CanFlush two_rows-CanFlush

-- The store once its memtables are tables.
flushed :
    (s' : Store) × (rows' : List (List Table)) × (flush zlib twice options (ok tt) store
      ≡ some (s', ok tt))
    × Sound zlib s' rows'
    × (holds_nothing s'.mem ≡ true)
    × (s'.imm ≡ none)
    × ((key : Key) → get zlib s' key ≡ get zlib store key)
flushed =
    flush-reads zlib twice options (omega arith) refl store [] store-Sound store-IsRunning
      store-IsCalm two_rows-CanFlush two_rows-CanFlush

get-newest_example : get zlib flushed.0 key_ab ≡ read_of (view flushed.0 flushed.1 key_ab)
get-newest_example = get-newest zlib flushed.0 flushed.1 key_ab flushed.3 (omega arith)

get-write_entry_example :
    (s' : Store) × (write_entry zlib options all_done 7 store key_ab key_ab false
      ≡ some (s', ok tt))
    × Sound zlib s' []
    × ((j : Key) → get zlib s' j ≡ (if key_eq key_ab j then ok key_ab else get zlib store j))
get-write_entry_example =
    get-write_entry zlib options store [] 7 key_ab key_ab false store-Sound store-IsReady
      (omega arith) (omega arith)

-- The log takes the record, and its sync fails.
abbrev not_synced : WriteIo
not_synced = record { append = record { cut_off = none; fsync = err io_error }; rotation = ok tt }

abbrev unsynced_store : Store
unsynced_store = record store {
  wal = some (record { content = Record.encode zlib key_ab key_ab 7 false; tail = []; synced = 0 });
}

sync_failed :
    write_entry zlib options not_synced 7 store key_ab key_ab false
    ≡ some (unsynced_store, err io_error)
unfolding write_entry make_room write_through LogFile.append Record.encode put_u32 put_u64
sync_failed = refl

write_entry-err_example :
    Sound zlib unsynced_store [] × ((j : Key) → get zlib unsynced_store j ≡ get zlib store j)
write_entry-err_example =
    write_entry-err zlib options not_synced 7 store unsynced_store [] key_ab key_ab false io_error
      store-Sound sync_failed

abbrev one_block : IndexEntry
one_block = record { key = key_ab; block_offset = 0; block_size = 20 }

load_index-IsIndex_example : IsIndex 20 none (one_block ∷ [])
load_index-IsIndex_example =
    load_index-IsIndex (index_payload (one_block ∷ [])) 20 (one_block ∷ []) (
      load_index-index_payload 20 (one_block ∷ []) (omega arith) (
        record {
          has_key = omega arith;
          key_u32 = omega arith;
          offset_u64 = omega arith;
          size_u32 = omega arith;
          trailer = omega arith;
          inside = omega arith;
        },
        (refl, tt),
      ))

-- A `pread` that gives one byte at a time.
abbrev one_byte : ℕ → ℕ → ℕ
one_byte zero at = 0
one_byte (suc want) at = 1

abbrev slow_pread : ℕ → ℕ → Result (List ℕ)
slow_pread want at = ok (take (one_byte want at) (drop at key_ab))

slow_pread-IsPread : IsPread key_ab slow_pread
slow_pread-IsPread = record {
  count = one_byte;
  gives = λ want at small. refl;
  bounded = bounded;
  some_bytes = some_bytes;
}
  where
    bounded : (want at : ℕ) → one_byte want at ≤ want
    bounded zero at = omega arith
    bounded (suc want) at = omega arith

    some_bytes : (want at : ℕ) → 0 < want → at < length key_ab → 0 < one_byte want at
    some_bytes zero at h k = absurd (omega (arith, h))
    some_bytes (suc want) at h k = omega arith

read_at-modes_example : LogFile.read_at slow_pread 0 2 ≡ some (read_at true key_ab 0 2)
read_at-modes_example =
    read_at-modes key_ab slow_pread 0 2 slow_pread-IsPread (omega arith) (omega arith)

parse_block-total_example : (r : Result (List BlockEntry)) × (parse_block key_ab ≡ some r)
parse_block-total_example = parse_block-total key_ab
