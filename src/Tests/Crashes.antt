-- ===== src/Tests/Crashes.antt =====
-- A store that crashed while its memtable was being flushed and a record was being appended.
use lsm_tree_storage_engine.Prelude.{
  List, ◌∷◌, false, err, arith, io_error, ◌++◌, some, [], ◌≡◌, ok, refl, true, not_found,
  if◌then◌else◌,
}
use lsm_tree_storage_engine.Key.{Key, key_eq, key_lt}
use lsm_tree_storage_engine.Memtable.{Memtable, empty_table, insert, resized}
use lsm_tree_storage_engine.SortedMap.{assign, find}
use lsm_tree_storage_engine.Merge.Pick.{Table}
use lsm_tree_storage_engine.LogScan.Walk.{IsTorn}
use lsm_tree_storage_engine.Wal.Recovery.{apply_all, append_all}
use lsm_tree_storage_engine.Lsm.{Store, get, write_entry, is_full, all_done}
use lsm_tree_storage_engine.Lsm.View.{Sound}
use lsm_tree_storage_engine.Lsm.Built.{CanFlush}
use lsm_tree_storage_engine.Lsm.Flushing.{commit_manifest, level_set_of}
use lsm_tree_storage_engine.Manifest.Layout.{CanStore}
use lsm_tree_storage_engine.Lsm.Opening.{Directory, recover}
use lsm_tree_storage_engine.Lsm.Reopened.{Durable, recover-reads, IsReadable}
use lsm_tree_storage_engine.Tests.Fixtures.{zlib, key_ab}
use lsm_tree_storage_engine.Tests.Stores.{options, twice}
use lsm_tree_storage_engine.Tests.Storage.{
  put_ab, remove_ab, put_ab-CanWrite, remove_ab-CanWrite, cut_short, cut_short-IsTorn,
  length-remove_ab,
}
use lsm_tree_storage_engine.Lsm.Survives.{LiveLog, write_entry-recover, logged, left_by_crash}
use lsm_tree_storage_engine.Encoding.{put_u32}
use lsm_tree_storage_engine.Encoding.{append_u32, put_u32}
use lsm_tree_storage_engine.LogFile.{LogFile}
use lsm_tree_storage_engine.Memtable
use lsm_tree_storage_engine.Manifest

abbrev crashed : Store
crashed = record {
  stopping = false;
  halted_by_fail_point = false;
  background_status = ok tt;
  mem = apply_all (put_ab ∷ []) empty_table;
  imm = some (apply_all (remove_ab ∷ []) empty_table);
  imm_wal_id = 1;
  imm_table_id = 2;
  wal = some (record { content = append_all zlib (put_ab ∷ []) []; tail = []; synced = 0 });
  wal_id = 3;
  levels = [];
  current = [];
  next_id = 4;
  imm_wal = some (record { content = append_all zlib (remove_ab ∷ []) []; tail = []; synced = 0 });
  manifest = some (commit_manifest zlib [] 1);
  compact_requested = false;
  compact_pointer = [];
}

abbrev left_behind : Directory
left_behind = record {
  table_file = λ id. err io_error;
  table_ids = [];
  manifest = some (commit_manifest zlib [] 1);
  logs =
      (1, append_all zlib (remove_ab ∷ []) [] ++ [])
      ∷ (3, append_all zlib (put_ab ∷ []) [] ++ cut_short)
      ∷ [];
}

pub nil-IsTorn : IsTorn zlib []
nil-IsTorn = record {
  write = remove_ab;
  can = remove_ab-CanWrite;
  kept = 0;
  less = omega (arith, length-remove_ab);
  front = refl;
}

writes-CanFlush : CanFlush (apply_all (remove_ab ∷ put_ab ∷ []) empty_table)
unfolding Memtable.put Memtable.remove insert assign key_lt key_eq
writes-CanFlush = record {
  sorted = (tt, tt);
  storable = (record { has_key = omega arith; small = omega arith; clean = refl }, tt);
  small = omega arith;
}

no_levels-CanStore : CanStore (level_set_of [] 1)
unfolding level_set_of
no_levels-CanStore = record { next_u32 = omega arith; count_u32 = omega arith; named = tt }

no_levels-IsReadable : IsReadable (commit_manifest zlib [] 1)
unfolding commit_manifest level_set_of Manifest.encode Manifest.encode_levels append_u32 put_u32
no_levels-IsReadable = (omega arith, omega arith)

abbrev crashed-Durable : Durable zlib options left_behind crashed []
crashed-Durable = record {
  sound = record { same = refl; hold = tt; disjoint = tt };
  next_id = 1;
  manifest = refl;
  tables = tt;
  writable = no_levels-CanStore;
  readable = no_levels-IsReadable;
  frozen = remove_ab ∷ [];
  live = put_ab ∷ [];
  logs = (
    remove_ab ∷ [],
    put_ab ∷ [],
    record { torn = []; bytes = refl; can = (remove_ab-CanWrite, tt); is_torn = nil-IsTorn },
    (
      put_ab ∷ [],
      [],
      record {
        torn = cut_short;
        bytes = refl;
        can = (put_ab-CanWrite, tt);
        is_torn = cut_short-IsTorn;
      },
      refl,
      refl,
    ),
    refl,
  );
  ids = (omega arith, (omega arith, tt));
  same_imm = λ k. refl;
  same_mem = refl;
  fits = writes-CanFlush;
}

recover-reads_example :
    (s' : Store) × (rows' : List (List Table)) × (recover zlib twice options left_behind
      ≡ some (ok s'))
    × Sound zlib s' rows'
    × ((key : Key) → get zlib s' key ≡ get zlib crashed key)
recover-reads_example =
    recover-reads zlib twice options left_behind (omega arith) crashed [] crashed-Durable

abbrev crashed-LiveLog : LiveLog zlib left_behind crashed (remove_ab ∷ []) (put_ab ∷ [])
crashed-LiveLog = record {
  older = (1, append_all zlib (remove_ab ∷ []) [] ++ []) ∷ [];
  id = 3;
  torn = cut_short;
  synced = 0;
  last = refl;
  opened = refl;
  before = (
    remove_ab ∷ [],
    [],
    record { torn = []; bytes = refl; can = (remove_ab-CanWrite, tt); is_torn = nil-IsTorn },
    refl,
    refl,
  );
  can = (put_ab-CanWrite, tt);
}

crashed_room : is_full options crashed ≡ false
unfolding Memtable.put insert resized find assign
crashed_room = refl

more_writes-CanFlush : CanFlush (apply_all (remove_ab ∷ put_ab ∷ remove_ab ∷ []) empty_table)
unfolding Memtable.put Memtable.remove insert assign key_lt key_eq
more_writes-CanFlush = record {
  sorted = (tt, tt);
  storable = (record { has_key = omega arith; small = omega arith; clean = refl }, tt);
  small = omega arith;
}

-- The end of the torn record is lost.
abbrev left_later : LogFile → Directory
left_later log =
    logged left_behind ((1, append_all zlib (remove_ab ∷ []) [] ++ []) ∷ []) 3
      (left_by_crash log cut_short 2)

write_entry-recover_example :
    (s' : Store) × (log : LogFile) × (r : Store) × (write_entry zlib options all_done 78 crashed
        key_ab [] true
      ≡ some (s', ok tt))
    × (s'.wal ≡ some log)
    × (recover zlib twice options (left_later log) ≡ some (ok r))
    × ((j : Key) → get zlib r j ≡ (if key_eq key_ab j then err not_found else get zlib crashed j))
write_entry-recover_example =
    write_entry-recover zlib options left_behind crashed [] remove_ab crashed-Durable
      crashed-LiveLog refl crashed_room remove_ab-CanWrite twice cut_short 2 refl (omega arith)
      cut_short-IsTorn more_writes-CanFlush
