-- ===== src/Tests/Structures.antt =====
-- The merge, the bloom filter, the hint file, the manifest and the memory store at concrete inputs.
use lsm_tree_storage_engine.Prelude.{
  ℕ, ◌≡◌, ◌++◌, ◌+◌, ◌∷◌, ◌/◌, ◌*◌, ok, false, true, some, arith, refl, map, [], StatusCode, err,
}
use lsm_tree_storage_engine.Tests.Fixtures.{zlib, key_ab, text_xyz}
use lsm_tree_storage_engine.Merge.{merging, skip}
use lsm_tree_storage_engine.Merge.Scan.{read_all, read_all-newest}
use lsm_tree_storage_engine.Bloom.{new_builder, add, finish, maybe_contains, BloomFilter}
use lsm_tree_storage_engine.Manifest.Layout.{CanStore, CanName}
use lsm_tree_storage_engine.Manifest.{LevelSet, TableMeta}
use lsm_tree_storage_engine.Key.{key_lt, Key, key_eq}
use lsm_tree_storage_engine.Merge.Pick.{Table, source_of, newest}
use lsm_tree_storage_engine.Bloom.RoundTrip.{add_all, maybe_contains-add}
use lsm_tree_storage_engine.Hint.RoundTrip.{decode_entry-encode_entry, decode_footer-encode_footer}
use lsm_tree_storage_engine.SortedMap.{IsSorted, find}
use lsm_tree_storage_engine.Merge.Rows.{shown}
use lsm_tree_storage_engine.MemoryStore.{Map, get-put-remove}
use lsm_tree_storage_engine.Bloom
use lsm_tree_storage_engine.Hint
use lsm_tree_storage_engine.MemoryStore
use lsm_tree_storage_engine.Manifest

abbrev key_b : Key
key_b = 0x62 ∷ []

-- The newer table has a tombstone over the older one's entry.
abbrev newer_table : Table
newer_table = (key_ab, record { value = []; tombstone = true }) ∷ []

abbrev older_table : Table
older_table =
    (key_ab, record { value = text_xyz; tombstone = false })
    ∷ (key_b, record { value = text_xyz; tombstone = false })
    ∷ []

older_table-IsSorted : IsSorted older_table
unfolding key_lt
older_table-IsSorted = ((refl, tt), (tt, tt))

read_all-newest_example :
    (rows : Table) × (read_all (merging (map source_of (newer_table ∷ older_table ∷ [])) skip)
      ≡ some (rows, ok tt))
    × IsSorted rows
    × ((k : Key) → find k rows ≡ shown skip (newest k (newer_table ∷ older_table ∷ [])))
read_all-newest_example =
    read_all-newest skip (newer_table ∷ older_table ∷ []) ((tt, tt), (older_table-IsSorted, tt))

-- `lround(n * ln 2)` for the numbers below 10 million, in integers.
abbrev lround_ln2 : ℕ → ℕ
lround_ln2 n = (n * 693147 + 500000) / 1000000

maybe_contains-add_example :
    (f : BloomFilter) × (Bloom.decode zlib
        (finish zlib lround_ln2 (add_all (add (new_builder 10) key_ab) (key_b ∷ [])))
      ≡ ok f)
    × (maybe_contains f key_ab ≡ true)
maybe_contains-add_example = maybe_contains-add zlib lround_ln2 (new_builder 10) key_ab (key_b ∷ [])

decode_footer-encode_footer_example :
    Hint.decode_footer zlib (Hint.encode_footer zlib 4096 3)
    ≡ ok (record { data_file_size = 4096; entry_count = 3 })
decode_footer-encode_footer_example =
    decode_footer-encode_footer zlib 4096 3 (omega arith) (omega arith)

decode_entry-encode_entry_example :
    Hint.decode_entry zlib (Hint.encode_entry zlib key_ab 7 100 26 ++ (1 ∷ []))
    ≡ ok (record { timestamp = 7; record_offset = 100; record_size = 26; key = key_ab })
decode_entry-encode_entry_example =
    decode_entry-encode_entry zlib key_ab 7 100 26 (1 ∷ []) (omega arith) (omega arith)
      (omega arith) (omega arith) (omega arith) (omega arith)

abbrev table_1 : TableMeta
table_1 = record { id = 1; file_size = 300; entry_count = 2; min_key = key_ab; max_key = key_b }

abbrev one_table : LevelSet
one_table = record { next_id = 2; levels = [] ∷ (table_1 ∷ []) ∷ [] }

table_1-CanName : CanName table_1
unfolding key_lt
table_1-CanName = record {
  has_id = omega arith;
  id_u32 = omega arith;
  size_u64 = omega arith;
  count_u64 = omega arith;
  min_u32 = omega arith;
  max_u32 = omega arith;
  ordered = refl;
}

one_table-CanStore : CanStore one_table
one_table-CanStore = record {
  next_u32 = omega arith;
  count_u32 = omega arith;
  named = ((omega arith, tt), ((omega arith, (table_1-CanName, tt)), tt));
}

decode-encode_levels_example : Manifest.decode zlib (Manifest.encode zlib one_table) ≡ ok one_table
decode-encode_levels_example =
    Manifest.RoundTrip.decode-encode_levels zlib one_table one_table-CanStore

abbrev one_entry : Map
one_entry = (key_ab, text_xyz) ∷ []

get-put-remove_example :
    ((MemoryStore.put one_entry key_b key_ab).1 ≡ ok tt)
    × IsSorted (MemoryStore.put one_entry key_b key_ab).0
    × (MemoryStore.get (MemoryStore.put one_entry key_b key_ab).0 key_b ≡ ok key_ab)
    × ((MemoryStore.remove one_entry key_b).1 ≡ ok tt)
    × IsSorted (MemoryStore.remove one_entry key_b).0
    × (MemoryStore.get (MemoryStore.remove one_entry key_b).0 key_b ≡ err StatusCode.not_found)
unfolding key_eq
get-put-remove_example = get-put-remove one_entry key_b key_b key_ab (tt, tt) refl
