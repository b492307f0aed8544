-- ===== src/Tests/Storage.antt =====
-- Records, logs and the memtable at concrete inputs.
use lsm_tree_storage_engine.Prelude.{
  ℕ, take, replicate, ok, Result, Status, false, List, ◌++◌, ◌≡◌, ◌∷◌, some, [], ◌+◌, refl, arith,
  true, length,
}
use lsm_tree_storage_engine.Tests.Fixtures.{zlib, key_ab, text_xyz}
use lsm_tree_storage_engine.Record.{encode, decode, Record}
use lsm_tree_storage_engine.Record.RoundTrip.{decode-encode}
use lsm_tree_storage_engine.Encoding.{put_u32, get_u32, put_u64, get_u64}
use lsm_tree_storage_engine.Encoding.RoundTrip.{get_u32-put_u32, get_u64-put_u64}
use lsm_tree_storage_engine.Wal.Recovery.{replay_into-append_all, apply_all, append_all}
use lsm_tree_storage_engine.Wal.{replay_into}
use lsm_tree_storage_engine.LogScan.Torn.{Write, CanWrite, bytes_of}
use lsm_tree_storage_engine.LogScan.Walk.{IsTorn}
use lsm_tree_storage_engine.LogScan.Total.{scan_records-total}
use lsm_tree_storage_engine.LogScan.{scan_records, file_of}
use lsm_tree_storage_engine.Memtable.{insert, empty_table, IsValid, get, put, remove}
use lsm_tree_storage_engine.Memtable.Laws.{insert-IsValid, get-put, get-remove}
use lsm_tree_storage_engine.Key.{key_eq}

get_u32-put_u32_example :
    (put_u32 (0 ∷ 0 ∷ 0 ∷ 0 ∷ 0 ∷ 0 ∷ []) 1 0x01020304 ≡ 0 ∷ 4 ∷ 3 ∷ 2 ∷ 1 ∷ 0 ∷ [])
    × (get_u32 (put_u32 (0 ∷ 0 ∷ 0 ∷ 0 ∷ 0 ∷ 0 ∷ []) 1 0x01020304) 1 ≡ 0x01020304)
get_u32-put_u32_example =
    get_u32-put_u32 (0 ∷ 0 ∷ 0 ∷ 0 ∷ 0 ∷ 0 ∷ []) 1 0x01020304 (omega arith) (omega arith)

get_u64-put_u64_example :
    (put_u64 (replicate 9 0) 1 0x0102030405060708 ≡ 0 ∷ 8 ∷ 7 ∷ 6 ∷ 5 ∷ 4 ∷ 3 ∷ 2 ∷ 1 ∷ [])
    × (get_u64 (put_u64 (replicate 9 0) 1 0x0102030405060708) 1 ≡ 0x0102030405060708)
get_u64-put_u64_example =
    get_u64-put_u64 (replicate 9 0) 1 0x0102030405060708 (omega arith) (omega arith)

decode-encode_example :
    decode zlib (encode zlib key_ab text_xyz 77 false ++ (9 ∷ []))
    ≡ ok (record {
      timestamp = 77;
      is_tombstone = false;
      key = key_ab;
      value = text_xyz;
      total_size = length (encode zlib key_ab text_xyz 77 false);
    })
decode-encode_example =
    decode-encode zlib key_ab text_xyz 77 false (9 ∷ []) (omega arith) (omega arith) (omega arith)

abbrev pub put_ab : Write
put_ab = record { key = key_ab; value = text_xyz; timestamp = 77; tombstone = false }

abbrev pub remove_ab : Write
remove_ab = record { key = key_ab; value = []; timestamp = 78; tombstone = true }

pub put_ab-CanWrite : CanWrite put_ab
put_ab-CanWrite = record { has_key = omega arith; time = omega arith; fits = omega arith }

pub remove_ab-CanWrite : CanWrite remove_ab
remove_ab-CanWrite = record { has_key = omega arith; time = omega arith; fits = omega arith }

abbrev pub cut_short : List ℕ
cut_short = take 22 (bytes_of zlib remove_ab)

pub length-remove_ab : length (bytes_of zlib remove_ab) ≡ 23
unfolding encode put_u32 put_u64
length-remove_ab = refl

pub cut_short-IsTorn : IsTorn zlib cut_short
cut_short-IsTorn = record {
  write = remove_ab;
  can = remove_ab-CanWrite;
  kept = 22;
  less = omega (arith, length-remove_ab);
  front = refl;
}

replay_into-append_all_example :
    replay_into zlib (append_all zlib (put_ab ∷ remove_ab ∷ []) [] ++ cut_short) empty_table
    ≡ some (record {
      table = apply_all (put_ab ∷ remove_ab ∷ []) empty_table;
      file = append_all zlib (put_ab ∷ remove_ab ∷ []) [];
      result = ok 2;
    })
replay_into-append_all_example =
    replay_into-append_all zlib (put_ab ∷ remove_ab ∷ []) cut_short empty_table
      (put_ab-CanWrite, (remove_ab-CanWrite, tt)) cut_short-IsTorn

-- A visitor that counts, over bytes that are no record.
count_visit : ℕ → Record → List ℕ → ℕ → ℕ × Status
count_visit offset rec raw n = (n + 1, ok tt)

scan_records-total_example :
    (r : ℕ × Result ℕ) × (scan_records zlib (file_of (replicate 30 7)) count_visit 0 ≡ some r)
scan_records-total_example = scan_records-total zlib (file_of (replicate 30 7)) count_visit 0

empty_table-IsValid : IsValid empty_table
empty_table-IsValid = record { sorted = tt; sized = refl }

insert-IsValid_example : IsValid (insert empty_table key_ab text_xyz false)
insert-IsValid_example = insert-IsValid empty_table key_ab text_xyz false empty_table-IsValid

get-put_example :
    get (put empty_table key_ab text_xyz) key_ab
    ≡ some (record { value = text_xyz; tombstone = false })
unfolding key_eq
get-put_example = get-put empty_table key_ab key_ab text_xyz

get-remove_example : get (remove empty_table key_ab) text_xyz ≡ get empty_table text_xyz
unfolding key_eq
get-remove_example = get-remove empty_table key_ab text_xyz
