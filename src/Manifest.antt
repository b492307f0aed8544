-- ===== src/Manifest.antt =====
-- include/kvstore/manifest.hpp and src/manifest.cpp: which tables exist, and the level each lives
-- at, with the bytes of the file that says so. The position of `decode` never passes the payload's
-- end, so that `payload_size - at` never wraps.
pub mod Layout
pub mod RoundTrip
use lsm_tree_storage_engine.Prelude.{
  ℕ, Result, reject_if, Bool, ◌||◌, ok, zero, ◌^◌, ◌++◌, ◌+◌, suc, ◌-◌, corruption, get_or, ◌*◌,
  not, take, ltb, length, ◌∷◌, ◌==◌, ◌%◌, [], List, ◌>>=◌, ◌>>◌,
}
use lsm_tree_storage_engine.Key.{Key, key_eq, key_lt}
use lsm_tree_storage_engine.Encoding.{append_u32, get_u32, subspan, append_u64, get_u64}
use lsm_tree_storage_engine.Crc.{Zlib, crc32_of}

-- "KVMF".
abbrev pub magic : List ℕ
magic = 0x4b ∷ 0x56 ∷ 0x4d ∷ 0x46 ∷ []

abbrev pub format_version : ℕ
format_version = 1

abbrev pub header_size : ℕ
header_size = 16

abbrev pub trailer_size : ℕ
trailer_size = 4

abbrev pub table_fixed_size : ℕ
table_fixed_size = 28

abbrev pub first_file_id : ℕ
first_file_id = 1

pub record TableMeta : Type 0 where
  pub id : ℕ
  pub file_size : ℕ
  pub entry_count : ℕ
  pub min_key : Key
  pub max_key : Key

-- `TableMeta::overlaps`.
abbrev pub overlaps : TableMeta → Key → Key → Bool
overlaps table begin end = not (key_lt table.max_key begin || key_lt end table.min_key)

pub record LevelSet : Type 0 where
  pub next_id : ℕ
  pub levels : List (List TableMeta)

unfoldable pub table_count : List (List TableMeta) → ℕ
table_count [] = 0
table_count (level ∷ levels) = length level + table_count levels

-- The sum of a level's file sizes, in 64 bits.
unfoldable pub tables_bytes : ℕ → List TableMeta → ℕ
tables_bytes bytes [] = bytes
tables_bytes bytes (table ∷ tables) = tables_bytes ((bytes + table.file_size) % 2 ^ 64) tables

-- `level_bytes`, 0 for a level that is not there.
unfoldable pub level_bytes : List (List TableMeta) → ℕ → ℕ
unfolding tables_bytes
level_bytes levels level = tables_bytes 0 (get_or levels level [])

-- `append_string`.
unfoldable pub append_string : List ℕ → Key → List ℕ
append_string out s = append_u32 out (length s % 2 ^ 32) ++ s

unfoldable pub encode_table : List ℕ → TableMeta → List ℕ
encode_table out table =
    let out = append_u32 out table.id in
    let out = append_u64 out table.file_size in
    let out = append_u64 out table.entry_count in
    let out = append_string out table.min_key in append_string out table.max_key

unfoldable pub encode_tables : List ℕ → List TableMeta → List ℕ
encode_tables out [] = out
encode_tables out (table ∷ tables) = encode_tables (encode_table out table) tables

unfoldable pub encode_levels : List ℕ → List (List TableMeta) → List ℕ
encode_levels out [] = out
encode_levels out (level ∷ levels) =
    encode_levels (encode_tables (append_u32 out (length level % 2 ^ 32)) level) levels

unfoldable pub encode : Zlib → LevelSet → List ℕ
encode z s =
    let out = append_u32 magic format_version in
    let out = append_u32 out s.next_id in
    let out = append_u32 out (length s.levels % 2 ^ 32) in
    let out = encode_levels out s.levels in append_u32 out (crc32_of z out)

-- `take_string`: the string, and the position behind it.
unfoldable pub take_string : List ℕ → ℕ → ℕ → Result (Key × ℕ)
take_string bytes limit at = do
  reject_if (ltb (limit - at) 4) corruption
  let size = get_u32 bytes at
  let at = at + 4
  reject_if (ltb (limit - at) size) corruption
  ok (subspan bytes at size, at + size)

-- One round of the inner loop.
unfoldable pub decode_table : List ℕ → ℕ → ℕ → Result (TableMeta × ℕ)
decode_table bytes limit at = do
  reject_if (ltb (limit - at) 20) corruption
  low ← take_string bytes limit (at + 4 + 8 + 8)
  high ← take_string bytes limit low.1
  reject_if (ltb (get_u32 bytes at) first_file_id) corruption
  reject_if (key_lt high.0 low.0) corruption
  ok (
    record {
      id = get_u32 bytes at;
      file_size = get_u64 bytes (at + 4);
      entry_count = get_u64 bytes (at + 4 + 8);
      min_key = low.0;
      max_key = high.0;
    },
    high.1,
  )

unfoldable pub decode_tables : ℕ → List ℕ → ℕ → ℕ → Result (List TableMeta × ℕ)
decode_tables zero bytes limit at = ok ([], at)
decode_tables (suc n) bytes limit at = do
  table ← decode_table bytes limit at
  rest ← decode_tables n bytes limit table.1
  ok (table.0 ∷ rest.0, rest.1)

-- One round of the outer loop.
unfoldable pub decode_level : List ℕ → ℕ → ℕ → Result (List TableMeta × ℕ)
decode_level bytes limit at = do
  reject_if (ltb (limit - at) 4) corruption
  let table_count = get_u32 bytes at
  let at = at + 4
  reject_if (ltb (limit - at) (table_count * table_fixed_size)) corruption
  decode_tables table_count bytes limit at

unfoldable pub decode_levels : ℕ → List ℕ → ℕ → ℕ → Result (List (List TableMeta) × ℕ)
decode_levels zero bytes limit at = ok ([], at)
decode_levels (suc n) bytes limit at = do
  level ← decode_level bytes limit at
  rest ← decode_levels n bytes limit level.1
  ok (level.0 ∷ rest.0, rest.1)

-- `decode` behind the crc.
unfoldable pub decode_payload : List ℕ → ℕ → Result LevelSet
decode_payload bytes payload_size = do
  reject_if (not (get_u32 bytes 4 == format_version)) corruption
  let level_count = get_u32 bytes 12
  reject_if (ltb (payload_size - header_size) (level_count * 4)) corruption
  levels ← decode_levels level_count bytes payload_size header_size
  reject_if (not (levels.1 == payload_size)) corruption
  ok (record { next_id = get_u32 bytes 8; levels = levels.0 })

unfoldable pub decode : Zlib → List ℕ → Result LevelSet
decode z bytes = do
  reject_if (ltb (length bytes) (header_size + trailer_size)) corruption
  reject_if (not (key_eq (take 4 bytes) magic)) corruption
  let payload_size = length bytes - trailer_size
  reject_if (not (get_u32 bytes payload_size == crc32_of z (take payload_size bytes))) corruption
  decode_payload bytes payload_size
