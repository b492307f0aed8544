-- ===== src/Hint.antt =====
-- include/kvstore/hint.hpp and src/hint.cpp: the hint file's entries,
--   [ crc32 4 | timestamp 8 | record_offset 8 | record_size 4 | key_size 4 | key ],
-- and its footer, [ magic 4 | data_file_size 8 | entry_count 8 | crc32 4 ].
pub mod RoundTrip
use lsm_tree_storage_engine.Prelude.{
  ℕ, Result, ◌∷◌, ltb, not, ◌+◌, reject_if, [], take, length, ◌%◌, corruption, replicate, ◌==◌, ok,
  ◌-◌, List, ◌^◌, drop, ◌>>=◌, ◌>>◌,
}
use lsm_tree_storage_engine.Encoding.{byte_at, subspan, copy_to, put_u32, put_u64, get_u32, get_u64}
use lsm_tree_storage_engine.Crc.{Zlib, crc32_of}
use lsm_tree_storage_engine.Key.{key_eq}
use lsm_tree_storage_engine.Record

abbrev pub entry_header_size : ℕ
entry_header_size = 28

abbrev pub footer_size : ℕ
footer_size = 24

-- "KVHT".
abbrev pub magic : List ℕ
magic = 0x4b ∷ 0x56 ∷ 0x48 ∷ 0x54 ∷ []

pub record Entry : Type 0 where
  pub timestamp : ℕ
  pub record_offset : ℕ
  pub record_size : ℕ
  pub key : List ℕ

pub record Footer : Type 0 where
  pub data_file_size : ℕ
  pub entry_count : ℕ

unfoldable pub encode_entry : Zlib → List ℕ → ℕ → ℕ → ℕ → List ℕ
encode_entry z key timestamp record_offset record_size =
    let key_size = length key % 2 ^ 32 in
    let out = replicate (entry_header_size + key_size) 0 in
    let out = put_u64 out 4 timestamp in
    let out = put_u64 out 12 record_offset in
    let out = put_u32 out 20 record_size in
    let out = put_u32 out 24 key_size in
    let out = copy_to out 28 (take key_size key) in put_u32 out 0 (crc32_of z (drop 4 out))

abbrev pub entry_of : List ℕ → ℕ → Entry
entry_of bytes key_size = record {
  timestamp = get_u64 bytes 4;
  record_offset = get_u64 bytes 12;
  record_size = get_u32 bytes 20;
  key = subspan bytes entry_header_size key_size;
}

-- `decode_entry` once the header is known to be there, with the crc and the sizes read.
unfoldable pub check_entry : Zlib → List ℕ → ℕ → ℕ → ℕ → Result Entry
check_entry z bytes crc record_size key_size = do
  reject_if (key_size == 0) corruption
  reject_if (ltb record_size Record.header_size) corruption
  let total = entry_header_size + key_size
  reject_if (ltb (length bytes) total) corruption
  let expected = crc32_of z (subspan bytes 4 (total - 4))
  reject_if (not (expected == crc)) corruption
  ok (entry_of bytes key_size)

unfoldable pub decode_entry : Zlib → List ℕ → Result Entry
unfolding check_entry
decode_entry z bytes = do
  reject_if (ltb (length bytes) entry_header_size) corruption
  check_entry z bytes (get_u32 bytes 0) (get_u32 bytes 20) (get_u32 bytes 24)

unfoldable pub encode_footer : Zlib → ℕ → ℕ → List ℕ
encode_footer z data_file_size entry_count =
    let out = copy_to (replicate footer_size 0) 0 magic in
    let out = put_u64 out 4 data_file_size in
    let out = put_u64 out 12 entry_count in put_u32 out 20 (crc32_of z (subspan out 0 20))

unfoldable pub decode_footer : Zlib → List ℕ → Result Footer
decode_footer z bytes = do
  reject_if (not (length bytes == footer_size)) corruption
  reject_if (not (key_eq (take 4 bytes) magic)) corruption
  let expected = crc32_of z (subspan bytes 0 20)
  reject_if (not (expected == get_u32 bytes 20)) corruption
  ok (record { data_file_size = get_u64 bytes 4; entry_count = get_u64 bytes 12 })
