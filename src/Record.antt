-- ===== src/Record.antt =====
-- include/kvstore/record.hpp and src/record.cpp: the log record,
--   [ crc32 4 | timestamp 8 | flags 1 | key_size 4 | value_size 4 | key | value ].
pub mod Layout
pub mod RoundTrip
use lsm_tree_storage_engine.Prelude.{
  ℕ, Bool, ◌+◌, ◌^◌, List, ◌%◌, Result, ◌-◌, length, not, drop, if◌then◌else◌, bit_and, ◌==◌,
  replicate, set, take, ◌>>◌, ◌>>=◌, reject_if, ltb, corruption, ok, ◌&&◌,
}
use lsm_tree_storage_engine.Encoding.{byte_at, subspan, copy_to, put_u32, put_u64, get_u32, get_u64}
use lsm_tree_storage_engine.Crc.{Zlib, crc32_of}

abbrev pub crc_size : ℕ
crc_size = 4

abbrev pub header_size : ℕ
header_size = 21

abbrev pub flag_tombstone : ℕ
flag_tombstone = 1

-- `kMaxRecordSize`, the largest `std::uint32_t`.
abbrev pub max_record_size : ℕ
max_record_size = 2 ^ 32 - 1

pub record Header : Type 0 where
  pub crc : ℕ
  pub timestamp : ℕ
  pub flags : ℕ
  pub key_size : ℕ
  pub value_size : ℕ

-- `(flags & kFlagTombstone) != 0`.
unfoldable pub has_tombstone : ℕ → Bool
has_tombstone flags = not (bit_and flags flag_tombstone == 0)

abbrev pub is_tombstone : Header → Bool
is_tombstone h = has_tombstone h.flags

abbrev pub total_size : Header → ℕ
total_size h = header_size + h.key_size + h.value_size

pub record Record : Type 0 where
  pub timestamp : ℕ
  pub is_tombstone : Bool
  pub key : List ℕ
  pub value : List ℕ
  pub total_size : ℕ

-- The vector before its crc is put in.
unfoldable pub encode_body : List ℕ → List ℕ → ℕ → Bool → List ℕ
encode_body key value timestamp tombstone =
    let key_size = length key % 2 ^ 32 in
    let value_size = if tombstone then 0 else length value % 2 ^ 32 in
    let out = replicate (header_size + key_size + value_size) 0 in
    let out = put_u64 out 4 timestamp in
    let out = set out 12 (if tombstone then flag_tombstone else 0) in
    let out = put_u32 out 13 key_size in
    let out = put_u32 out 17 value_size in
    let out = copy_to out 21 (take key_size key) in
    copy_to out (21 + key_size) (take value_size value)

unfoldable pub encode : Zlib → List ℕ → List ℕ → ℕ → Bool → List ℕ
unfolding encode_body
encode z key value timestamp tombstone =
    let out = encode_body key value timestamp tombstone in
    put_u32 out 0 (crc32_of z (drop crc_size out))

abbrev pub header_of : List ℕ → Header
header_of bytes = record {
  crc = get_u32 bytes 0;
  timestamp = get_u64 bytes 4;
  flags = byte_at bytes 12;
  key_size = get_u32 bytes 13;
  value_size = get_u32 bytes 17;
}

-- The shape checks of `decode_header`, on the fields that it has read.
unfoldable pub check_header : Header → Result Header
check_header h = do
  reject_if (h.key_size == 0) corruption
  reject_if (is_tombstone h && not (h.value_size == 0)) corruption
  reject_if (ltb max_record_size (total_size h)) corruption
  ok h

unfoldable pub decode_header : List ℕ → Result Header
decode_header bytes = do
  reject_if (ltb (length bytes) header_size) corruption
  check_header (header_of bytes)

abbrev pub record_of : List ℕ → Header → Record
record_of bytes h = record {
  timestamp = h.timestamp;
  is_tombstone = is_tombstone h;
  key = subspan bytes header_size h.key_size;
  value = subspan bytes (header_size + h.key_size) h.value_size;
  total_size = total_size h % 2 ^ 32;
}

-- The rest of `decode`, once the header is read.
unfoldable pub decode_body : Zlib → List ℕ → Header → Result Record
decode_body z bytes header = do
  let total = total_size header
  reject_if (ltb (length bytes) total) corruption
  let expected = crc32_of z (subspan bytes crc_size (total - crc_size))
  reject_if (not (expected == header.crc)) corruption
  ok (record_of bytes header)

unfoldable pub decode : Zlib → List ℕ → Result Record
unfolding decode_body
decode z bytes = do header ← decode_header bytes; decode_body z bytes header
