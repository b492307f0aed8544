-- ===== src/SsTable.antt =====
-- include/kvstore/sstable.hpp and src/sstable.cpp: the sorted table's blocks and footer, and the
-- builder that writes a table. The builder's file is its bytes, and `append` gives the offset at which
-- it wrote; a failed write, `sync` and `close` are not modelled.
pub mod Footers
pub mod Table
pub mod Holds
pub mod Find
pub mod Build
pub mod Adds
pub mod Index
pub mod Layout
pub mod Finish
pub mod Keys
pub mod Open
pub mod Hostile
pub mod Blocks
use lsm_tree_storage_engine.Prelude.{
  ℕ, List, true, zero, Bool, some, Result, none, reject_if, suc, ◌+◌, ltb, Status, Option, [], ◌==◌,
  ◌&&◌, corruption, length, ok, ◌-◌, ◌^◌, ◌∷◌, invalid_argument, ◌%◌, leb, ◌++◌, err, not,
  if◌then◌else◌, ◌>>=◌, ◌>>◌, false,
}
use lsm_tree_storage_engine.Encoding.{append_u32, append_u64, byte_at, subspan, get_u64, get_u32}
use lsm_tree_storage_engine.Bloom.{BloomBuilder}
use lsm_tree_storage_engine.Crc.{Zlib, crc32_of}
use lsm_tree_storage_engine.Key.{Key, key_eq, key_lt}
use lsm_tree_storage_engine.Record.{has_tombstone}
use lsm_tree_storage_engine.Bloom
use lsm_tree_storage_engine.Record

abbrev pub entry_header_size : ℕ
entry_header_size = 9

abbrev pub block_trailer_size : ℕ
block_trailer_size = 4

abbrev pub footer_size : ℕ
footer_size = 44

abbrev pub format_version : ℕ
format_version = 1

-- "KVST".
abbrev pub magic : List ℕ
magic = 0x4b ∷ 0x56 ∷ 0x53 ∷ 0x54 ∷ []

pub record BlockEntry : Type 0 where
  pub key : Key
  pub value : List ℕ
  pub tombstone : Bool

pub record IndexEntry : Type 0 where
  pub key : Key
  pub block_offset : ℕ
  pub block_size : ℕ

pub record Footer : Type 0 where
  pub index_offset : ℕ
  pub index_size : ℕ
  pub filter_offset : ℕ
  pub filter_size : ℕ
  pub entry_count : ℕ
  pub format_version : ℕ

-- One round of `parse_block`: the entry, and the position behind it.
unfoldable pub parse_entry : List ℕ → ℕ → Result (BlockEntry × ℕ)
parse_entry payload at = do
  reject_if (ltb (length payload - at) entry_header_size) corruption
  let key_size = get_u32 payload at
  let value_size = get_u32 payload (at + 4)
  let flags = byte_at payload (at + 8)
  let at = at + entry_header_size
  reject_if (ltb (length payload - at) (key_size + value_size)) corruption
  reject_if (key_size == 0) corruption
  ok (
    record {
      key = subspan payload at key_size;
      value = subspan payload (at + key_size) value_size;
      tombstone = has_tombstone flags;
    },
    at + (key_size + value_size),
  )

-- `out->push_back(entry)` in front of what the rest gives.
abbrev pub push : BlockEntry → Option (Result (List BlockEntry)) → Option (Result (List BlockEntry))
push entry none = none
push entry (some (err code)) = some (err code)
push entry (some (ok entries)) = some (ok (entry ∷ entries))

abbrev pub parse_on :
    (ℕ → Option (Result (List BlockEntry)))
    → Result (BlockEntry × ℕ)
    → Option (Result (List BlockEntry))
parse_on next (err code) = some (err code)
parse_on next (ok (entry, at)) = push entry (next at)

-- The loop of `parse_block`; `none` means that the fuel ran out.
unfoldable pub parse_loop : ℕ → List ℕ → ℕ → Option (Result (List BlockEntry))
parse_loop zero payload at = none
parse_loop (suc fuel) payload at =
    let rest = parse_on (parse_loop fuel payload) (parse_entry payload at) in
    if ltb at (length payload) then rest else some (ok [])

-- Each round takes an entry's header at least.
unfoldable pub parse_block : List ℕ → Option (Result (List BlockEntry))
parse_block payload = parse_loop (suc (length payload)) payload 0

unfoldable pub encode_footer : Zlib → Footer → List ℕ
encode_footer z footer =
    let out = append_u64 [] footer.index_offset in
    let out = append_u32 out footer.index_size in
    let out = append_u64 out footer.filter_offset in
    let out = append_u32 out footer.filter_size in
    let out = append_u64 out footer.entry_count in
    let out = append_u32 out footer.format_version in append_u32 out (crc32_of z out) ++ magic

unfoldable pub decode_footer : Zlib → List ℕ → Result Footer
decode_footer z bytes = do
  reject_if (not (length bytes == footer_size)) corruption
  reject_if (not (key_eq (subspan bytes 40 4) magic)) corruption
  reject_if (not (get_u32 bytes 36 == crc32_of z (subspan bytes 0 36))) corruption
  reject_if (not (get_u32 bytes 32 == format_version)) corruption
  ok (record {
    index_offset = get_u64 bytes 0;
    index_size = get_u32 bytes 8;
    filter_offset = get_u64 bytes 12;
    filter_size = get_u32 bytes 20;
    entry_count = get_u64 bytes 24;
    format_version = get_u32 bytes 32;
  })

pub record SsTableBuilder : Type 0 where
  pub file : List ℕ
  pub target_size : ℕ
  pub filter : BloomBuilder
  pub block : List ℕ
  pub block_last_key : Key
  pub last_key : Key
  pub has_last_key : Bool
  pub entries : ℕ
  pub index : List IndexEntry
  pub finished : Bool

-- `create`: a stale file of that name is removed, so the file is empty.
unfoldable pub create : ℕ → ℕ → Result SsTableBuilder
create block_size bits_per_key = do
  reject_if (block_size == 0) invalid_argument
  ok (record {
    file = [];
    target_size = block_size;
    filter = Bloom.new_builder bits_per_key;
    block = [];
    block_last_key = [];
    last_key = [];
    has_last_key = false;
    entries = 0;
    index = [];
    finished = false;
  })

-- An entry, behind what the block has.
unfoldable pub append_entry : List ℕ → Key → List ℕ → Bool → List ℕ
append_entry block key stored tombstone =
    let block = append_u32 block (length key % 2 ^ 32) in
    let block = append_u32 block (length stored % 2 ^ 32) in
    let block = block ++ (if tombstone then 1 else 0) ∷ [] in (block ++ key) ++ stored

unfoldable pub flush_block : Zlib → SsTableBuilder → SsTableBuilder × Status
flush_block z b =
    if length b.block == 0
    then (b, ok tt)
    else if ltb 4294967295 (length b.block + block_trailer_size)
    then (b, err invalid_argument)
    else let block = append_u32 b.block (crc32_of z b.block) in
      let entry : IndexEntry = record {
        key = b.block_last_key;
        block_offset = length b.file;
        block_size = length block % 2 ^ 32;
      } in
      (
        record b {
          file = b.file ++ block;
          index = b.index ++ entry ∷ [];
          block = [];
          block_last_key = [];
        },
        ok tt,
      )

unfoldable pub add : Zlib → SsTableBuilder → Key → List ℕ → Bool → SsTableBuilder × Status
add z b key value tombstone =
    let stored = if tombstone then [] else value in
    let entry_size = entry_header_size + length key + length stored in
    let added = record b {
      filter = Bloom.add b.filter key;
      block = append_entry b.block key stored tombstone;
      block_last_key = key;
      last_key = key;
      has_last_key = true;
      entries = b.entries + 1;
    } in
    if b.finished
    then (b, err invalid_argument)
    else if length key == 0
    then (b, err invalid_argument)
    else if b.has_last_key && not (key_lt b.last_key key)
    then (b, err invalid_argument)
    else if ltb Record.max_record_size entry_size
    then (b, err invalid_argument)
    else if leb b.target_size (length added.block)
    then flush_block z added
    else (added, ok tt)

-- The index's entries, behind what there is.
unfoldable pub append_index : List ℕ → List IndexEntry → List ℕ
append_index out [] = out
append_index out (entry ∷ index) =
    let out = append_u32 out (length entry.key % 2 ^ 32) ++ entry.key in
    let out = append_u64 out entry.block_offset in
    append_index (append_u32 out entry.block_size) index

-- `finish` behind the last block.
unfoldable pub finish_file : Zlib → (ℕ → ℕ) → SsTableBuilder → SsTableBuilder × Status
finish_file z lround_ln2 b =
    let filter_bytes = Bloom.finish z lround_ln2 b.filter in
    let index_bytes = append_index (append_u32 [] (length b.index % 2 ^ 32)) b.index in
    let index_bytes = append_u32 index_bytes (crc32_of z index_bytes) in
    let filtered = b.file ++ filter_bytes in
    let footer : Footer = record {
      index_offset = length filtered;
      index_size = length index_bytes % 2 ^ 32;
      filter_offset = length b.file;
      filter_size = length filter_bytes % 2 ^ 32;
      entry_count = b.entries;
      format_version = format_version;
    } in
    if ltb 4294967295 (length filter_bytes)
    then (b, err invalid_argument)
    else if ltb 4294967295 (length index_bytes)
    then (record b { file = filtered }, err invalid_argument)
    else (
      record b { file = (filtered ++ index_bytes) ++ encode_footer z footer; finished = true },
      ok tt,
    )

abbrev pub finish_on : Zlib → (ℕ → ℕ) → SsTableBuilder × Status → SsTableBuilder × Status
finish_on z lround_ln2 (b, err code) = (b, err code)
finish_on z lround_ln2 (b, ok _) = finish_file z lround_ln2 b

unfoldable pub finish : Zlib → (ℕ → ℕ) → SsTableBuilder → SsTableBuilder × Status
finish z lround_ln2 b =
    if b.finished then (b, err invalid_argument) else finish_on z lround_ln2 (flush_block z b)
