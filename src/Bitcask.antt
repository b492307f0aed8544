-- ===== src/Bitcask.antt =====
-- include/kvstore/index.hpp, include/kvstore/bitcask.hpp and src/bitcask.cpp: the log-structured hash
-- table. The index, the open files and the counts of dead bytes are functions of their keys; a file is
-- its bytes. `recover` stands in Bitcask/Replay; calls of the operating system that fail are not modelled.
pub mod Reads
pub mod Writes
pub mod Replay
pub mod Recovered
pub mod Hints
use lsm_tree_storage_engine.Prelude.{
  ℕ, List, ◌+◌, ◌==◌, invalid_argument, err, ltb, not, false, true, ◌^◌, Option, ok, ◌-◌, io_error,
  Result, Bool, leb, not_found, some, reject_if, corruption, length, none, [], Status, ◌++◌, ◌%◌,
  if◌then◌else◌, ◌>>=◌, ◌>>◌,
}
use lsm_tree_storage_engine.Crc.{Zlib}
use lsm_tree_storage_engine.Key.{Key, key_eq}
use lsm_tree_storage_engine.Record.{Record}
use lsm_tree_storage_engine.SsTable.Table.{read_file}
use lsm_tree_storage_engine.Record

pub record ValuePointer : Type 0 where
  pub offset : ℕ
  pub timestamp : ℕ
  pub file_id : ℕ
  pub size : ℕ

abbrev pub Index : Type 0
Index = Key → Option ValuePointer

unfoldable pub index_put : Index → Key → ValuePointer → Index
index_put index key pointer = λ k. if key_eq key k then some pointer else index k

unfoldable pub index_erase : Index → Key → Index
index_erase index key = λ k. if key_eq key k then none else index k

pub record Bitcask : Type 0 where
  pub files : ℕ → Option (List ℕ)
  pub active_id : ℕ
  pub index : Index
  pub dead_bytes : ℕ → ℕ

-- A file that is not there has no bytes here; the active file always is.
abbrev pub file_bytes : Option (List ℕ) → List ℕ
file_bytes none = []
file_bytes (some bytes) = bytes

abbrev pub active_file : Bitcask → List ℕ
active_file s = file_bytes (s.files s.active_id)

abbrev pub set_file : (ℕ → Option (List ℕ)) → ℕ → List ℕ → ℕ → Option (List ℕ)
set_file files id bytes = λ i. if i == id then some bytes else files i

-- What a replay fills: the index, and the dead bytes of each file.
abbrev pub Replay : Type 0
Replay = Index × (ℕ → ℕ)

unfoldable pub mark_dead : (ℕ → ℕ) → ℕ → ℕ → ℕ → ℕ
mark_dead dead id size = λ i. if i == id then (dead i + size) % 2 ^ 64 else dead i

abbrev pub mark_displaced : (ℕ → ℕ) → Option ValuePointer → ℕ → ℕ
mark_displaced dead none = dead
mark_displaced dead (some pointer) = mark_dead dead pointer.file_id pointer.size

abbrev pub is_too_large : Key → List ℕ → Bool
is_too_large key value =
    ltb (Record.max_record_size - Record.header_size) (length key + length value)

-- The new file of `rotate`; the counter of ids ends.
unfoldable pub rotate : Bitcask → Bitcask × Status
rotate s = if s.active_id == 4294967295 then (s, err io_error) else (
  record s { files = set_file s.files (s.active_id + 1) []; active_id = s.active_id + 1 },
  ok tt,
)

unfoldable pub rotate_if_needed : ℕ → Bitcask → ℕ → Bitcask × Status
rotate_if_needed max_file_size s incoming_bytes =
    let current = length (active_file s) in
    let rotated = rotate s in
    if current == 0
    then (s, ok tt)
    else if leb (current + incoming_bytes) max_file_size
    then (s, ok tt)
    else rotated

-- `active_file().append(bytes)`; the offset is the size before.
unfoldable pub append_active : Bitcask → List ℕ → Bitcask
append_active s bytes = record s { files = set_file s.files s.active_id (active_file s ++ bytes) }

-- `put` behind the rotation.
unfoldable pub put_record : Bitcask → Key → ℕ → List ℕ → Bitcask
put_record s key timestamp bytes =
    let pointer : ValuePointer = record {
      offset = length (active_file s);
      timestamp = timestamp;
      file_id = s.active_id;
      size = length bytes % 2 ^ 32;
    } in
    record (append_active s bytes) {
      index = index_put s.index key pointer;
      dead_bytes = mark_displaced s.dead_bytes (s.index key);
    }

-- `remove` behind the rotation.
unfoldable pub remove_record : Bitcask → Key → List ℕ → Bitcask
remove_record s key bytes = record (append_active s bytes) {
  index = index_erase s.index key;
  dead_bytes =
      mark_dead (mark_displaced s.dead_bytes (s.index key)) s.active_id (length bytes % 2 ^ 32);
}

abbrev pub then_write : (Bitcask → Bitcask) → Bitcask × Status → Bitcask × Status
then_write write (s, err code) = (s, err code)
then_write write (s, ok _) = (write s, ok tt)

unfoldable pub put : Zlib → ℕ → ℕ → Bitcask → Key → List ℕ → Bitcask × Status
put z max_file_size now s key value =
    let bytes = Record.encode z key value now false in
    if length key == 0
    then (s, err invalid_argument)
    else if is_too_large key value
    then (s, err invalid_argument)
    else then_write (λ s. put_record s key now bytes)
        (rotate_if_needed max_file_size s (length bytes))

unfoldable pub remove : Zlib → ℕ → ℕ → Bitcask → Key → Bitcask × Status
remove z max_file_size now s key =
    let bytes = Record.encode z key [] now true in
    if length key == 0
    then (s, err invalid_argument)
    else if is_too_large key []
    then (s, err invalid_argument)
    else then_write (λ s. remove_record s key bytes)
        (rotate_if_needed max_file_size s (length bytes))

-- `get` behind the lookup of the file.
unfoldable pub read_value : Zlib → Key → List ℕ → ValuePointer → Result (List ℕ)
read_value z key file pointer = do
  bytes ← read_file file pointer.offset pointer.size
  rec ← Record.decode z bytes
  reject_if (not (key_eq rec.key key)) corruption
  reject_if rec.is_tombstone corruption
  ok rec.value

abbrev pub read_from : Zlib → Key → Option (List ℕ) → ValuePointer → Result (List ℕ)
read_from z key none pointer = err corruption
read_from z key (some file) pointer = read_value z key file pointer

abbrev pub read_pointer : Zlib → (ℕ → Option (List ℕ)) → Key → Option ValuePointer → Result (List ℕ)
read_pointer z files key none = err not_found
read_pointer z files key (some pointer) = read_from z key (files pointer.file_id) pointer

unfoldable pub get : Zlib → Bitcask → Key → Result (List ℕ)
get z s key = read_pointer z s.files key (s.index key)
