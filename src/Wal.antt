-- ===== src/Wal.antt =====
-- src/wal.cpp: the write-ahead log, over the bytes of its file.
pub mod Recovery
use lsm_tree_storage_engine.Prelude.{
  ℕ, ltb, Option, err, Bool, length, [], ◌++◌, some, none, ◌+◌, take, List, Status, corruption,
  Result, ◌==◌, ok, if◌then◌else◌,
}
use lsm_tree_storage_engine.Crc.{Zlib}
use lsm_tree_storage_engine.Record.{Record, encode}
use lsm_tree_storage_engine.LogScan.{scan_records, DataFile, file_of}
use lsm_tree_storage_engine.Memtable.{Memtable, put, remove}
use lsm_tree_storage_engine.Encoding.{subspan}

-- `Wal::append`, where the file takes the bytes. `now` is the clock's reading.
unfoldable pub append : Zlib → ℕ → List ℕ → List ℕ → List ℕ → Bool → List ℕ
append z now file key value tombstone =
    file ++ encode z key (if tombstone then [] else value) now tombstone

-- The visitor of `replay_into`: the memtable, and the count.
unfoldable pub replay_record : ℕ → Record → List ℕ → Memtable × ℕ → (Memtable × ℕ) × Status
replay_record offset rec raw (into, replayed) = (
  (if rec.is_tombstone then remove into rec.key else put into rec.key rec.value, replayed + 1),
  ok tt,
)

-- What `replay_into` leaves: the memtable, the file, cut where it does not verify, and the count.
pub record Replayed : Type 0 where
  pub table : Memtable
  pub file : List ℕ
  pub result : Result ℕ

unfoldable pub cut : List ℕ → (Memtable × ℕ) × Result ℕ → Replayed
cut content ((table, replayed), err e) = record { table = table; file = content; result = err e }
cut content ((table, replayed), ok good_end) = record {
  table = table;
  file = if good_end == length content then content else take good_end content;
  result = ok replayed;
}

unfoldable pub replay_into : Zlib → List ℕ → Memtable → Option Replayed
replay_into z content into = elim (scan_records z (file_of content) replay_record (into, 0)) [
  | none ↦ none
  | some r ↦ some (cut content r)
]
