-- ===== src/LogScan.antt =====
-- src/log_scan.cpp: the walk over a data file. The file is seen through its size and its `read_at`
-- (`LogFile`); the visitor is a function on the state that its closure captures, which it changes
-- whether it succeeds or fails.
pub mod Torn
pub mod Total
pub mod Walk
use lsm_tree_storage_engine.Prelude.{
  ℕ, ltb, Option, err, suc, zero, some, reject_if, none, List, ok, Status, corruption, Result, ◌+◌,
  if◌then◌else◌, ◌>>=◌, ◌>>◌, length,
}
use lsm_tree_storage_engine.Crc.{Zlib}
use lsm_tree_storage_engine.Record.{Record, Header, decode_header, decode, total_size, header_size}
use lsm_tree_storage_engine.Encoding.{subspan}

-- A file as the scan sees it. Offsets stay below the file's size plus a record's, which is below
-- 2 ^ 64 for any file that a disk holds, so the additions are not wrapped.
pub record DataFile : Type 0 where
  pub size : ℕ
  pub read_at : ℕ → ℕ → Result (List ℕ)

-- A file whose reads succeed inside it and fail with a short read past its end.
abbrev pub file_of : List ℕ → DataFile
file_of content = record {
  size = length content;
  read_at = λ offset size.
      if ltb (length content) (offset + size)
      then err corruption
      else ok (subspan content offset size);
}

module _ (z : Zlib) (file : DataFile) where
  -- One round's reads and checks. Each failure is a `break` of the loop.
  unfoldable pub read_record : ℕ → Result (ℕ × Record × List ℕ)
  read_record offset = do
    header_bytes ← file.read_at offset header_size
    header ← decode_header header_bytes
    let total = total_size header
    reject_if (ltb file.size (offset + total)) corruption
    bytes ← file.read_at offset total
    rec ← decode z bytes
    ok (total, rec, bytes)

  module _ {S : Type 0} (visit : ℕ → Record → List ℕ → S → S × Status) where
    -- `none` means that the fuel ran out, which `scan_records` never does.
    unfoldable pub scan_loop : ℕ → ℕ → ℕ → S → Option (S × Result ℕ)
    scan_loop zero offset good_end s = none
    scan_loop (suc fuel) offset good_end s =
        if ltb file.size (offset + header_size)
        then some (s, ok good_end)
        else elim (read_record offset) [
          | err _ ↦ some (s, ok good_end)
          | ok (total, rec, bytes) ↦
              let (s', status) = visit offset rec bytes s in
              elim status [
                | err e ↦ some (s', err e)
                | ok _ ↦ scan_loop fuel (offset + total) (offset + total) s'
              ]
        ]

    unfoldable pub scan_records : S → Option (S × Result ℕ)
    scan_records s = scan_loop (suc file.size) 0 0 s
