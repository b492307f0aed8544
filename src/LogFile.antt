-- ===== src/LogFile.antt =====
-- src/log_file.cpp: a log file with its descriptor's offset, what `append` makes of it, and the loop of
-- `read_at`. How the operating system answers `pwrite`, `fsync` and `pread` is an argument.
pub mod Reads
use lsm_tree_storage_engine.Prelude.{
  ℕ, List, Option, some, none, ok, err, Result, Status, io_error, length, take, drop, ◌++◌, [],
  zero, ◌==◌, corruption, ◌-◌, ◌+◌, suc, if◌then◌else◌,
}

pub data SyncMode : Type 0 where
  always never : SyncMode

-- The bytes up to `end_offset_`, what a failed write left behind them, and how many bytes the device is
-- known to hold.
pub record LogFile : Type 0 where
  pub content : List ℕ
  pub tail : List ℕ
  pub synced : ℕ

-- `cut_off`: the bytes that `pwrite` took before it failed, where it failed.
pub record AppendIo : Type 0 where
  pub cut_off : Option ℕ
  pub fsync : Status

abbrev pub new_file : LogFile
new_file = record { content = []; tail = []; synced = 0 }

abbrev pub sync_after : SyncMode → Status → Status
sync_after always synced = synced
sync_after never synced = ok tt

abbrev pub synced_after : SyncMode → ℕ → ℕ → ℕ
synced_after always size before = size
synced_after never size before = before

-- A write that failed leaves its bytes behind the end; a sync that failed leaves the record in the log.
unfoldable pub append : SyncMode → AppendIo → LogFile → List ℕ → LogFile × Result ℕ
append mode io file bytes = elim io.cut_off [
  | some n ↦
      let front = take n bytes in
      (record file { tail = front ++ drop (length front) file.tail }, err io_error)
  | none ↦
      let longer = record file {
        content = file.content ++ bytes;
        tail = drop (length bytes) file.tail;
      } in
      elim (sync_after mode io.fsync) [
        | err code ↦ (longer, err code)
        | ok _ ↦ (
          record longer { synced = synced_after mode (length longer.content) file.synced },
          ok (length file.content),
        )
      ]
]

-- `read_at`: the rounds left, the bytes still wanted, where they stand, and `buf`. `pread` is asked for
-- a number of bytes at an offset; `err` is a negative answer.
unfoldable pub read_loop : (ℕ → ℕ → Result (List ℕ)) → ℕ → ℕ → ℕ → List ℕ → Option (Result (List ℕ))
read_loop pread zero left at buf = none
read_loop pread (suc fuel) left at buf = if left == 0 then some (ok buf) else elim (pread left at) [
  | err _ ↦ some (err io_error)
  | ok chunk ↦
      let rest = read_loop pread fuel (left - length chunk) (at + length chunk) (buf ++ chunk) in
      if length chunk == 0 then some (err corruption) else rest
]

unfoldable pub read_at : (ℕ → ℕ → Result (List ℕ)) → ℕ → ℕ → Option (Result (List ℕ))
read_at pread offset size = read_loop pread (size + 1) size offset []
