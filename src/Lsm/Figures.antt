-- ===== src/Lsm/Figures.antt =====
-- src/lsm.cpp: the figures that a store gives of itself, in 64 bits where the code counts so.
use native.Mathlib.Nat.{mod-eq_of_lt, add_assoc}
use lsm_tree_storage_engine.Prelude.{
  ℕ, List, ◌+◌, ◌∷◌, get_or, ◌^◌, [], ◌%◌, ◌≡◌, ap, none, ◌∙◌, ◌++◌, arith, ◌<◌, some, Option,
  length,
}
use lsm_tree_storage_engine.SsTable.Table.{SsTable}
use lsm_tree_storage_engine.Lsm.{Store, Levels}
use lsm_tree_storage_engine.LogFile.{LogFile}

unfoldable pub count_tables : Levels → ℕ
count_tables [] = 0
count_tables (level ∷ levels) = length level + count_tables levels

abbrev pub table_count : Store → ℕ
table_count s = count_tables s.levels

abbrev pub level_count : Store → ℕ
level_count s = length s.levels

-- A level that is not there has no tables.
abbrev pub tables_at : Store → ℕ → ℕ
tables_at s level = length (get_or s.levels level [])

unfoldable pub sum_sizes : ℕ → List SsTable → ℕ
sum_sizes bytes [] = bytes
sum_sizes bytes (table ∷ tables) = sum_sizes ((bytes + length table.file) % 2 ^ 64) tables

abbrev pub level_bytes_locked : Store → ℕ → ℕ
level_bytes_locked s level = sum_sizes 0 (get_or s.levels level [])

abbrev pub memtable_entries : Store → ℕ
memtable_entries s = length s.mem.entries

abbrev pub memtable_bytes : Store → ℕ
memtable_bytes s = s.mem.bytes

unfoldable pub sum_levels : ℕ → Levels → ℕ
sum_levels total [] = total
sum_levels total (level ∷ levels) = sum_levels ((total + sum_sizes 0 level) % 2 ^ 64) levels

abbrev pub wal_size : Option LogFile → ℕ
wal_size none = 0
wal_size (some log) = length log.content

unfoldable pub total_disk_size : Store → ℕ
total_disk_size s = (sum_levels 0 s.levels + wal_size s.wal) % 2 ^ 64

abbrev pub ids_of : List SsTable → List ℕ
ids_of [] = []
ids_of (table ∷ tables) = table.id ∷ ids_of tables

unfoldable pub all_ids : Levels → List ℕ
all_ids [] = []
all_ids (level ∷ levels) = ids_of level ++ all_ids levels

abbrev pub table_ids : Store → List ℕ
table_ids s = all_ids s.levels

abbrev pub table_ids_at : Store → ℕ → List ℕ
table_ids_at s level = ids_of (get_or s.levels level [])

-- All files together, without the wrap.
abbrev pub file_bytes : List SsTable → ℕ
file_bytes [] = 0
file_bytes (table ∷ tables) = length table.file + file_bytes tables

abbrev pub all_bytes : Levels → ℕ
all_bytes [] = 0
all_bytes (level ∷ levels) = file_bytes level + all_bytes levels

sum_sizes-file_bytes :
    (bytes : ℕ) (tables : List SsTable)
    → bytes + file_bytes tables < 2 ^ 64
    → sum_sizes bytes tables ≡ bytes + file_bytes tables
unfolding sum_sizes
sum_sizes-file_bytes bytes [] h = omega arith
sum_sizes-file_bytes bytes (table ∷ tables) h =
    ap (λ (n : ℕ). sum_sizes n tables) (mod-eq_of_lt (omega (arith, h)))
    ∙ sum_sizes-file_bytes (bytes + length table.file) tables (omega (arith, h))
    ∙ add_assoc bytes (length table.file) (file_bytes tables)

sum_levels-all_bytes :
    (total : ℕ) (levels : Levels)
    → total + all_bytes levels < 2 ^ 64
    → sum_levels total levels ≡ total + all_bytes levels
unfolding sum_levels
sum_levels-all_bytes total [] h = omega arith
sum_levels-all_bytes total (level ∷ levels) h =
    let size = sum_sizes-file_bytes 0 level (omega (arith, h)) in
    ap (λ (n : ℕ). sum_levels n levels)
      (ap (λ (n : ℕ). (total + n) % 2 ^ 64) size ∙ mod-eq_of_lt (omega (arith, h)))
    ∙ sum_levels-all_bytes (total + (0 + file_bytes level)) levels (omega (arith, h))
    ∙ omega arith

-- The size on disk is the size of all table files and of the open log together, where it is below 2^64.
pub total_disk_size-bytes :
    (s : Store)
    → all_bytes s.levels + wal_size s.wal < 2 ^ 64
    → total_disk_size s ≡ all_bytes s.levels + wal_size s.wal
unfolding total_disk_size
total_disk_size-bytes s h =
    ap (λ (n : ℕ). (n + wal_size s.wal) % 2 ^ 64)
      (sum_levels-all_bytes 0 s.levels (omega (arith, h)))
    ∙ mod-eq_of_lt (omega (arith, h))
    ∙ omega arith
