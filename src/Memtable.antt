-- ===== src/Memtable.antt =====
-- include/kvstore/memtable.hpp and src/memtable.cpp: the sorted front of the LSM write path.
-- `std::uint64_t` arithmetic wraps.
pub mod Laws
use lsm_tree_storage_engine.Prelude.{
  ℕ, true, ◌≡◌, ◌∷◌, none, List, length, ◌+◌, [], Option, some, Bool, ◌-◌, false, ◌%◌, ◌^◌,
}
use lsm_tree_storage_engine.Key.{Key}
use lsm_tree_storage_engine.SortedMap.{Entries, find, assign, lower_bound, IsSorted}

pub record MemEntry : Type 0 where
  pub value : List ℕ
  pub tombstone : Bool

pub record Memtable : Type 0 where
  pub entries : Entries MemEntry
  pub bytes : ℕ

abbrev pub empty_table : Memtable
empty_table = record { entries = []; bytes = 0 }

abbrev pub entry_bytes : Key → List ℕ → ℕ
entry_bytes key value = (length key + length value + 64) % 2 ^ 64

abbrev pub add_u64 : ℕ → ℕ → ℕ
add_u64 a b = (a + b) % 2 ^ 64

abbrev pub sub_u64 : ℕ → ℕ → ℕ
sub_u64 a b = (a + 2 ^ 64 - b) % 2 ^ 64

-- What `insert` adds to the size: an overwritten entry is taken off first.
unfoldable pub resized : ℕ → Key → List ℕ → Option MemEntry → ℕ
resized bytes key value none = add_u64 bytes (entry_bytes key value)
resized bytes key value (some old) =
    add_u64 (sub_u64 bytes (entry_bytes key old.value)) (entry_bytes key value)

unfoldable pub insert : Memtable → Key → List ℕ → Bool → Memtable
insert m key value tombstone = record {
  entries = assign key (record { value = value; tombstone = tombstone }) m.entries;
  bytes = resized m.bytes key value (find key m.entries);
}

unfoldable pub put : Memtable → Key → List ℕ → Memtable
put m key value = insert m key value false

-- A tombstone is an entry, not an absence.
unfoldable pub remove : Memtable → Key → Memtable
remove m key = insert m key [] true

unfoldable pub get : Memtable → Key → Option MemEntry
get m key = find key m.entries

unfoldable pub clear : Memtable → Memtable
clear m = record { entries = []; bytes = 0 }

-- The range that a scan walks: from the first key that is not below `key`.
unfoldable pub from_key : Memtable → Key → Entries MemEntry
from_key m key = lower_bound key m.entries

-- The sizes of all entries, as the estimate means to count them.
abbrev pub counted : Entries MemEntry → ℕ
counted [] = 0
counted ((k, e) ∷ m) = (length k + length e.value + 64) + counted m

pub record IsValid (m : Memtable) : Type 0 where
  pub sorted : IsSorted m.entries
  pub sized : m.bytes ≡ counted m.entries % 2 ^ 64
