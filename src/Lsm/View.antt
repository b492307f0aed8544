-- ===== src/Lsm/View.antt =====
-- What a store holds, and what `get` answers of it.
use lsm_tree_storage_engine.Prelude.{
  ℕ, List, drop, arith, Option, ◌∙◌, err, not_found, ◌≡◌, false, Result, ◌<◌, ap, ◌==◌, length,
}
use lsm_tree_storage_engine.Crc.{Zlib}
use lsm_tree_storage_engine.Key.{Key}
use lsm_tree_storage_engine.Memtable.{MemEntry}
use lsm_tree_storage_engine.Merge.Pick.{Table}
use lsm_tree_storage_engine.Lsm.{Store, get, get_frozen, or_ask, ask_levels}
use lsm_tree_storage_engine.Lsm.Tables.{
  LevelsHold, AllDisjoint, or_older, newest_in, ask_levels-newest, or_ask-or_older,
}
use lsm_tree_storage_engine.Memtable

-- The published levels are the store's, their tables hold rows, and below the first level the tables
-- are disjoint and in order.
pub record Sound (z : Zlib) (s : Store) (rows : List (List Table)) : Type 0 where
  pub same : s.current ≡ s.levels
  pub hold : LevelsHold z s.levels rows
  pub disjoint : AllDisjoint (drop 1 s.levels)

-- The newest entry of a key: the memtable's, the frozen memtable's, the tables'.
abbrev pub view : Store → List (List Table) → Key → Option MemEntry
view s rows key =
    or_older (Memtable.get s.mem key) (or_older (get_frozen s.imm key) (newest_in key rows))

-- The answer of a read, by the newest entry.
abbrev pub read_of : Option MemEntry → Result (List ℕ)
read_of entry = or_ask entry (err not_found)

-- A read answers with the newest entry of its key, the memtable's before the frozen memtable's before
-- the tables' by level and age: its value, or that there is none where it is a tombstone or absent.
pub get-newest :
    (z : Zlib) (s : Store) (rows : List (List Table)) (key : Key)
    → Sound z s rows
    → 0 < length key
    → get z s key ≡ read_of (view s rows key)
unfolding get
get-newest z s rows key sound h =
    let some_key : (length key == 0) ≡ false = ground (arith, h) in
    let levels_eq =
      ap (ask_levels z key) sound.same
      ∙ ask_levels-newest z key s.levels rows sound.hold sound.disjoint in
    rw some_key (
      ap (λ r. or_ask (Memtable.get s.mem key) (or_ask (get_frozen s.imm key) r)) levels_eq
      ∙ ap (or_ask (Memtable.get s.mem key))
          (or_ask-or_older z key (get_frozen s.imm key) (newest_in key rows) (err not_found))
      ∙ or_ask-or_older z key (Memtable.get s.mem key)
          (or_older (get_frozen s.imm key) (newest_in key rows)) (err not_found))
