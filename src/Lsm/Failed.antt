-- ===== src/Lsm/Failed.antt =====
-- src/lsm.cpp: `write_entry` where it returns an error, from its guards, the change of logs or the log.
use mathlib.Core.Path.{subst}
use lsm_tree_storage_engine.Prelude.{
  ℕ, List, false, sym, ok, Bool, true, refl, ◌≡◌, Option, none, some, if◌then◌else◌, err, ◌==◌,
  length, ◌+◌, ◌-◌, Status, StatusCode, io_error, ltb, Result,
}
use lsm_tree_storage_engine.Crc.{Zlib}
use lsm_tree_storage_engine.Key.{Key}
use lsm_tree_storage_engine.LogFile.{SyncMode, LogFile, AppendIo, append}
use lsm_tree_storage_engine.Memtable.{MemEntry, Memtable}
use lsm_tree_storage_engine.SortedMap.{find}
use lsm_tree_storage_engine.Merge.Pick.{Table}
use lsm_tree_storage_engine.Lsm.{
  Store, rotate_memtable, write_through, StoreOptions, may_go, write_entry, is_full, write_in_room,
  is_none, get, WriteIo, insert_appended, rotated,
}
use lsm_tree_storage_engine.Lsm.View.{Sound, view}
use lsm_tree_storage_engine.Lsm.Flushed.{get-same_view}
use lsm_tree_storage_engine.Lsm.Writes.{
  room_by, make_room-room_by, rotated-view, rotated-Sound, is_none-none, record_of,
}
use lsm_tree_storage_engine.Memtable
use lsm_tree_storage_engine.Record

-- A state with the same entries to read.
abbrev Same : Zlib → Store → List (List Table) → Store → Type 0
Same z s rows s' = Sound z s' rows × ((j : Key) → view s' rows j ≡ view s rows j)

-- The state of a failed write has the same entries to read.
abbrev KeptOnErr : Zlib → Store → List (List Table) → Option (Store × Status) → Type 0
KeptOnErr z s rows none = Unit
KeptOnErr z s rows (some (s', err code)) = Same z s rows s'
KeptOnErr z s rows (some (s', ok _)) = Unit

KeptOnErr-if :
    (z : Zlib) (s : Store) (rows : List (List Table)) (c : Bool) (r r' : Option (Store × Status))
    → KeptOnErr z s rows r
    → KeptOnErr z s rows r'
    → KeptOnErr z s rows (if c then r else r')
KeptOnErr-if z s rows true r r' u u' = u
KeptOnErr-if z s rows false r r' u u' = u'

module _ (z : Zlib) (mode : SyncMode) (io : AppendIo) (now : ℕ) (key : Key) (value : List ℕ)
    (tombstone : Bool) (s : Store) (rows : List (List Table)) where
  -- The log and its outcome.
  insert_appended-KeptOnErr :
      (s1 : Store) (p : LogFile × Result ℕ)
      → Same z s rows s1
      → KeptOnErr z s rows (some (insert_appended key value tombstone s1 p))
  insert_appended-KeptOnErr s1 (log, err code) (sound, same) =
      (record { same = sound.same; hold = sound.hold; disjoint = sound.disjoint }, same)
  insert_appended-KeptOnErr s1 (log, ok _) same = tt

  write_through-KeptOnErr :
      (s1 : Store)
      → Same z s rows s1
      → KeptOnErr z s rows (some (write_through z mode io now key value tombstone s1))
  unfolding write_through
  write_through-KeptOnErr s1 same = by_log s1.wal
    where
      by_log :
          (wal : Option LogFile)
          → KeptOnErr z s rows (
              some (elim wal [
                | none ↦ (s1, err io_error)
                | some log ↦
                    insert_appended key value tombstone s1
                      (append mode io log (record_of z mode now key value tombstone))
              ]))
      by_log none = same
      by_log (some log) = insert_appended-KeptOnErr s1 _ same

  rotate_memtable-KeptOnErr :
      (rotation : Status)
      → Sound z s rows
      → s.imm ≡ none
      → KeptOnErr z s rows
          (write_in_room z mode io now key value tombstone (some (rotate_memtable rotation s)))
  unfolding rotate_memtable Memtable.get find
  rotate_memtable-KeptOnErr (err code) sound thawed =
      let moved = rotated-Sound z s rows sound in
      (
        record { same = moved.same; hold = moved.hold; disjoint = moved.disjoint },
        λ j. rotated-view s rows j thawed,
      )
  rotate_memtable-KeptOnErr (ok _) sound thawed =
      write_through-KeptOnErr (rotated s)
        (rotated-Sound z s rows sound, λ j. rotated-view s rows j thawed)

  room_by-KeptOnErr :
      (options : StoreOptions) (rotation status : Status)
      → Sound z s rows
      → KeptOnErr z s rows
          (write_in_room z mode io now key value tombstone (room_by options rotation s status))
  room_by-KeptOnErr options rotation (err code) sound = (sound, λ j. refl)
  room_by-KeptOnErr options rotation (ok _) sound =
      by_room (is_full options s) (may_go s) (is_none s.imm) refl
    where
      by_room :
          (full goes thawed : Bool)
          → is_none s.imm ≡ thawed
          → KeptOnErr z s rows (
              write_in_room z mode io now key value tombstone (
                if full
                then (if goes
                    then some (if thawed then rotate_memtable rotation s else (s, ok tt))
                    else none)
                else some (s, ok tt)))
      by_room true true true e = rotate_memtable-KeptOnErr rotation sound (is_none-none s.imm e)
      by_room true true false e = write_through-KeptOnErr s (sound, λ j. refl)
      by_room true false thawed e = tt
      by_room false goes thawed e = write_through-KeptOnErr s (sound, λ j. refl)

write_entry-KeptOnErr :
    (z : Zlib) (options : StoreOptions) (io : WriteIo) (now : ℕ) (s : Store)
    (rows : List (List Table)) (key : Key) (value : List ℕ) (tombstone : Bool)
    → Sound z s rows
    → KeptOnErr z s rows (write_entry z options io now s key value tombstone)
unfolding write_entry
write_entry-KeptOnErr z options io now s rows key value tombstone sound =
    let room = make_room-room_by options io.rotation s s.background_status refl in
    KeptOnErr-if z s rows (length key == 0) _ _ (sound, λ j. refl)
      (KeptOnErr-if z s rows
        (ltb (Record.max_record_size - Record.header_size)
          (length key + (if tombstone then 0 else length value)))
        _ _ (sound, λ j. refl)
        (subst
          (λ r.
            KeptOnErr z s rows
              (write_in_room z options.sync_mode io.append now key value tombstone r))
          (sym room)
          (room_by-KeptOnErr z options.sync_mode io.append now key value tombstone s rows options
            io.rotation s.background_status sound)))

-- A write that reports an error, whatever failed, leaves every read as it was: a guard, the change of
-- logs with the memtable already frozen, a record that the log took in part, or one that it took and
-- could not sync.
pub write_entry-err :
    (z : Zlib) (options : StoreOptions) (io : WriteIo) (now : ℕ) (s s' : Store)
    (rows : List (List Table)) (key : Key) (value : List ℕ) (tombstone : Bool) (code : StatusCode)
    → Sound z s rows
    → write_entry z options io now s key value tombstone ≡ some (s', err code)
    → Sound z s' rows × ((j : Key) → get z s' j ≡ get z s j)
write_entry-err z options io now s s' rows key value tombstone code sound failed =
    let (sound', same) =
      subst (KeptOnErr z s rows) failed
        (write_entry-KeptOnErr z options io now s rows key value tombstone sound) in
    (sound', λ j. get-same_view z s s' rows rows j sound sound' (same j))
