-- ===== src/Lsm/Writes.antt =====
-- The reads of a store, before and after a write.
use lsm_tree_storage_engine.Prelude.{
  ℕ, List, false, sym, ok, Bool, true, refl, ◌≡◌, Option, ◌∙◌, ap, [], none, some, if◌then◌else◌,
  Bool-cases, arith, ◌⊎◌, ◌≤◌, err, ◌==◌, inl, length, ◌∷◌, ◌<◌, ◌+◌, ◌-◌, not_found, Status,
  ltb-false, inr, ◌++◌, drop, io_error,
}
use lsm_tree_storage_engine.Crc.{Zlib}
use lsm_tree_storage_engine.Key.{Key, key_eq, key_eq_iff}
use lsm_tree_storage_engine.Memtable.{MemEntry, Memtable}
use lsm_tree_storage_engine.Memtable.Laws.{get-put, get-remove}
use lsm_tree_storage_engine.Merge.Pick.{Table}
use lsm_tree_storage_engine.Lsm.{
  get, Store, get_frozen, rotate_memtable, write_through, StoreOptions, make_room, may_go,
  write_entry, is_full, write_in_room, is_none, rotated, all_done, insert_appended,
}
use lsm_tree_storage_engine.Lsm.Tables.{or_older, newest_in}
use lsm_tree_storage_engine.Lsm.View.{Sound, view, read_of, get-newest}
use lsm_tree_storage_engine.SortedMap.{find}
use lsm_tree_storage_engine.LogFile.{
  SyncMode, LogFile, always, never, append, synced_after, new_file,
}
use lsm_tree_storage_engine.Memtable
use lsm_tree_storage_engine.Record

-- The entry that a write makes.
abbrev pub written : List ℕ → Bool → MemEntry
written value tombstone = record { value = if tombstone then [] else value; tombstone = tombstone }

pub record Wrote (z : Zlib) (s : Store) (rows : List (List Table)) (key : Key) (e : MemEntry)
    (s' : Store) : Type 0 where
  pub sound : Sound z s' rows
  pub reads : (j : Key) → view s' rows j ≡ (if key_eq key j then some e else view s rows j)

pub or_older-if :
    (c : Bool) (e : MemEntry) (o p : Option MemEntry)
    → or_older (if c then some e else o) p ≡ (if c then some e else or_older o p)
or_older-if true e o p = refl
or_older-if false e o p = refl

-- A freeze moves entries and changes no read.
pub rotated-view :
    (s : Store) (rows : List (List Table)) (j : Key)
    → s.imm ≡ none
    → view (rotated s) rows j ≡ view s rows j
unfolding Memtable.get find
rotated-view s rows j thawed =
    ap
      (λ (imm : Option Memtable).
        or_older (Memtable.get s.mem j) (or_older (get_frozen imm j) (newest_in j rows)))
      (sym thawed)

pub rotated-Sound :
    (z : Zlib) (s : Store) (rows : List (List Table)) → Sound z s rows → Sound z (rotated s) rows
rotated-Sound z s rows sound = record {
  same = sound.same;
  hold = sound.hold;
  disjoint = sound.disjoint;
}

-- What an append leaves where it succeeds.
abbrev pub appended : SyncMode → LogFile → List ℕ → LogFile
appended mode log bytes = record {
  content = log.content ++ bytes;
  tail = drop (length bytes) log.tail;
  synced = synced_after mode (length (log.content ++ bytes)) log.synced;
}

pub append-done :
    (mode : SyncMode) (log : LogFile) (bytes : List ℕ)
    → append mode all_done.append log bytes ≡ (appended mode log bytes, ok (length log.content))
unfolding append
append-done always log bytes = refl
append-done never log bytes = refl

module _ (z : Zlib) (mode : SyncMode) (now : ℕ) (key : Key) (value : List ℕ)
    (tombstone : Bool) where
  abbrev pub record_of : List ℕ
  record_of = Record.encode z key (if tombstone then [] else value) now tombstone

  abbrev pub wrote : Store → LogFile → Store
  wrote s log = record s {
    wal = some (appended mode log record_of);
    mem = if tombstone then Memtable.remove s.mem key else Memtable.put s.mem key value;
  }

  pub write_through-wrote :
      (s : Store) (log : LogFile)
      → s.wal ≡ some log
      → write_through z mode all_done.append now key value tombstone s ≡ (wrote s log, ok tt)
  unfolding write_through
  write_through-wrote s log logged =
      ap through logged
      ∙ ap (insert_appended key value tombstone s) (append-done mode log record_of)
    where
      through : Option LogFile → Store × Status
      through o = elim o [
        | none ↦ (s, err io_error)
        | some log ↦
            insert_appended key value tombstone s (append mode all_done.append log record_of)
      ]

  write_through-Wrote :
      (s : Store) (rows : List (List Table)) (log : LogFile)
      → Sound z s rows
      → Wrote z s rows key (written value tombstone) (wrote s log)
  write_through-Wrote s rows log sound = record {
    sound = record { same = sound.same; hold = sound.hold; disjoint = sound.disjoint };
    reads = λ j.
        ap (λ (o : Option MemEntry). or_older o (or_older (get_frozen s.imm j) (newest_in j rows)))
          (get-written tombstone j)
        ∙ or_older-if (key_eq key j) (written value tombstone) (Memtable.get s.mem j)
            (or_older (get_frozen s.imm j) (newest_in j rows));
  }
    where
      get-written :
          (t : Bool) (j : Key)
          → Memtable.get (if t then Memtable.remove s.mem key else Memtable.put s.mem key value) j
            ≡ (if key_eq key j then some (written value t) else Memtable.get s.mem j)
      get-written true j = get-remove s.mem key j
      get-written false j = get-put s.mem key j value

-- What `make_room` makes of the background status.
abbrev pub room_by : StoreOptions → Status → Store → Status → Option (Store × Status)
room_by options rotation s (err code) = some (s, err code)
room_by options rotation s (ok _) =
    if is_full options s
    then (if may_go s
        then some (if is_none s.imm then rotate_memtable rotation s else (s, ok tt))
        else none)
    else some (s, ok tt)

pub make_room-room_by :
    (options : StoreOptions) (rotation : Status) (s : Store) (status : Status)
    → s.background_status ≡ status
    → make_room options rotation s ≡ room_by options rotation s status
unfolding make_room
make_room-room_by options rotation s status e =
    by_status s.background_status ∙ ap (room_by options rotation s) e
  where
    by_status :
        (st : Status)
        → elim st [
          | err code ↦ some (s, err code)
          | ok _ ↦
              if is_full options s
              then (if may_go s
                  then some (if is_none s.imm then rotate_memtable rotation s else (s, ok tt))
                  else none)
              else some (s, ok tt)
        ]
          ≡ room_by options rotation s st
    by_status (err code) = refl
    by_status (ok _) = refl

pub is_none-none : (imm : Option Memtable) → is_none imm ≡ true → imm ≡ none
is_none-none none e = refl
is_none-none (some m) e = cc

-- What a store is ready for a write by: no background error, an open log, and room in the memtable or
-- nothing frozen.
pub record IsReady (options : StoreOptions) (s : Store) : Type 0 where
  pub healthy : s.background_status ≡ ok tt
  pub log : LogFile
  pub logged : s.wal ≡ some log
  pub room : (is_full options s ≡ false) ⊎ (s.imm ≡ none)

module _ (z : Zlib) (options : StoreOptions) (s : Store) where
  make_room-IsReady :
      (rows : List (List Table))
      → Sound z s rows
      → IsReady options s
      → (s1 : Store) × (log : LogFile) × (make_room options (ok tt) s ≡ some (s1, ok tt))
        × (s1.wal ≡ some log)
        × Sound z s1 rows
        × ((j : Key) → view s1 rows j ≡ view s rows j)
  unfolding rotate_memtable
  make_room-IsReady rows sound ready = elim (Bool-cases (is_full options s)) [
    | inr room ↦ (
      s,
      ready.log,
      make_room-room_by options (ok tt) s (ok tt) ready.healthy ∙ rw room refl,
      ready.logged,
      sound,
      λ j. refl,
    )
    | inl full ↦ elim ready.room [
      | inl room ↦ cc (room, full)
      | inr thawed ↦ (
        rotated s,
        new_file,
        make_room-room_by options (ok tt) s (ok tt) ready.healthy ∙ rw full (frozen_or_not thawed),
        refl,
        rotated-Sound z s rows sound,
        λ j. rotated-view s rows j thawed,
      )
    ]
  ]
    where
      frozen : Bool → Bool → Option (Store × Status)
      frozen goes thawed =
          if goes then some (if thawed then rotate_memtable (ok tt) s else (s, ok tt)) else none

      frozen_or_not :
          s.imm ≡ none → frozen (may_go s) (is_none s.imm) ≡ some (rotate_memtable (ok tt) s)
      frozen_or_not thawed =
          let empty : is_none s.imm ≡ true = ap (λ (imm : Option Memtable). is_none imm) thawed in
          let goes : may_go s ≡ true = ground (arith, empty) in λ i. frozen (goes i) (empty i)

  pub write_entry-Wrote :
      (rows : List (List Table)) (now : ℕ) (key : Key) (value : List ℕ) (tombstone : Bool)
      → Sound z s rows
      → IsReady options s
      → 0 < length key
      → length key + (if tombstone then 0 else length value)
        ≤ Record.max_record_size - Record.header_size
      → (s' : Store) × (write_entry z options all_done now s key value tombstone ≡ some (s', ok tt))
        × Wrote z s rows key (written value tombstone) s'
  unfolding write_entry
  write_entry-Wrote rows now key value tombstone sound ready has_key small =
      let (s1, log, room, logged, sound1, same) = make_room-IsReady rows sound ready in
      let ran = write_through-wrote z options.sync_mode now key value tombstone s1 log logged in
      let done =
        write_through-Wrote z options.sync_mode now key value tombstone s1 rows log sound1 in
      let some_key : (length key == 0) ≡ false = ground (arith, has_key) in
      let fits =
        ltb-false (Record.max_record_size - Record.header_size)
          (length key + (if tombstone then 0 else length value)) small in
      (
        wrote z options.sync_mode now key value tombstone s1 log,
        rw (some_key, fits)
            (ap (write_in_room z options.sync_mode all_done.append now key value tombstone) room
              ∙ ap some ran),
        record {
          sound = done.sound;
          reads = λ j.
              done.reads j
              ∙ ap
                  (λ (o : Option MemEntry).
                    if key_eq key j then some (written value tombstone) else o)
                  (same j);
        },
      )

  read_of-written :
      (c tombstone : Bool) (value : List ℕ) (o : Option MemEntry)
      → read_of (if c then some (written value tombstone) else o)
        ≡ (if c then (if tombstone then err not_found else ok value) else read_of o)
  read_of-written true true value o = refl
  read_of-written true false value o = refl
  read_of-written false tombstone value o = refl

  -- A write to a store that is ready for it, with a key and within the record size, is acknowledged
  -- where the operating system takes the log's bytes, syncs them and changes the logs without an error;
  -- the next read of its key gives the value written, or none after a removal, and the read of any other
  -- key is as before, whether the memtable was frozen on the way or not.
  pub get-write_entry :
      (rows : List (List Table)) (now : ℕ) (key : Key) (value : List ℕ) (tombstone : Bool)
      → Sound z s rows
      → IsReady options s
      → 0 < length key
      → length key + (if tombstone then 0 else length value)
        ≤ Record.max_record_size - Record.header_size
      → (s' : Store) × (write_entry z options all_done now s key value tombstone ≡ some (s', ok tt))
        × Sound z s' rows
        × ((j : Key)
            → get z s' j ≡ (
                if key_eq key j
                then (if tombstone then err not_found else ok value)
                else get z s j))
  unfolding get key_eq
  get-write_entry rows now key value tombstone sound ready has_key small =
      let (s', ran, wrote) =
        write_entry-Wrote rows now key value tombstone sound ready has_key small in
      (s', ran, wrote.sound, λ j. by_key j s' wrote)
    where
      by_key :
          (j : Key) (s' : Store)
          → Wrote z s rows key (written value tombstone) s'
          → get z s' j
            ≡ (if key_eq key j then (if tombstone then err not_found else ok value) else get z s j)
      by_key [] s' wrote = ground (arith, has_key, key_eq_iff key [])
      by_key (x ∷ j) s' wrote =
          get-newest z s' rows (x ∷ j) wrote.sound (omega arith)
          ∙ ap read_of (wrote.reads (x ∷ j))
          ∙ read_of-written (key_eq key (x ∷ j)) tombstone value (view s rows (x ∷ j))
          ∙ ap
              (λ r.
                if key_eq key (x ∷ j) then (if tombstone then err not_found else ok value) else r)
              (sym (get-newest z s rows (x ∷ j) sound (omega arith)))
