-- ===== src/Lsm/Survives.antt =====
-- A write, a crash and the recovery.
use mathlib.Core.Path.{subst}
use native.Mathlib.Decide.{dec_lt}
use lsm_tree_storage_engine.Prelude.{
  ℕ, List, true, ltb-false, false, ◌∷◌, append_assoc, Option, ◌≤◌, some, ◌+◌, All, ◌-◌, ◌==◌, ◌≡◌,
  err, ◌++◌, none, ap, [], sym, ◌<◌, length, append-nil, All-append, refl, ok, Bool, Status, ◌∙◌,
  arith, if◌then◌else◌, not_found, inl, take, take-take, take_all, length-take, length-append,
  take-append_add,
}
use lsm_tree_storage_engine.Crc.{Zlib}
use lsm_tree_storage_engine.Key.{Key, key_eq}
use lsm_tree_storage_engine.Memtable.{Memtable, empty_table}
use lsm_tree_storage_engine.Merge.Pick.{Table}
use lsm_tree_storage_engine.Record.Layout.{stored_of, Fits}
use lsm_tree_storage_engine.LogScan.Torn.{Write, CanWrite, bytes_of}
use lsm_tree_storage_engine.LogScan.Walk.{IsTorn}
use lsm_tree_storage_engine.Wal.Recovery.{apply, apply_all, append_all}
use lsm_tree_storage_engine.Lsm.{
  StoreOptions, Store, get, is_full, write_entry, write_in_room, Levels, all_done,
}
use lsm_tree_storage_engine.Lsm.Built.{CanFlush}
use lsm_tree_storage_engine.Lsm.Writes.{
  get-write_entry, make_room-room_by, wrote, appended, record_of, write_through-wrote,
}
use lsm_tree_storage_engine.LogFile.{LogFile, SyncMode, always, synced_after}
use lsm_tree_storage_engine.Lsm.Opening.{Directory, log_ids, recover}
use lsm_tree_storage_engine.Lsm.Logs.{AreLogs, IsLog, apply_all-append}
use lsm_tree_storage_engine.Lsm.Reopened.{Durable, recover-reads, InDirectory}
use lsm_tree_storage_engine.SsTable.Table.{SsTable}
use lsm_tree_storage_engine.Record
use lsm_tree_storage_engine.Wal

abbrev pub Logs : Type 0
Logs = List (ℕ × List ℕ)

append_all-append :
    (z : Zlib) (ws vs : List Write) (file : List ℕ)
    → append_all z (ws ++ vs) file ≡ append_all z vs (append_all z ws file)
append_all-append z [] vs file = refl
append_all-append z (w ∷ ws) vs file =
    append_all-append z ws vs (Wal.append z w.timestamp file w.key w.value w.tombstone)

AreLogs-snoc :
    (z : Zlib) (logs : Logs) (id : ℕ) (log : List ℕ) (ws vs : List Write)
    → AreLogs z logs ws
    → IsLog z log vs
    → AreLogs z (logs ++ (id, log) ∷ []) (ws ++ vs)
AreLogs-snoc z [] id log ws vs none_before is_log =
    (vs, [], is_log, refl, ap (λ (t : List Write). t ++ vs) none_before ∙ sym (append-nil vs))
AreLogs-snoc z ((i, first) ∷ logs) id log ws vs (mine, later, is_first, rest, same) is_log = (
  mine,
  later ++ vs,
  is_first,
  AreLogs-snoc z logs id log later vs rest is_log,
  ap (λ (t : List Write). t ++ vs) same ∙ append_assoc mine later vs,
)

log_ids-snoc :
    (logs : Logs) (id : ℕ) (log log' : List ℕ)
    → log_ids (logs ++ (id, log) ∷ []) ≡ log_ids (logs ++ (id, log') ∷ [])
log_ids-snoc [] id log log' = refl
log_ids-snoc ((i, first) ∷ logs) id log log' = ap (λ t. i ∷ t) (log_ids-snoc logs id log log')

-- The open log stands last in the directory, with the writes of the memtable and nothing that a failed
-- append left behind them.
pub record LiveLog (z : Zlib) (dir : Directory) (s : Store) (frozen live : List Write)
    : Type 0 where
  pub older : Logs
  pub id : ℕ
  pub torn : List ℕ
  pub synced : ℕ
  pub last : dir.logs ≡ older ++ (id, append_all z live [] ++ torn) ∷ []
  pub opened : s.wal ≡ some (record { content = append_all z live []; tail = []; synced = synced })
  pub before : AreLogs z older frozen
  pub can : All CanWrite live

-- What a crash leaves of a log while `torn` is written behind it: what the device is known to hold, and
-- of the rest all but the last `lost` bytes.
abbrev pub left_by_crash : LogFile → List ℕ → ℕ → List ℕ
left_by_crash log torn lost =
    let written = log.content ++ torn in
    take (log.synced + (length written - log.synced - lost)) written

take-IsTorn : (z : Zlib) (n : ℕ) (torn : List ℕ) → IsTorn z torn → IsTorn z (take n torn)
take-IsTorn z n torn t = elim (dec_lt t.kept n) [
  | yes outside ↦
      subst (IsTorn z)
        (sym (
          take_all n torn
            (omega (arith, outside, ap length t.front, length-take t.kept (bytes_of z t.write)))))
        t
  | no inside ↦ record {
    write = t.write;
    can = t.can;
    kept = n;
    less = omega (arith, inside, t.less);
    front = ap (take n) t.front ∙ take-take n t.kept (bytes_of z t.write) (omega (arith, inside));
  }
]

-- Of a log that is synced, a crash takes nothing.
left_by_crash-synced :
    (log : LogFile) (torn : List ℕ) (lost : ℕ)
    → log.synced ≡ length log.content
    → left_by_crash log torn lost ≡ log.content ++ take (length torn - lost) torn
left_by_crash-synced log torn lost synced =
    ap (λ (n : ℕ). take n (log.content ++ torn))
      (omega (arith, synced, length-append log.content torn))
    ∙ take-append_add (length torn - lost) log.content torn

-- The directory with a log that has gone on.
abbrev pub logged : Directory → Logs → ℕ → List ℕ → Directory
logged dir older id log = record dir { logs = older ++ (id, log) ∷ [] }

-- Another set of logs leaves the tables' files where they are.
module _ (z : Zlib) (options : StoreOptions) (dir : Directory) (next_id : ℕ) (logs : Logs) where
  tables_moved :
      (ts : List SsTable)
      → All (InDirectory z options dir next_id) ts
      → All (InDirectory z options (record dir { logs = logs }) next_id) ts
  tables_moved [] h = tt
  tables_moved (t ∷ ts) h =
      (record { file = h.0.file; loads = h.0.loads; fresh = h.0.fresh }, tables_moved ts h.1)

  levels_moved :
      (levels : Levels)
      → All (All (InDirectory z options dir next_id)) levels
      → All (All (InDirectory z options (record dir { logs = logs }) next_id)) levels
  levels_moved [] h = tt
  levels_moved (level ∷ levels) h = (tables_moved level h.0, levels_moved levels h.1)

module _ (z : Zlib) (options : StoreOptions) (dir : Directory) (s : Store)
    (rows : List (List Table)) (w : Write) (d : Durable z options dir s rows)
    (l : LiveLog z dir s d.frozen d.live) (healthy : s.background_status ≡ ok tt)
    (room : is_full options s ≡ false) (can : CanWrite w) where
  abbrev log : LogFile
  log = record { content = append_all z d.live []; tail = []; synced = l.synced }

  abbrev mode : SyncMode
  mode = options.sync_mode

  abbrev done : Store
  done = wrote z mode w.timestamp w.key w.value w.tombstone s log

  abbrev longer : LogFile
  longer = appended mode log (record_of z mode w.timestamp w.key w.value w.tombstone)

  abbrev live' : List Write
  live' = d.live ++ w ∷ []

  payload_fits :
      length w.key + (if w.tombstone then 0 else length w.value)
      ≤ Record.max_record_size - Record.header_size
  payload_fits = by_kind w.tombstone can.fits
    where
      by_kind :
          (t : Bool)
          → Fits w.key (stored_of t w.value)
          → length w.key + (if t then 0 else length w.value)
            ≤ Record.max_record_size - Record.header_size
      by_kind true fits = omega (arith, fits)
      by_kind false fits = omega (arith, fits)

  write_entry-wrote :
      write_entry z options all_done w.timestamp s w.key w.value w.tombstone ≡ some (done, ok tt)
  unfolding write_entry
  write_entry-wrote =
      let some_key : (length w.key == 0) ≡ false = ground (arith, can.has_key) in
      let fits =
        ltb-false (Record.max_record_size - Record.header_size)
          (length w.key + (if w.tombstone then 0 else length w.value)) payload_fits in
      rw (some_key, fits)
        (ap (write_in_room z mode all_done.append w.timestamp w.key w.value w.tombstone)
            (make_room-room_by options (ok tt) s (ok tt) healthy)
          ∙ rw room (
              ap some
                (write_through-wrote z mode w.timestamp w.key w.value w.tombstone s log l.opened)))

  log-wrote : append_all z live' [] ≡ longer.content
  unfolding Wal.append
  log-wrote = append_all-append z d.live (w ∷ []) []

  wrote-Durable :
      (torn : List ℕ)
      → IsTorn z torn
      → CanFlush (apply_all (d.frozen ++ live') empty_table)
      → Durable z options (logged dir l.older l.id (longer.content ++ torn)) done rows
  wrote-Durable torn is_torn fits = record {
    sound = record { same = d.sound.same; hold = d.sound.hold; disjoint = d.sound.disjoint };
    next_id = d.next_id;
    manifest = d.manifest;
    tables = levels_moved z options dir d.next_id _ s.levels d.tables;
    writable = d.writable;
    readable = d.readable;
    frozen = d.frozen;
    live = live';
    logs = AreLogs-snoc z l.older l.id _ d.frozen live' l.before (record {
      torn = torn;
      bytes = ap (λ (t : List ℕ). t ++ torn) (sym log-wrote);
      can = All-append CanWrite d.live (w ∷ []) l.can (can, tt);
      is_torn = is_torn;
    });
    ids =
        subst (λ (ids : List ℕ). All (λ (id : ℕ). id < 4294967295) ids)
          (ap log_ids l.last ∙ log_ids-snoc l.older l.id _ _) d.ids;
    same_imm = d.same_imm;
    same_mem =
        ap (λ (m : Memtable). apply w m) d.same_mem
        ∙ sym (apply_all-append d.live (w ∷ []) empty_table);
    fits = fits;
  }

  read_wrote :
      0 < length w.key
      → (j : Key)
      → get z done j ≡ (
          if key_eq w.key j then (if w.tombstone then err not_found else ok w.value) else get z s j)
  read_wrote has_key j =
      let (s', ran, sound, reads) =
        get-write_entry z options s rows w.timestamp w.key w.value w.tombstone d.sound
          (record { healthy = healthy; log = log; logged = l.opened; room = inl room }) has_key
          payload_fits in
      ap (λ (s : Store). get z s j) (ap state_of (sym write_entry-wrote ∙ ran)) ∙ reads j
    where
      state_of : Option (Store × Status) → Store
      state_of none = s
      state_of (some (s', status)) = s'

  -- An acknowledged write survives a crash. The store syncs each append, is durable in its directory
  -- with its open log last, reports no background error and has room in its memtable; the write is one
  -- that a record can hold, and the operating system takes it without an error. It is acknowledged, and
  -- after a crash while another record is written, which takes any number of the bytes that the device
  -- is not known to hold from the log's end, recovery ends without an error: the key reads as the write
  -- made it, and every other key as before, where the writes of the logs fit a table.
  pub write_entry-recover :
      (lround_ln2 : ℕ → ℕ) (torn : List ℕ) (lost : ℕ)
      → options.sync_mode ≡ always
      → 0 < options.block_size
      → IsTorn z torn
      → CanFlush (apply_all (d.frozen ++ (d.live ++ w ∷ [])) empty_table)
      → (s' : Store) × (log' : LogFile) × (r : Store) × (write_entry z options all_done w.timestamp
            s w.key w.value w.tombstone
          ≡ some (s', ok tt))
        × (s'.wal ≡ some log')
        × (recover z lround_ln2 options (logged dir l.older l.id (left_by_crash log' torn lost))
            ≡ some (ok r))
        × ((j : Key)
            → get z r j ≡ (
                if key_eq w.key j
                then (if w.tombstone then err not_found else ok w.value)
                else get z s j))
  write_entry-recover lround_ln2 torn lost syncs sized is_torn fits =
      let torn' = take (length torn - lost) torn in
      let left =
        left_by_crash-synced longer torn lost
          (ap (λ (m : SyncMode). synced_after m (length longer.content) l.synced) syncs) in
      let (r, rows', ran, sound, reads) =
        recover-reads z lround_ln2 options (logged dir l.older l.id (longer.content ++ torn')) sized
          done rows (wrote-Durable torn' (take-IsTorn z _ torn is_torn) fits) in
      (
        done,
        longer,
        r,
        write_entry-wrote,
        refl,
        ap (λ (bytes : List ℕ). recover z lround_ln2 options (logged dir l.older l.id bytes)) left
            ∙ ran,
        λ j. reads j ∙ read_wrote can.has_key j,
      )
