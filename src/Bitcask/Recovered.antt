-- ===== src/Bitcask/Recovered.antt =====
-- src/bitcask.cpp: the map that a store holds after the replay of its data files.
use mathlib.Core.Path.{subst}
use lsm_tree_storage_engine.Prelude.{
  ℕ, List, ◌++◌, Option, ◌∷◌, some, [], map, ◌+◌, ◌≤◌, none, ◌≡◌, length, if◌then◌else◌, append-nil,
  corruption, arith, inl, Result, All, ◌∙◌, inr, ok, take-append_eq, length-append, sym, Bool,
  ==_iff, ◌⊎◌, refl, false, take, err, Bool-cases, ap, ◌==◌, true, not, ◌<◌, ◌&&◌,
}
use lsm_tree_storage_engine.Crc.{Zlib}
use lsm_tree_storage_engine.Key.{Key, key_eq, key_eq_iff}
use lsm_tree_storage_engine.Encoding.Cursor.{At, At-append_skip, subspan-At}
use lsm_tree_storage_engine.Record.{Record, encode, decode}
use lsm_tree_storage_engine.LogScan.{file_of, scan_records}
use lsm_tree_storage_engine.LogScan.Torn.{
  Write, CanWrite, bytes_of, record_read, log_bytes, size-bytes_of,
}
use lsm_tree_storage_engine.LogScan.Walk.{IsTorn, walk, scan_records-log}
use lsm_tree_storage_engine.Bitcask.{Index, index_put, index_erase, Bitcask, set_file, Replay}
use lsm_tree_storage_engine.Bitcask.Reads.{
  Points, PointsAt, Grows, Holds, set_file-here, PointsAt-Grows,
}
use lsm_tree_storage_engine.Bitcask.Writes.{updated}
use lsm_tree_storage_engine.Bitcask.Replay.{
  replay_record, judged, judged_all, replay_file, recover, is_last, replay_files, with_file,
  HintFiles, ask_hint, or_scan, replay_one,
}
use lsm_tree_storage_engine.Record.RoundTrip.{decode-encode}
use lsm_tree_storage_engine.Wal.Recovery.{append-nothing}

-- The map that writes make, in their order.
abbrev pub map_of : List Write → (Key → Option (List ℕ)) → Key → Option (List ℕ)
map_of [] map = map
map_of (w ∷ ws) map = map_of ws (updated map w.key (if w.tombstone then none else some w.value))

abbrev pub AllPoint : Zlib → (ℕ → Option (List ℕ)) → ℕ → Index → (Key → Option (List ℕ)) → Type 0
AllPoint z files last index map = (key : Key) → PointsAt z files last key (index key) (map key)

module _ (z : Zlib) (files : ℕ → Option (List ℕ)) (id : ℕ) (log : List ℕ)
    (there : files id ≡ some log) where
  -- The pointer that a record's visit makes.
  new-Points :
      (key value : List ℕ) (time offset : ℕ) (rest : List ℕ)
      → CanWrite (record { key = key; value = value; timestamp = time; tombstone = false })
      → At log offset (encode z key value time false ++ rest)
      → offset + length (encode z key value time false) ≤ length log
      → Points z files id key
          (record {
            offset = offset;
            timestamp = time;
            file_id = id;
            size = length (encode z key value time false);
          })
          value
  new-Points key value time offset rest can a room = record {
    file = log;
    there = there;
    time = time;
    in_range = omega arith;
    inside = room;
    some_bytes = omega (
      arith,
      size-bytes_of z (record { key = key; value = value; timestamp = time; tombstone = false })
          can,
    );
    content = subspan-At (encode z key value time false) rest a;
    reads_back =
        ap (λ (t : List ℕ). decode z t) (sym (append-nil (encode z key value time false)))
        ∙ decode-encode z key value time false [] can.has_key can.time can.fits;
  }

  -- One record.
  visited :
      (key value : List ℕ) (time : ℕ) (tombstone : Bool) (offset : ℕ) (rest : List ℕ)
      (replay : Replay) (map : Key → Option (List ℕ))
      → CanWrite (record { key = key; value = value; timestamp = time; tombstone = tombstone })
      → At log offset (encode z key value time tombstone ++ rest)
      → offset + length (encode z key value time tombstone) ≤ length log
      → AllPoint z files id replay.0 map
      → AllPoint z files id
          (replay_record id offset
            (record_read z
              (record { key = key; value = value; timestamp = time; tombstone = tombstone }))
            (encode z key value time tombstone)
            replay).0.0
          (updated map key (if tombstone then none else some value))
  unfolding replay_record index_put index_erase
  visited key value time true offset rest (index, dead) map can a room points k =
      elim (Bool-cases (key_eq key k)) [ inl same ↦ rw same tt | inr other ↦ rw other (points k) ]
  visited key value time false offset rest (index, dead) map can a room points k =
      elim (Bool-cases (key_eq key k)) [
        | inl same ↦ rw same (
            subst
              (λ (k : Key).
                Points z files id k
                  (record {
                    offset = offset;
                    timestamp = time;
                    file_id = id;
                    size = length (encode z key value time false);
                  })
                  value)
              ((key_eq_iff key k).0 same) (new-Points key value time offset rest can a room))
        | inr other ↦ rw other (points k)
      ]

  walk-AllPoint :
      (ws : List Write) (offset : ℕ) (replay : Replay) (map : Key → Option (List ℕ))
      → All CanWrite ws
      → At log offset (log_bytes z ws)
      → offset + length (log_bytes z ws) ≤ length log
      → AllPoint z files id replay.0 map
      → AllPoint z files id (walk z (replay_record id) offset ws replay).0 (map_of ws map)
  walk-AllPoint [] offset replay map can a room points = points
  walk-AllPoint (w ∷ ws) offset replay map can a room points =
      let size = length-append (bytes_of z w) (log_bytes z ws) in
      walk-AllPoint ws (offset + length (bytes_of z w))
        (replay_record id offset (record_read z w) (bytes_of z w) replay).0
        (updated map w.key (if w.tombstone then none else some w.value)) can.1
        (At-append_skip (bytes_of z w) (log_bytes z ws) a) (omega (arith, room, size))
        (visited w.key w.value w.timestamp w.tombstone offset (log_bytes z ws) replay map can.0 a
          (omega (arith, room, size)) points)

-- A data file of whole records; the last file may have the front of one more behind them.
pub record IsFile (z : Zlib) (content : List ℕ) (is_active : Bool) (ws : List Write) : Type 0 where
  pub torn : List ℕ
  pub bytes : content ≡ log_bytes z ws ++ torn
  pub can : All CanWrite ws
  pub is_torn : IsTorn z torn
  pub sealed : (is_active ≡ true) ⊎ (torn ≡ [])

visit-ok :
    (id offset : ℕ) (rec : Record) (raw : List ℕ) (replay : Replay)
    → (replay_record id offset rec raw replay).1 ≡ ok tt
unfolding replay_record
visit-ok id offset rec raw (index, dead) = refl

judged-log :
    (log torn : List ℕ) (is_active : Bool) (replay : Replay)
    → (is_active ≡ true) ⊎ (torn ≡ [])
    → judged (log ++ torn) is_active (replay, ok (length log)) ≡ (replay, ok log)
judged-log log torn is_active replay sealed =
    elim (Bool-cases (length log == length (log ++ torn))) [
      | inl whole ↦
          ap (λ (c : Bool). by_size c) whole
          ∙ ap (λ (t : List ℕ). (replay, ok t))
              (append-nothing log torn ((==_iff (length log) (length (log ++ torn))).0 whole))
      | inr part ↦ elim sealed [
        | inl active ↦
            ap (λ (c : Bool). by_size c) part
            ∙ ap (λ (c : Bool). sealed_as c) active
            ∙ ap (λ (t : List ℕ). (replay, ok t)) (take-append_eq (length log) log torn refl)
        | inr none_torn ↦
            absurd (
              ground (arith, part, length-append log torn, ap (λ (t : List ℕ). length t) none_torn))
      ]
    ]
  where
    sealed_as : Bool → Replay × Result (List ℕ)
    sealed_as c = (replay, if not c then err corruption else ok (take (length log) (log ++ torn)))

    by_size : Bool → Replay × Result (List ℕ)
    by_size c = (
      replay,
      if c
          then ok (log ++ torn)
          else if not is_active
          then err corruption
          else ok (take (length log) (log ++ torn)),
    )

replay_file-IsFile :
    (z : Zlib) (id : ℕ) (content : List ℕ) (is_active : Bool) (ws : List Write) (replay : Replay)
    → IsFile z content is_active ws
    → replay_file z id content is_active replay
      ≡ some (walk z (replay_record id) 0 ws replay, ok (log_bytes z ws))
unfolding replay_file
replay_file-IsFile z id content is_active ws replay f =
    ap
      (λ (t : List ℕ).
        judged_all t is_active (scan_records z (file_of t) (replay_record id) replay))
      f.bytes
    ∙ ap (judged_all (log_bytes z ws ++ f.torn) is_active)
        (scan_records-log z (replay_record id) (visit-ok id) ws f.torn replay f.can f.is_torn)
    ∙ ap some (
        judged-log (log_bytes z ws) f.torn is_active (walk z (replay_record id) 0 ws replay)
          f.sealed)

-- No hint is used: they are ignored, or there are none.
abbrev pub NoHints : HintFiles → Type 0
NoHints hints = (hints.ignored ≡ true) ⊎ ((id : ℕ) → hints.hint_file id ≡ none)

replay_one-NoHints :
    (z : Zlib) (hints : HintFiles) (id : ℕ) (content : List ℕ) (is_active : Bool) (replay : Replay)
    → NoHints hints
    → replay_one z hints id content is_active replay ≡ replay_file z id content is_active replay
unfolding replay_one
replay_one-NoHints z hints id content is_active replay no_hints =
    ap (or_scan content (replay_file z id content is_active)) (unused is_active no_hints)
  where
    unused :
        (active : Bool)
        → NoHints hints
        → (if not active && not hints.ignored
            then ask_hint z (hints.hint_file id) id content replay
            else some (replay, false))
          ≡ some (replay, false)
    unused true h = refl
    unused false (inl ignored) =
        ap
          (λ (c : Bool).
            if not c
            then ask_hint z (hints.hint_file id) id content replay
            else some (replay, false))
          ignored
    unused false (inr none_there) = by_answer (not hints.ignored)
      where
        by_answer :
            (c : Bool)
            → (if c
                then ask_hint z (hints.hint_file id) id content replay
                else some (replay, false))
              ≡ some (replay, false)
        by_answer true = ap (λ o. ask_hint z o id content replay) (none_there id)
        by_answer false = refl

-- The data files of writes, in order of their ids; the last may be torn.
abbrev pub AreFiles : Zlib → ℕ → List (ℕ × List ℕ) → List Write → Type 0
AreFiles z last [] ws = ws ≡ []
AreFiles z last ((id, content) ∷ files) ws =
    (mine : List Write) × (later : List Write) × (last < id)
    × IsFile z content (is_last files) mine
    × AreFiles z id files later
    × (ws ≡ mine ++ later)

map_of-append :
    (ws vs : List Write) (map : Key → Option (List ℕ))
    → map_of (ws ++ vs) map ≡ map_of vs (map_of ws map)
map_of-append [] vs map = refl
map_of-append (w ∷ ws) vs map =
    map_of-append ws vs (updated map w.key (if w.tombstone then none else some w.value))

above-Grows :
    (files : ℕ → Option (List ℕ)) (last id : ℕ) (bytes : List ℕ)
    → last < id
    → Grows files (set_file files id bytes) last
above-Grows files last id bytes above i file low there =
    let other : (i == id) ≡ false = ground (arith, low, above) in
    ([], rw other (there ∙ ap some (sym (append-nil file))))

-- A store whose index points at its map's records.
abbrev pub StorePoints : Zlib → Bitcask → (Key → Option (List ℕ)) → Type 0
StorePoints z s map = AllPoint z s.files s.active_id s.index map

module _ (z : Zlib) (hints : HintFiles) (no_hints : NoHints hints) where
  -- The store behind one more file.
  abbrev replayed : Bitcask → ℕ → List Write → Bitcask
  replayed s id ws = record {
    files = set_file s.files id (log_bytes z ws);
    active_id = id;
    index = (walk z (replay_record id) 0 ws (s.index, s.dead_bytes)).0;
    dead_bytes = (walk z (replay_record id) 0 ws (s.index, s.dead_bytes)).1;
  }

  replayed-StorePoints :
      (s : Bitcask) (id : ℕ) (ws : List Write) (map : Key → Option (List ℕ))
      → s.active_id < id
      → All CanWrite ws
      → StorePoints z s map
      → StorePoints z (replayed s id ws) (map_of ws map)
  replayed-StorePoints s id ws map above can points =
      walk-AllPoint z (set_file s.files id (log_bytes z ws)) id (log_bytes z ws)
        (set_file-here s.files id (log_bytes z ws)) ws 0 (s.index, s.dead_bytes) map can
        (record { left = refl }) (omega arith)
        (λ key.
          PointsAt-Grows z s.files (set_file s.files id (log_bytes z ws)) s.active_id id
            (above-Grows s.files s.active_id id (log_bytes z ws) above) (omega (arith, above)) key
            (s.index key) (map key) (points key))

  replay_files-Holds :
      (files : List (ℕ × List ℕ)) (ws : List Write) (s : Bitcask) (map : Key → Option (List ℕ))
      → AreFiles z s.active_id files ws
      → StorePoints z s map
      → (0 < length files) ⊎ ((active : List ℕ) × (s.files s.active_id ≡ some active))
      → (s' : Bitcask) × (replay_files z hints files s ≡ some (ok s')) × Holds z s' (map_of ws map)
  unfolding replay_files
  replay_files-Holds [] ws s map none_left points (inl some_file) = absurd (omega arith)
  replay_files-Holds [] ws s map none_left points (inr (active, opened)) = (
    s,
    refl,
    record {
      active = active;
      opened = opened;
      points = subst (λ (vs : List Write). StorePoints z s (map_of vs map)) (sym none_left) points;
    },
  )
  replay_files-Holds ((id, content) ∷ files) ws s map (mine, later, above, file, rest, same) points
        opened =
      let s1 = replayed s id mine in
      let (s', ran, held) =
        replay_files-Holds files later s1 (map_of mine map) rest
          (replayed-StorePoints s id mine map above file.can points)
          (inr (log_bytes z mine, set_file-here s.files id (log_bytes z mine))) in
      (
        s',
        ap (with_file s id (replay_files z hints files)) (
              replay_one-NoHints z hints id content (is_last files) (s.index, s.dead_bytes) no_hints
              ∙ replay_file-IsFile z id content (is_last files) mine (s.index, s.dead_bytes) file)
            ∙ ran,
        subst (λ (m : Key → Option (List ℕ)). Holds z s' m)
            (sym (map_of-append mine later map)
              ∙ ap (λ (vs : List Write). map_of vs map) (sym same))
            held,
      )

  -- Data files of whole records in order of their ids, the last one torn perhaps at its end, where hints
  -- are ignored or there are none, are replayed without an error, and the store holds the map that all their writes make in their order:
  -- a later value over an earlier one, and no key that was removed last.
  pub recover-Holds :
      (files : List (ℕ × List ℕ)) (ws : List Write)
      → 0 < length files
      → AreFiles z 0 files ws
      → (s : Bitcask) × (recover z hints files ≡ some (ok s)) × Holds z s (map_of ws (λ key. none))
  unfolding recover
  recover-Holds [] ws some_file are = absurd (omega arith)
  recover-Holds (file ∷ files) ws some_file are =
      replay_files-Holds (file ∷ files) ws
        (record { files = λ id. none; active_id = 0; index = λ key. none; dead_bytes = λ id. 0 })
        (λ key. none) are (λ key. tt) (inl some_file)
