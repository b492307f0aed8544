-- ===== src/Bitcask/Replay.antt =====
-- src/bitcask.cpp: `recover` over the data files in order of their ids, with the hints beside them. What is
-- swept from the directory is not modelled.
use lsm_tree_storage_engine.Prelude.{
  ℕ, List, [], Status, none, not, ◌∷◌, ok, some, false, true, corruption, Result, take, ◌==◌,
  Option, Bool, length, err, if◌then◌else◌, ◌&&◌,
}
use lsm_tree_storage_engine.Crc.{Zlib}
use lsm_tree_storage_engine.LogScan.{file_of, scan_records}
use lsm_tree_storage_engine.Record.{Record}
use lsm_tree_storage_engine.Bitcask.Hints.{replay_hint}
use lsm_tree_storage_engine.Bitcask.{
  Replay, ValuePointer, index_put, index_erase, Bitcask, set_file, mark_dead, mark_displaced,
}

-- The visitor of `replay_file`.
unfoldable pub replay_record : ℕ → ℕ → Record → List ℕ → Replay → Replay × Status
replay_record id offset rec raw (index, dead) =
    let displaced = mark_displaced dead (index rec.key) in
    let pointer : ValuePointer = record {
      offset = offset;
      timestamp = rec.timestamp;
      file_id = id;
      size = rec.total_size;
    } in
    (
      if rec.is_tombstone
          then (index_erase index rec.key, mark_dead displaced id rec.total_size)
          else (index_put index rec.key pointer, displaced),
      ok tt,
    )

-- What a scan's end means: the file as it is, a torn end cut off, or damage.
abbrev pub judged : List ℕ → Bool → Replay × Result ℕ → Replay × Result (List ℕ)
judged content is_active (replay, err code) = (replay, err code)
judged content is_active (replay, ok good_end) = (
  replay,
  if good_end == length content
      then ok content
      else if not is_active
      then err corruption
      else ok (take good_end content),
)

abbrev pub judged_all :
    List ℕ → Bool → Option (Replay × Result ℕ) → Option (Replay × Result (List ℕ))
judged_all content is_active none = none
judged_all content is_active (some r) = some (judged content is_active r)

-- `replay_file`: the index, and the file as it is left; `none` is a scan out of fuel.
unfoldable pub replay_file : Zlib → ℕ → List ℕ → Bool → Replay → Option (Replay × Result (List ℕ))
replay_file z id content is_active replay =
    judged_all content is_active (scan_records z (file_of content) (replay_record id) replay)

-- The store with one more file replayed.
abbrev pub with_file :
    Bitcask
    → ℕ
    → (Bitcask → Option (Result Bitcask))
    → Option (Replay × Result (List ℕ))
    → Option (Result Bitcask)
with_file s id next none = none
with_file s id next (some (replay, err code)) = some (err code)
with_file s id next (some (replay, ok content)) = next (record {
  files = set_file s.files id content;
  active_id = id;
  index = replay.0;
  dead_bytes = replay.1;
})

abbrev pub is_last : List (ℕ × List ℕ) → Bool
is_last [] = true
is_last (_ ∷ _) = false

-- The hint files by id, and `options_.ignore_hints`.
pub record HintFiles : Type 0 where
  pub ignored : Bool
  pub hint_file : ℕ → Option (List ℕ)

-- `replay_hint` where there is a hint; `false` is a hint that was not used.
abbrev pub ask_hint : Zlib → Option (List ℕ) → ℕ → List ℕ → Replay → Option (Replay × Bool)
ask_hint z none id content replay = some (replay, false)
ask_hint z (some hint) id content replay = replay_hint z id hint (length content) replay

-- A file whose hint was used is not scanned.
abbrev pub or_scan :
    List ℕ
    → (Replay → Option (Replay × Result (List ℕ)))
    → Option (Replay × Bool)
    → Option (Replay × Result (List ℕ))
or_scan content scan none = none
or_scan content scan (some (replay, true)) = some (replay, ok content)
or_scan content scan (some (replay, false)) = scan replay

-- One file of the loop of `recover`: never by a hint if it is the active one.
unfoldable pub replay_one :
    Zlib → HintFiles → ℕ → List ℕ → Bool → Replay → Option (Replay × Result (List ℕ))
replay_one z hints id content is_active replay =
    or_scan content (replay_file z id content is_active) (
      if not is_active && not hints.ignored
      then ask_hint z (hints.hint_file id) id content replay
      else some (replay, false))

unfoldable pub replay_files :
    Zlib → HintFiles → List (ℕ × List ℕ) → Bitcask → Option (Result Bitcask)
replay_files z hints [] s = some (ok s)
replay_files z hints ((id, content) ∷ files) s =
    with_file s id (replay_files z hints files)
      (replay_one z hints id content (is_last files) (s.index, s.dead_bytes))

-- A directory without files is a fresh database.
abbrev pub or_fresh : List (ℕ × List ℕ) → List (ℕ × List ℕ)
or_fresh [] = (1, []) ∷ []
or_fresh (file ∷ files) = file ∷ files

unfoldable pub recover : Zlib → HintFiles → List (ℕ × List ℕ) → Option (Result Bitcask)
recover z hints files =
    replay_files z hints (or_fresh files)
      (record { files = λ id. none; active_id = 0; index = λ key. none; dead_bytes = λ id. 0 })
