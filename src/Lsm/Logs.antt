-- ===== src/Lsm/Logs.antt =====
-- src/lsm.cpp and src/wal.cpp: the logs that recovery replays, and the memtable that they make.
use lsm_tree_storage_engine.Prelude.{
  ℕ, List, [], ◌∷◌, ◌++◌, All, refl, Option, ◌∙◌, some, ◌≡◌, sym, false, ap, Bool, ok, true, none,
  if◌then◌else◌,
}
use lsm_tree_storage_engine.Crc.{Zlib}
use lsm_tree_storage_engine.Key.{Key, key_eq}
use lsm_tree_storage_engine.Memtable.{Memtable, MemEntry, empty_table}
use lsm_tree_storage_engine.Memtable.Laws.{get-put, get-remove}
use lsm_tree_storage_engine.SortedMap.{find}
use lsm_tree_storage_engine.LogScan.Torn.{Write, CanWrite}
use lsm_tree_storage_engine.LogScan.Walk.{IsTorn}
use lsm_tree_storage_engine.Wal.{replay_into}
use lsm_tree_storage_engine.Wal.Recovery.{apply, apply_all, append_all, replay_into-append_all}
use lsm_tree_storage_engine.Lsm.Tables.{or_older}
use lsm_tree_storage_engine.Lsm.Flushed.{or_older_assoc}
use lsm_tree_storage_engine.Lsm.Opening.{replay_logs, replay_on}
use lsm_tree_storage_engine.Lsm.Writes.{or_older-if}
use lsm_tree_storage_engine.Memtable

-- A log of whole records with the front of one more behind it.
pub record IsLog (z : Zlib) (log : List ℕ) (ws : List Write) : Type 0 where
  pub torn : List ℕ
  pub bytes : log ≡ append_all z ws [] ++ torn
  pub can : All CanWrite ws
  pub is_torn : IsTorn z torn

abbrev pub AreLogs : Zlib → List (ℕ × List ℕ) → List Write → Type 0
AreLogs z [] ws = ws ≡ []
AreLogs z ((id, log) ∷ logs) ws =
    (mine : List Write) × (later : List Write) × IsLog z log mine
    × AreLogs z logs later
    × (ws ≡ mine ++ later)

pub apply_all-append :
    (ws vs : List Write) (m : Memtable) → apply_all (ws ++ vs) m ≡ apply_all vs (apply_all ws m)
apply_all-append [] vs m = refl
apply_all-append (w ∷ ws) vs m = apply_all-append ws vs (apply w m)

pub replay_logs-AreLogs :
    (z : Zlib) (logs : List (ℕ × List ℕ)) (ws : List Write) (m : Memtable)
    → AreLogs z logs ws
    → replay_logs z logs m ≡ some (ok (apply_all ws m))
unfolding replay_logs
replay_logs-AreLogs z [] ws m h = ap (λ (vs : List Write). some (ok (apply_all vs m))) (sym h)
replay_logs-AreLogs z ((id, log) ∷ logs) ws m (mine, later, is_log, rest, same) =
    ap (replay_on (replay_logs z logs)) (
      ap (λ (f : List ℕ). replay_into z f m) is_log.bytes
      ∙ replay_into-append_all z mine is_log.torn m is_log.can is_log.is_torn)
    ∙ replay_logs-AreLogs z logs later (apply_all mine m) rest
    ∙ ap (λ (m : Memtable). some (ok m)) (sym (apply_all-append mine later m))
    ∙ ap (λ (vs : List Write). some (ok (apply_all vs m))) (sym same)

abbrev entry_of_write : Write → MemEntry
entry_of_write w = record { value = if w.tombstone then [] else w.value; tombstone = w.tombstone }

get-apply :
    (w : Write) (m : Memtable) (k : Key)
    → Memtable.get (apply w m) k
      ≡ (if key_eq w.key k then some (entry_of_write w) else Memtable.get m k)
get-apply w m k = by_kind w.tombstone
  where
    by_kind :
        (t : Bool)
        → Memtable.get (if t then Memtable.remove m w.key else Memtable.put m w.key w.value) k ≡ (
            if key_eq w.key k
            then some (record { value = if t then [] else w.value; tombstone = t })
            else Memtable.get m k)
    by_kind true = get-remove m w.key k
    by_kind false = get-put m w.key k w.value

-- What a memtable has after writes, over what it had before.
pub get-apply_all :
    (ws : List Write) (m : Memtable) (k : Key)
    → Memtable.get (apply_all ws m) k
      ≡ or_older (Memtable.get (apply_all ws empty_table) k) (Memtable.get m k)
unfolding Memtable.get find
get-apply_all [] m k = ap (λ (o : Option MemEntry). or_older o (find k m.entries)) (sym nothing)
  where
    nothing : find k empty_table.entries ≡ none
    nothing = refl
get-apply_all (w ∷ ws) m k =
    get-apply_all ws (apply w m) k
    ∙ ap (or_older (Memtable.get (apply_all ws empty_table) k)) (
        get-apply w m k
        ∙ sym (or_older-if (key_eq w.key k) (entry_of_write w) none (Memtable.get m k)))
    ∙ sym (
        or_older_assoc (Memtable.get (apply_all ws empty_table) k)
          (if key_eq w.key k then some (entry_of_write w) else none) (Memtable.get m k))
    ∙ ap (λ (o : Option MemEntry). or_older o (Memtable.get m k))
        (ap (or_older (Memtable.get (apply_all ws empty_table) k)) (sym (get-apply w empty_table k))
          ∙ sym (get-apply_all ws (apply w empty_table) k))
