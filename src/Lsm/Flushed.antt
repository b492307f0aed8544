-- ===== src/Lsm/Flushed.antt =====
-- The reads of a store, before and after a flush.
use lsm_tree_storage_engine.Prelude.{
  ℕ, List, false, drop, sym, ok, Bool, Status, true, refl, ◌≡◌, Option, ◌||◌, ◌∙◌, ap, ◌<◌, [],
  none, ◌∷◌, some, arith, if◌then◌else◌,
}
use lsm_tree_storage_engine.Crc.{Zlib}
use lsm_tree_storage_engine.Key.{Key}
use lsm_tree_storage_engine.Memtable.{MemEntry, Memtable}
use lsm_tree_storage_engine.Merge.Pick.{Table, newest}
use lsm_tree_storage_engine.SortedMap.{find}
use lsm_tree_storage_engine.SsTable.Table.{SsTable}
use lsm_tree_storage_engine.Lsm.{
  StoreOptions, Store, Levels, no_fail_point, get, get_frozen, publish, LsmFailPoint,
}
use lsm_tree_storage_engine.Lsm.Flushing.{
  run_flush, push_front, commit_manifest, installed, stops_written, stops_installed,
  stops_committed,
}
use lsm_tree_storage_engine.Lsm.Tables.{
  HoldsRows, LevelsHold, AllDisjoint, or_older, newest_in, newest-cons, newest-nil,
}
use lsm_tree_storage_engine.Lsm.View.{Sound, view, read_of, get-newest}
use lsm_tree_storage_engine.Lsm.Built.{CanFlush, build_table_unlocked-HoldsRows}
use lsm_tree_storage_engine.Memtable

-- A table's rows, as the newest of the first level.
abbrev pub push_rows : Table → List (List Table) → List (List Table)
push_rows m [] = (m ∷ []) ∷ []
push_rows m (ms ∷ mss) = (m ∷ ms) ∷ mss

pub or_older_assoc :
    (a b c : Option MemEntry) → or_older (or_older a b) c ≡ or_older a (or_older b c)
or_older_assoc none b c = refl
or_older_assoc (some e) b c = refl

pub newest_in-push_rows :
    (k : Key) (m : Table) (mss : List (List Table))
    → newest_in k (push_rows m mss) ≡ or_older (find k m) (newest_in k mss)
newest_in-push_rows k m [] =
    ap (λ (o : Option MemEntry). or_older o none) (newest-cons k m [])
    ∙ or_older_assoc (find k m) (newest k []) none
    ∙ ap (λ (o : Option MemEntry). or_older (find k m) (or_older o none)) (newest-nil k)
newest_in-push_rows k m (ms ∷ mss) =
    ap (λ (o : Option MemEntry). or_older o (newest_in k mss)) (newest-cons k m ms)
    ∙ or_older_assoc (find k m) (newest k ms) (newest_in k mss)

pub push_front-LevelsHold :
    (z : Zlib) (t : SsTable) (m : Table) (levels : Levels) (mss : List (List Table))
    → HoldsRows z t m
    → LevelsHold z levels mss
    → LevelsHold z (push_front t levels) (push_rows m mss)
unfolding push_front
push_front-LevelsHold z t m [] [] holds h = ((holds, tt), tt)
push_front-LevelsHold z t m [] (ms ∷ mss) holds h = absurd h
push_front-LevelsHold z t m (level ∷ levels) [] holds h = absurd h
push_front-LevelsHold z t m (level ∷ levels) (ms ∷ mss) holds h = ((holds, h.0), h.1)

pub push_front-AllDisjoint :
    (t : SsTable) (levels : Levels)
    → AllDisjoint (drop 1 levels)
    → AllDisjoint (drop 1 (push_front t levels))
unfolding push_front
push_front-AllDisjoint t [] d = tt
push_front-AllDisjoint t (level ∷ levels) d = d

-- Stores that hold the same entries answer alike.
pub get-same_view :
    (z : Zlib) (s s' : Store) (rows rows' : List (List Table)) (key : Key)
    → Sound z s rows
    → Sound z s' rows'
    → view s' rows' key ≡ view s rows key
    → get z s' key ≡ get z s key
unfolding get
get-same_view z s s' rows rows' [] sound sound' same = refl
get-same_view z s s' rows rows' (x ∷ key) sound sound' same =
    get-newest z s' rows' (x ∷ key) sound' (omega arith)
    ∙ ap read_of same
    ∙ sym (get-newest z s rows (x ∷ key) sound (omega arith))

-- What a flush leaves of a store whose frozen memtable became a table.
pub record Flushed (z : Zlib) (s : Store) (rows : List (List Table)) (table : Memtable) (s' : Store)
    : Type 0 where
  pub sound : Sound z s' (push_rows table.entries rows)
  pub thawed : s'.imm ≡ none
  pub retired : s'.imm_wal ≡ none
  pub named : s'.manifest ≡ some (commit_manifest z s'.levels s.next_id)
  pub grown : (t : SsTable) × (s'.levels ≡ push_front t s.levels)
  pub unasked : s'.compact_requested ≡ s.compact_requested
  pub same_mem : s'.mem ≡ s.mem
  pub same_wal : s'.wal ≡ s.wal
  pub going :
      (s'.background_status ≡ s.background_status)
      × (s'.stopping ≡ s.stopping)
      × (s'.halted_by_fail_point ≡ s.halted_by_fail_point)
  pub reads : (key : Key) → view s' (push_rows table.entries rows) key ≡ view s rows key

module _ (z : Zlib) (lround_ln2 : ℕ → ℕ) (options : StoreOptions) (sized : 0 < options.block_size)
    (alive : options.fail_at ≡ no_fail_point) where
  abbrev with_table : Store → SsTable → Store
  with_table s t = record s {
    levels = push_front t s.levels;
    current = push_front t s.levels;
    manifest = some (commit_manifest z (push_front t s.levels) s.next_id);
    imm = none;
    imm_wal = none;
  }

  installed-with_table :
      (s : Store) (t : SsTable)
      → installed options s
          (ok (push_front t s.levels, some (commit_manifest z (push_front t s.levels) s.next_id)))
        ≡ ((with_table s t, ok tt), true)
  unfolding publish
  installed-with_table s t = ap (λ (f : LsmFailPoint). by_fail_point f) alive
    where
      by_fail_point : LsmFailPoint → (Store × Status) × Bool
      by_fail_point f =
          if stops_written f || stops_installed f
          then ((s, ok tt), false)
          else if stops_committed f
          then (
            (
              record s {
                levels = push_front t s.levels;
                current = push_front t s.levels;
                manifest = some (commit_manifest z (push_front t s.levels) s.next_id);
              },
              ok tt,
            ),
            false,
          )
          else ((with_table s t, ok tt), true)

  pub run_flush-Flushed :
      (s : Store) (rows : List (List Table)) (table : Memtable)
      → Sound z s rows
      → s.imm ≡ some table
      → CanFlush table
      → (s' : Store) × (run_flush z lround_ln2 options s table ≡ ((s', ok tt), true))
        × Flushed z s rows table s'
  unfolding run_flush Memtable.get
  run_flush-Flushed s rows table sound frozen can =
      let (t, built, holds) =
        build_table_unlocked-HoldsRows z lround_ln2 options sized table s.imm_table_id s.levels
          s.next_id alive can in
      (
        with_table s t,
        ap (installed options s) built ∙ installed-with_table s t,
        record {
          sound = record {
            same = refl;
            hold = push_front-LevelsHold z t table.entries s.levels rows holds sound.hold;
            disjoint = push_front-AllDisjoint t s.levels sound.disjoint;
          };
          thawed = refl;
          retired = refl;
          named = refl;
          grown = (t, refl);
          unasked = refl;
          same_mem = refl;
          same_wal = refl;
          going = (refl, refl, refl);
          reads = λ key. ap (or_older (Memtable.get s.mem key)) (
              newest_in-push_rows key table.entries rows
              ∙ ap (λ (imm : Option Memtable). or_older (get_frozen imm key) (newest_in key rows))
                  (sym frozen));
        },
      )
