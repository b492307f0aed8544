-- ===== src/Lsm/Reopened.antt =====
-- The reads of a store, before a crash and after the recovery.
use lsm_tree_storage_engine.Prelude.{
  ℕ, List, ◌&&◌, ◌<◌, bind-ok, [], not, leb, ◌∷◌, ◌++◌, All, refl, ==_refl, Option, ◌∙◌, some,
  reject-pass, ◌≡◌, sym, false, ap, arith, ok, true, none, if◌then◌else◌, drop, ltb, inl, ◌+◌, ◌^◌,
  ◌==◌, length, inr, ◌%◌, Bool-cases, ◌≤◌,
}
use lsm_tree_storage_engine.Crc.{Zlib}
use lsm_tree_storage_engine.Key.{Key, key_eq_refl}
use lsm_tree_storage_engine.Memtable.{Memtable, MemEntry, empty_table}
use lsm_tree_storage_engine.Manifest.Layout.{CanStore}
use lsm_tree_storage_engine.Manifest.RoundTrip.{decode-encode_levels}
use lsm_tree_storage_engine.SortedMap.{find}
use lsm_tree_storage_engine.LogScan.Torn.{Write}
use lsm_tree_storage_engine.Wal.Recovery.{apply_all}
use lsm_tree_storage_engine.SsTable.Table.{SsTable, load}
use lsm_tree_storage_engine.Lsm.{
  no_fail_point, get, StoreOptions, Levels, Store, publish, get_frozen,
}
use lsm_tree_storage_engine.Lsm.Flushing.{
  level_set_of, commit_manifest, metas_of, level_metas, meta_of, holds_nothing, push_front,
}
use lsm_tree_storage_engine.Lsm.Tables.{or_older, LevelsHold, AllDisjoint, newest_in}
use lsm_tree_storage_engine.Lsm.Flushed.{
  or_older_assoc, get-same_view, push_rows, push_front-LevelsHold, push_front-AllDisjoint,
  newest_in-push_rows,
}
use lsm_tree_storage_engine.Lsm.Logs.{AreLogs, apply_all-append, replay_logs-AreLogs, get-apply_all}
use lsm_tree_storage_engine.Lsm.Opening.{
  Directory, open_table, agrees, open_tables, open_levels, open_from_manifest, open_levels_of,
  install_replayed, raise_next_id, recover, log_ids, recover_on, opened_store, recover_logs,
  install_on, max_manifest_size, read_manifest,
}
use lsm_tree_storage_engine.Merge.Pick.{Table}
use lsm_tree_storage_engine.Lsm.View.{Sound, view}
use lsm_tree_storage_engine.Lsm.Built.{CanFlush, build_table_unlocked-HoldsRows}
use lsm_tree_storage_engine.Memtable

-- The manifest has a size that `manifest::read` takes.
abbrev pub IsReadable : List ℕ → Type 0
IsReadable manifest = (20 ≤ length manifest) × (length manifest ≤ max_manifest_size)

-- The table's file is in the directory under its id, and is opened as the table.
pub record InDirectory (z : Zlib) (options : StoreOptions) (dir : Directory) (next_id : ℕ)
    (t : SsTable) : Type 0 where
  pub file : dir.table_file t.id ≡ ok t.file
  pub loads : load z t.id options.mapped options.bloom_enabled t.file ≡ ok t
  pub fresh : t.id < next_id

module _ (z : Zlib) (options : StoreOptions) (dir : Directory) (next_id : ℕ) where
  agrees-meta_of : (t : SsTable) → not (agrees t (meta_of t)) ≡ false
  agrees-meta_of t = λ i.
      not (==_refl t.footer.entry_count i && (key_eq_refl t.min_key i && key_eq_refl t.max_key i))

  open_tables-metas_of :
      (ts : List SsTable)
      → All (InDirectory z options dir next_id) ts
      → open_tables z options dir next_id (metas_of ts) ≡ ok ts
  unfolding open_tables open_table
  open_tables-metas_of [] h = refl
  open_tables-metas_of (t ∷ ts) h = reject-pass (leb next_id t.id) _ _ (ground (arith, h.0.fresh)) (
      bind-ok _ _ (bind-ok _ _ h.0.file h.0.loads)
        (reject-pass _ _ _ (agrees-meta_of t) (bind-ok _ _ (open_tables-metas_of ts h.1) refl)))

  open_levels-level_metas :
      (levels : Levels)
      → All (All (InDirectory z options dir next_id)) levels
      → open_levels z options dir next_id (level_metas levels) ≡ ok levels
  unfolding open_levels
  open_levels-level_metas [] h = refl
  open_levels-level_metas (level ∷ levels) h =
      bind-ok _ _ (open_tables-metas_of level h.0)
        (bind-ok _ _ (open_levels-level_metas levels h.1) refl)

  -- The manifest that a level set commits opens the same tables at the same levels, where each table's
  -- file is in the directory, was loaded as that table and has an id below the counter, the numbers fit
  -- the manifest's fields and the manifest is of a size that is read.
  pub open_levels_of-commit_manifest :
      (levels : Levels)
      → All (All (InDirectory z options dir next_id)) levels
      → CanStore (level_set_of levels next_id)
      → IsReadable (commit_manifest z levels next_id)
      → open_levels_of z options dir (some (commit_manifest z levels next_id))
        ≡ ok (next_id, levels)
  unfolding open_levels_of read_manifest commit_manifest open_from_manifest level_set_of
  open_levels_of-commit_manifest levels h can readable =
      bind-ok _ _
        (reject-pass _ _ _ (ground (arith, readable.0, readable.1))
          (decode-encode_levels z (level_set_of levels next_id) can))
        (bind-ok _ _ (open_levels-level_metas levels h) refl)

-- What a directory holds for a store: a manifest of its levels that can be read back, their tables' files, and logs of the
-- writes of both memtables.
pub record Durable (z : Zlib) (options : StoreOptions) (dir : Directory) (s : Store)
    (rows : List (List Table)) : Type 0 where
  pub sound : Sound z s rows
  pub next_id : ℕ
  pub manifest : dir.manifest ≡ some (commit_manifest z s.levels next_id)
  pub tables : All (All (InDirectory z options dir next_id)) s.levels
  pub writable : CanStore (level_set_of s.levels next_id)
  pub readable : IsReadable (commit_manifest z s.levels next_id)
  pub frozen : List Write
  pub live : List Write
  pub logs : AreLogs z dir.logs (frozen ++ live)
  pub ids : All (λ (id : ℕ). id < 4294967295) (log_ids dir.logs)
  pub same_imm : (k : Key) → get_frozen s.imm k ≡ Memtable.get (apply_all frozen empty_table) k
  pub same_mem : s.mem ≡ apply_all live empty_table
  pub fits : CanFlush (apply_all (frozen ++ live) empty_table)

raise_next_id-ok :
    (next_id : ℕ) (ids : List ℕ)
    → All (λ (id : ℕ). id < 4294967295) ids
    → (n : ℕ) × (raise_next_id next_id ids ≡ ok n)
unfolding raise_next_id
raise_next_id-ok next_id [] h = (next_id, refl)
raise_next_id-ok next_id (id ∷ ids) h =
    let (n, raised) = raise_next_id-ok (if ltb next_id (id + 1) then id + 1 else next_id) ids h.1 in
    (n, reject-pass (id == 4294967295) _ _ (ground (arith, h.0)) raised)

holds_nothing-get : (m : Memtable) (k : Key) → holds_nothing m ≡ true → Memtable.get m k ≡ none
unfolding Memtable.get find
holds_nothing-get m k h = by_entries m.entries h
  where
    by_entries : (rows : Table) → (length rows == 0) ≡ true → find k rows ≡ none
    by_entries [] e = refl
    by_entries (row ∷ rows) e = absurd (ground (arith, e))

module _ (z : Zlib) (lround_ln2 : ℕ → ℕ) (options : StoreOptions) (dir : Directory)
    (sized : 0 < options.block_size) where
  -- What was replayed, over the tables.
  install_replayed-Sound :
      (next_id : ℕ) (levels : Levels) (rows : List (List Table)) (mem : Memtable)
      → LevelsHold z levels rows
      → AllDisjoint (drop 1 levels)
      → CanFlush mem
      → (s' : Store) × (rows' : List (List Table)) × (install_replayed z lround_ln2 options dir
            next_id levels mem
          ≡ ok s')
        × Sound z s' rows'
        × ((k : Key) → view s' rows' k ≡ or_older (Memtable.get mem k) (newest_in k rows))
  unfolding install_replayed publish Memtable.get find
  install_replayed-Sound next_id levels rows mem hold disjoint can =
      elim (Bool-cases (holds_nothing mem)) [
        | inl empty ↦ (
          opened_store next_id levels (elim dir.manifest [
            | some manifest ↦ some manifest
            | none ↦ some (commit_manifest z levels next_id)
          ]),
          rows,
          rw empty refl,
          record { same = refl; hold = hold; disjoint = disjoint },
          λ k.
              ap (λ (o : Option MemEntry). or_older o (newest_in k rows))
                (sym (holds_nothing-get mem k empty)),
        )
        | inr some_entry ↦
            let after = (next_id + 1) % 2 ^ 32 in
            let (t, built, holds) =
              build_table_unlocked-HoldsRows z lround_ln2
                (record options { fail_at = no_fail_point }) sized mem next_id levels after refl
                can in
            (
              opened_store after (push_front t levels)
                  (some (commit_manifest z (push_front t levels) after)),
              push_rows mem.entries rows,
              rw some_entry (bind-ok _ _ built refl),
              record {
                same = refl;
                hold = push_front-LevelsHold z t mem.entries levels rows holds hold;
                disjoint = push_front-AllDisjoint t levels disjoint;
              },
              λ k. newest_in-push_rows k mem.entries rows,
            )
      ]

  -- Recovery after a crash, at any point between two appends or within one, from a directory that holds
  -- a store: its manifest, no larger than one that is read, its tables and the logs of both memtables, the last record of each log torn
  -- perhaps. It ends without an error, and every read is as it was before the crash, where the writes of
  -- the logs fit a table.
  pub recover-reads :
      (s : Store) (rows : List (List Table))
      → Durable z options dir s rows
      → (s' : Store) × (rows' : List (List Table)) × (recover z lround_ln2 options dir
          ≡ some (ok s'))
        × Sound z s' rows'
        × ((key : Key) → get z s' key ≡ get z s key)
  unfolding recover
  recover-reads s rows d =
      let mem = apply_all (d.frozen ++ d.live) empty_table in
      let opened =
        ap (open_levels_of z options dir) d.manifest
        ∙ open_levels_of-commit_manifest z options dir d.next_id s.levels d.tables d.writable
            d.readable in
      let (n, raised) = raise_next_id-ok d.next_id (log_ids dir.logs) d.ids in
      let (s', rows', installed, sound', reads) =
        install_replayed-Sound n s.levels rows mem d.sound.hold d.sound.disjoint d.fits in
      (
        s',
        rows',
        ap (recover_on z lround_ln2 options dir) opened
            ∙ ap (recover_logs z lround_ln2 options dir s.levels) raised
            ∙ ap (install_on (install_replayed z lround_ln2 options dir n s.levels))
                (replay_logs-AreLogs z dir.logs (d.frozen ++ d.live) empty_table d.logs)
            ∙ ap some installed,
        sound',
        λ key. get-same_view z s s' rows rows' key d.sound sound' (reads key ∙ whole key),
      )
    where
      whole :
          (k : Key)
          → or_older
              (Memtable.get (apply_all (d.frozen ++ d.live) empty_table) k)
              (newest_in k rows)
            ≡ view s rows k
      whole k =
          ap (λ (o : Option MemEntry). or_older o (newest_in k rows))
            (ap (λ (m : Memtable). Memtable.get m k) (apply_all-append d.frozen d.live empty_table)
              ∙ get-apply_all d.live (apply_all d.frozen empty_table) k
              ∙ λ i. or_older (Memtable.get (sym d.same_mem i) k) (sym (d.same_imm k) i))
          ∙ or_older_assoc (Memtable.get s.mem k) (get_frozen s.imm k) (newest_in k rows)
