-- ===== src/Lsm/Built.antt =====
-- A memtable written out as a table, and the table opened.
use mathlib.Core.Path.{subst}
use lsm_tree_storage_engine.Prelude.{
  ℕ, List, some, ◌^◌, ◌∙◌, inl, bind-ok, All, ap, ◌≤◌, ◌==◌, sym, false, ok, ◌<◌, reject-pass,
  arith, ◌∷◌, [], Bool, refl, ◌+◌, length, ◌≡◌, ◌*◌, if◌then◌else◌, none, ◌>>=◌,
}
use lsm_tree_storage_engine.Crc.{Zlib}
use lsm_tree_storage_engine.Key.{Key}
use lsm_tree_storage_engine.Memtable.{MemEntry, Memtable}
use lsm_tree_storage_engine.Merge.Pick.{Table}
use lsm_tree_storage_engine.SortedMap.{IsSorted}
use lsm_tree_storage_engine.SsTable.{BlockEntry, SsTableBuilder, create}
use lsm_tree_storage_engine.SsTable.Table.{SsTable, load, lookup}
use lsm_tree_storage_engine.SsTable.Blocks.{all_entries}
use lsm_tree_storage_engine.SsTable.Holds.{rows_of}
use lsm_tree_storage_engine.SsTable.Find.{answer}
use lsm_tree_storage_engine.SsTable.Adds.{CanStore, Grown, add_rows, add_rows-Grown}
use lsm_tree_storage_engine.SsTable.Layout.{all_rows-flat}
use lsm_tree_storage_engine.SsTable.Finish.{Finished, finish-Grown}
use lsm_tree_storage_engine.SsTable.Open.{load-Holds}
use lsm_tree_storage_engine.Lsm.{StoreOptions, Levels, no_fail_point}
use lsm_tree_storage_engine.Lsm.Flushing.{
  write_table, status_of, build_table_unlocked, push_front, commit_manifest, open_written,
  install_table, stops_written, stops_installed,
}
use lsm_tree_storage_engine.Lsm.Tables.{HoldsRows, lookup-HoldsRows}
use lsm_tree_storage_engine.Memtable
use lsm_tree_storage_engine.Bloom
use lsm_tree_storage_engine.Record

abbrev pub entry_of : Key × MemEntry → BlockEntry
entry_of (key, e) = record { key = key; value = e.value; tombstone = e.tombstone }

abbrev pub entries_of : Table → List BlockEntry
entries_of [] = []
entries_of (row ∷ m) = entry_of row ∷ entries_of m

rows_of-entries_of : (m : Table) → rows_of (entries_of m) ≡ m
rows_of-entries_of [] = refl
rows_of-entries_of ((key, e) ∷ m) = ap (λ (t : Table). (key, e) ∷ t) (rows_of-entries_of m)

-- A row that a table can take: `write_entry` lets no other in.
pub record IsStorable (row : Key × MemEntry) : Type 0 where
  pub has_key : 0 < length row.0
  pub small : 9 + length row.0 + length row.1.value ≤ Record.max_record_size
  pub clean : (if row.1.tombstone then [] else row.1.value) ≡ row.1.value

entries_of-CanStore : (m : Table) → All IsStorable m → All CanStore (entries_of m)
entries_of-CanStore [] can = tt
entries_of-CanStore ((key, e) ∷ m) can = (
  record {
    addable = record {
      has_key = can.0.has_key;
      key_u32 = omega (arith, can.0.small);
      value_u32 = omega (arith, can.0.small);
    };
    small = can.0.small;
    clean = can.0.clean;
  },
  entries_of-CanStore m can.1,
)

-- A memtable that a flush can write: in order, of rows a table takes, and below 2 GiB as entries.
pub record CanFlush (table : Memtable) : Type 0 where
  pub sorted : IsSorted table.entries
  pub storable : All IsStorable table.entries
  pub small : 2 * length (all_entries (entries_of table.entries)) + 8 < 2 ^ 32

module _ (z : Zlib) (lround_ln2 : ℕ → ℕ) (options : StoreOptions)
    (sized : 0 < options.block_size) where
  abbrev started : SsTableBuilder
  started = record {
    file = [];
    target_size = options.block_size;
    filter = Bloom.new_builder options.bits_per_key;
    block = [];
    block_last_key = [];
    last_key = [];
    has_last_key = false;
    entries = 0;
    index = [];
    finished = false;
  }

  create-started : create options.block_size options.bits_per_key ≡ ok started
  unfolding create
  create-started = reject-pass (options.block_size == 0) _ _ (ground (arith, sized)) refl

  started-Grown : Grown z [] started
  unfolding Bloom.new_builder
  started-Grown = record {
    cs = [];
    cur = [];
    built = record {
      file = refl;
      index = refl;
      block = refl;
      block_last = refl;
      hashes = refl;
      entries = refl;
      unfinished = refl;
      last = refl;
      has = inl refl;
      good = tt;
      can = tt;
    };
    same = refl;
  }

  write_table-Finished :
      (table : Memtable)
      → CanFlush table
      → (file : List ℕ) × (write_table z lround_ln2 options table ≡ ok file)
        × Finished z lround_ln2 (entries_of table.entries) file
  unfolding write_table
  write_table-Finished table can =
      let es = entries_of table.entries in
      let rows = rows_of-entries_of table.entries in
      let sorted : IsSorted (rows_of es) =
        subst (λ (m : Table). IsSorted m) (sym rows) can.sorted in
      let (b1, added, grown) =
        add_rows-Grown z started [] es started-Grown
          (entries_of-CanStore table.entries can.storable) sorted (omega (arith, can.small)) in
      let (b2, closed, finished) = finish-Grown z lround_ln2 es sorted can.small b1 grown in
      (
        b2.file,
        bind-ok _ _ create-started (
            bind-ok _ _
              (ap (λ (m : Table). status_of (add_rows z started m)) (sym rows) ∙ ap status_of added)
              (bind-ok _ _ (ap status_of closed) refl)),
        finished,
      )

  load-Finished :
      (m : Table) (id : ℕ) (mapped enabled : Bool) (file : List ℕ)
      → IsSorted m
      → Finished z lround_ln2 (entries_of m) file
      → (t : SsTable) × (load z id mapped enabled file ≡ ok t) × HoldsRows z t m
  load-Finished m id mapped enabled file sorted f =
      let rows = all_rows-flat f.cs ∙ ap rows_of f.same ∙ rows_of-entries_of m in
      let (t, ran, holds) =
        load-Holds z lround_ln2 f.cs f.bloom (entries_of m) f.good f.same
          (subst (λ (m : Table). IsSorted m) (sym rows) sorted) f.hashes f.index_small f.data_small
          f.count_small f.blocks_small id mapped enabled in
      (
        t,
        ap (load z id mapped enabled) f.file_eq ∙ ran,
        record { blocks = f.cs; holds = holds; same = rows },
      )

  -- A memtable in order, of rows a table takes and below 2 GiB as entries, is written out as a table
  -- without an error, for any block size but zero; the file is opened again, in either read mode and
  -- with the filter in use or not, and every lookup in it answers as the memtable does.
  pub lookup-write_table :
      (table : Memtable) (id : ℕ)
      → CanFlush table
      → (file : List ℕ) × (t : SsTable) × (write_table z lround_ln2 options table ≡ ok file)
        × (load z id options.mapped options.bloom_enabled file ≡ ok t)
        × ((key : Key) → lookup z t key ≡ ok (answer (Memtable.get table key)))
  unfolding Memtable.get
  lookup-write_table table id can =
      let (file, wrote, f) = write_table-Finished table can in
      let (t, ran, holds) =
        load-Finished table.entries id options.mapped options.bloom_enabled file can.sorted f in
      (file, t, wrote, ran, λ key. lookup-HoldsRows z key t table.entries holds)

  open_written-ok :
      (id : ℕ) (base : Levels) (next_id : ℕ) (file : List ℕ) (t : SsTable)
      → options.fail_at ≡ no_fail_point
      → load z id options.mapped options.bloom_enabled file ≡ ok t
      → open_written z options id base next_id file
        ≡ ok (push_front t base, some (commit_manifest z (push_front t base) next_id))
  open_written-ok id base next_id file t going ran =
      let opened = load z id options.mapped options.bloom_enabled file in
      ap
        (λ (c : Bool).
          if c
          then ok (base, none)
          else (opened >>= λ t. ok (install_table z options base next_id t)))
        (ap stops_written going)
      ∙ bind-ok _ _ ran (
          ap
            (λ (c : Bool). ok (
              if c
              then (base, none)
              else (push_front t base, some (commit_manifest z (push_front t base) next_id))))
            (ap stops_installed going))

  pub build_table_unlocked-HoldsRows :
      (table : Memtable) (id : ℕ) (base : Levels) (next_id : ℕ)
      → options.fail_at ≡ no_fail_point
      → CanFlush table
      → (t : SsTable) × (build_table_unlocked z lround_ln2 options table id base next_id
          ≡ ok (push_front t base, some (commit_manifest z (push_front t base) next_id)))
        × HoldsRows z t table.entries
  unfolding build_table_unlocked
  build_table_unlocked-HoldsRows table id base next_id going can =
      let (file, wrote, f) = write_table-Finished table can in
      let (t, ran, holds) =
        load-Finished table.entries id options.mapped options.bloom_enabled file can.sorted f in
      (
        t,
        bind-ok _ (open_written z options id base next_id) wrote
            (open_written-ok id base next_id file t going ran),
        holds,
      )
