-- ===== src/Tests/Picking.antt =====
-- The picking of a compaction at concrete trees.
use lsm_tree_storage_engine.Prelude.{
  ℕ, [], ◌<◌, ◌∷◌, All, ◌⊎◌, refl, false, true, ◌≤◌, some, ◌≡◌, none, length, arith, get_or,
}
use lsm_tree_storage_engine.Compaction.{
  LsmOptions, LsmStore, Compaction, pick_compaction, choose, touching, level_budget,
  choose_over_budget, choose_forced, plan, widen_begin, anything_below, widen_end,
  can_drop_tombstones, no_level_touching, none_touching,
}
use lsm_tree_storage_engine.Manifest.{tables_bytes, TableMeta}
use lsm_tree_storage_engine.Key.{key_lt, Key}
use lsm_tree_storage_engine.Compaction.Idle.{pick_compaction-forced_idle, pick_compaction-idle}
use lsm_tree_storage_engine.Compaction.Cover.{Covers, pick_compaction-Covers}
use lsm_tree_storage_engine.Compaction.Choice.{
  pick_compaction-drops, pick_compaction-closed, Outside,
}
use lsm_tree_storage_engine.Compaction.Touch.{IsDisjoint}

abbrev key_of : ℕ → Key
key_of n = n ∷ []

abbrev table_of : ℕ → ℕ → ℕ → ℕ → TableMeta
table_of id size low high = record {
  id = id;
  file_size = size;
  entry_count = 2;
  min_key = key_of low;
  max_key = key_of high;
}

abbrev small_options : LsmOptions
small_options = record {
  l0_compaction_trigger = 2;
  level_base_bytes = 100;
  level_multiplier = 10;
  max_levels = 4;
}

-- L0 is over its trigger, and the table from 4 to 9 is all that it touches below.
abbrev busy_store : LsmStore
busy_store = record {
  options = small_options;
  levels =
      (table_of 4 30 5 6 ∷ table_of 3 30 2 6 ∷ [])
      ∷ (table_of 1 50 0 1 ∷ table_of 2 50 4 9 ∷ [])
      ∷ [];
  compact_pointer = [];
}

abbrev busy_work : Compaction
busy_work = record {
  level = 0;
  inputs = table_of 4 30 5 6 ∷ table_of 3 30 2 6 ∷ [];
  overlaps = table_of 2 50 4 9 ∷ [];
  begin = key_of 2;
  end = key_of 9;
  drop_tombstones = true;
}

busy_picked : pick_compaction busy_store false ≡ some busy_work
unfolding pick_compaction choose plan touching widen_begin widen_end can_drop_tombstones
    no_level_touching key_lt
busy_picked = refl

busy-IsDisjoint : IsDisjoint (table_of 1 50 0 1 ∷ table_of 2 50 4 9 ∷ [])
unfolding key_lt
busy-IsDisjoint = (refl, (refl, tt), (refl, tt, tt))

pick_compaction-closed_example :
    touching (key_of 2) (key_of 9) (table_of 1 50 0 1 ∷ table_of 2 50 4 9 ∷ [])
    ≡ table_of 2 50 4 9 ∷ []
pick_compaction-closed_example =
    pick_compaction-closed busy_store false busy_work busy_picked busy-IsDisjoint

-- The picked range from 2 to 9 lies above the deeper table from 0 to 1 and below the one from 10 to 12.
abbrev deep_store : LsmStore
deep_store = record {
  options = small_options;
  levels =
      (table_of 4 30 5 6 ∷ table_of 3 30 2 6 ∷ [])
      ∷ (table_of 2 50 4 9 ∷ [])
      ∷ (table_of 1 50 0 1 ∷ table_of 5 50 10 12 ∷ [])
      ∷ [];
  compact_pointer = [];
}

deep_picked : pick_compaction deep_store false ≡ some busy_work
unfolding pick_compaction choose plan touching widen_begin widen_end can_drop_tombstones
    no_level_touching none_touching key_lt
deep_picked = refl

nine_inside : key_lt (key_of 9) (key_of 2) ≡ false
unfolding key_lt
nine_inside = refl

nine_last : key_lt (key_of 9) (key_of 9) ≡ false
unfolding key_lt
nine_last = refl

pick_compaction-drops_example : All (Outside (key_of 9)) (get_or deep_store.levels 2 [])
pick_compaction-drops_example =
    pick_compaction-drops deep_store false busy_work 2 (key_of 9) deep_picked refl (omega arith)
      nine_inside nine_last

pick_compaction-Covers_example :
    All (Covers (key_of 2) (key_of 9)) busy_work.inputs
    × All (Covers (key_of 2) (key_of 9)) busy_work.overlaps
pick_compaction-Covers_example = pick_compaction-Covers busy_store false busy_work busy_picked

abbrev idle_store : LsmStore
idle_store = record {
  options = small_options;
  levels = [] ∷ (table_of 1 50 0 1 ∷ table_of 2 50 4 9 ∷ []) ∷ [];
  compact_pointer = [];
}

idle_none : pick_compaction idle_store false ≡ none
unfolding pick_compaction choose choose_over_budget level_budget tables_bytes
idle_none = refl

pick_compaction-idle_example :
    (length (get_or idle_store.levels 0 []) < 2)
    × (tables_bytes 0 (get_or idle_store.levels 1 []) ≤ level_budget small_options 1)
pick_compaction-idle_example =
    pick_compaction-idle idle_store 1 idle_none (omega arith) (omega arith) (omega arith)

forced_none : pick_compaction idle_store true ≡ none
unfolding pick_compaction choose choose_forced anything_below
forced_none = refl

pick_compaction-forced_idle_example :
    (get_or idle_store.levels 0 [] ≡ []) ⊎ (get_or idle_store.levels 1 [] ≡ [])
pick_compaction-forced_idle_example =
    pick_compaction-forced_idle idle_store 0 1 forced_none (omega arith)
