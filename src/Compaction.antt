-- ===== src/Compaction.antt =====
-- src/lsm_compaction.cpp, up to `pick_compaction`: what a leveled compaction merges next. A table
-- stands here as what `pick_compaction` reads of it: its id, its size and its key range. `front()` of
-- an empty level, which the source does not define, is an empty range here.
pub mod Range
pub mod Touch
pub mod Choice
pub mod Idle
pub mod Cover
use lsm_tree_storage_engine.Prelude.{
  ℕ, not, zero, ◌∷◌, false, [], length, ◌^◌, none, ltb, ◌-◌, ◌||◌, some, ◌&&◌, true, ◌*◌, ◌+◌, Bool,
  List, ◌%◌, get_or, Option, drop, suc, if◌then◌else◌, leb,
}
use lsm_tree_storage_engine.Manifest.{TableMeta, tables_bytes}
use lsm_tree_storage_engine.Key.{Key, key_eq, key_lt}

-- The fields of `LsmOptions` that the picking reads.
pub record LsmOptions : Type 0 where
  pub l0_compaction_trigger : ℕ
  pub level_base_bytes : ℕ
  pub level_multiplier : ℕ
  pub max_levels : ℕ

pub record LsmStore : Type 0 where
  pub options : LsmOptions
  pub levels : List (List TableMeta)
  pub compact_pointer : List Key

pub record Compaction : Type 0 where
  pub level : ℕ
  pub inputs : List TableMeta
  pub overlaps : List TableMeta
  pub begin : Key
  pub end : Key
  pub drop_tombstones : Bool

abbrev pub ranges_overlap : Key → Key → Key → Key → Bool
ranges_overlap a_min a_max b_min b_max = not (key_lt a_max b_min || key_lt b_max a_min)

-- The loop of `level_budget`, in 64 bits.
unfoldable pub budget_loop : ℕ → ℕ → ℕ → ℕ
budget_loop zero multiplier budget = budget
budget_loop (suc n) multiplier budget = budget_loop n multiplier (budget * multiplier % 2 ^ 64)

unfoldable pub level_budget : LsmOptions → ℕ → ℕ
unfolding budget_loop
level_budget options level =
    budget_loop (level - 1) options.level_multiplier options.level_base_bytes

abbrev pub is_empty : List TableMeta → Bool
is_empty [] = true
is_empty (_ ∷ _) = false

-- The tables of a level that a range touches, in order.
unfoldable pub touching : Key → Key → List TableMeta → List TableMeta
touching begin end [] = []
touching begin end (table ∷ tables) =
    let rest = touching begin end tables in
    if ranges_overlap begin end table.min_key table.max_key then table ∷ rest else rest

unfoldable pub none_touching : Key → Key → List TableMeta → Bool
none_touching begin end [] = true
none_touching begin end (table ∷ tables) =
    let rest = none_touching begin end tables in
    if ranges_overlap begin end table.min_key table.max_key then false else rest

unfoldable pub no_level_touching : Key → Key → List (List TableMeta) → Bool
no_level_touching begin end [] = true
no_level_touching begin end (level ∷ levels) =
    none_touching begin end level && no_level_touching begin end levels

unfoldable pub can_drop_tombstones : List (List TableMeta) → ℕ → Key → Key → Bool
can_drop_tombstones levels output_level begin end =
    no_level_touching begin end (drop (output_level + 1) levels)

-- `std::any_of` over the deeper levels.
unfoldable pub anything_below : List (List TableMeta) → Bool
anything_below [] = false
anything_below (level ∷ deeper) = if is_empty level then anything_below deeper else true

-- The forced choice: the shallowest level with tables that has anything below, counted from `level`.
unfoldable pub choose_forced : ℕ → List (List TableMeta) → Option ℕ
choose_forced level [] = none
choose_forced level (tables ∷ deeper) =
    let rest = choose_forced (level + 1) deeper in
    if is_empty tables then rest else if anything_below deeper then some level else rest

-- The shallowest level over its budget.
unfoldable pub choose_over_budget : LsmOptions → ℕ → List (List TableMeta) → Option ℕ
choose_over_budget options level [] = none
choose_over_budget options level (tables ∷ deeper) =
    let rest = choose_over_budget options (level + 1) deeper in
    if ltb (level + 1) options.max_levels
    then (if not (is_empty tables) && ltb (level_budget options level) (tables_bytes 0 tables)
        then some level
        else rest)
    else none

-- The first table behind the pointer, or the one given.
unfoldable pub next_behind : Key → TableMeta → List TableMeta → TableMeta
next_behind pointer picked [] = picked
next_behind pointer picked (table ∷ tables) =
    let rest = next_behind pointer picked tables in
    if key_lt pointer table.min_key then table else rest

-- The table that a level over its budget gives.
unfoldable pub pick_table : List Key → ℕ → List TableMeta → List TableMeta
pick_table pointers chosen [] = []
pick_table pointers chosen (front ∷ tables) =
    let pointer = get_or pointers chosen [] in
    (if key_eq pointer [] then front else next_behind pointer front (front ∷ tables)) ∷ []

abbrev pub with_inputs : (ℕ → List TableMeta) → Option ℕ → Option (ℕ × List TableMeta)
with_inputs inputs none = none
with_inputs inputs (some chosen) = some (chosen, inputs chosen)

-- `!levels_.empty() && levels_[0].size() >= options_.l0_compaction_trigger`.
abbrev pub l0_due : LsmOptions → List (List TableMeta) → Bool
l0_due options [] = false
l0_due options (l0 ∷ _) = leb options.l0_compaction_trigger (length l0)

-- The level and the inputs.
unfoldable pub choose : LsmStore → Bool → Option (ℕ × List TableMeta)
choose s force =
    if force
    then with_inputs (λ chosen. get_or s.levels chosen []) (choose_forced 0 s.levels)
    else if l0_due s.options s.levels
    then some (0, get_or s.levels 0 [])
    else with_inputs (λ chosen. pick_table s.compact_pointer chosen (get_or s.levels chosen []))
        (choose_over_budget s.options 1 (drop 1 s.levels))

-- `std::min` and `std::max`.
abbrev pub key_min : Key → Key → Key
key_min a b = if key_lt b a then b else a

abbrev pub key_max : Key → Key → Key
key_max a b = if key_lt a b then b else a

-- A range, widened over tables.
unfoldable pub widen_begin : Key → List TableMeta → Key
widen_begin begin [] = begin
widen_begin begin (table ∷ tables) = widen_begin (key_min begin table.min_key) tables

unfoldable pub widen_end : Key → List TableMeta → Key
widen_end end [] = end
widen_end end (table ∷ tables) = widen_end (key_max end table.max_key) tables

abbrev pub front_min : List TableMeta → Key
front_min [] = []
front_min (table ∷ _) = table.min_key

abbrev pub front_max : List TableMeta → Key
front_max [] = []
front_max (table ∷ _) = table.max_key

-- What `pick_compaction` makes of the level and its inputs. A level below that is not there has no
-- tables.
unfoldable pub plan : List (List TableMeta) → ℕ → List TableMeta → Compaction
plan levels level inputs =
    let begin = widen_begin (front_min inputs) inputs in
    let end = widen_end (front_max inputs) inputs in
    let overlaps = touching begin end (get_or levels (level + 1) []) in
    let begin = widen_begin begin overlaps in
    let end = widen_end end overlaps in
    record {
      level = level;
      inputs = inputs;
      overlaps = overlaps;
      begin = begin;
      end = end;
      drop_tombstones = can_drop_tombstones levels (level + 1) begin end;
    }

abbrev pub plan_choice : List (List TableMeta) → Option (ℕ × List TableMeta) → Option Compaction
plan_choice levels none = none
plan_choice levels (some (level, inputs)) = some (plan levels level inputs)

unfoldable pub pick_compaction : LsmStore → Bool → Option Compaction
pick_compaction s force = plan_choice s.levels (choose s force)
