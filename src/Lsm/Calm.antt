-- ===== src/Lsm/Calm.antt =====
-- src/lsm.cpp, `needs_compaction`: stores of which no compaction is due.
use lsm_tree_storage_engine.Prelude.{
  ℕ, List, Option, ◌||◌, ◌<◌, ◌≤◌, ◌+◌, ◌∙◌, ◌≡◌, none, some, refl, false, arith, ap, if◌then◌else◌,
  not, ◌&&◌, Bool, length, drop, get_or, [], ◌∷◌,
}
use lsm_tree_storage_engine.Manifest.{TableMeta}
use lsm_tree_storage_engine.SsTable.Table.{SsTable}
use lsm_tree_storage_engine.Compaction.{
  LsmOptions, pick_compaction, choose, choose_over_budget, l0_due, with_inputs, plan_choice,
  pick_table,
}
use lsm_tree_storage_engine.Lsm.{StoreOptions, Store, Levels, is_none}
use lsm_tree_storage_engine.Lsm.Flushing.{
  level_metas, push_front, needs_compaction, background_rest, is_idle,
}

-- No compaction is asked for, none is due, and none becomes due while `n` more tables come to level 0.
pub record IsCalm (options : StoreOptions) (n : ℕ) (s : Store) : Type 0 where
  pub unasked : s.compact_requested ≡ false
  pub below :
      length (get_or (level_metas s.levels) 0 []) + n < options.compaction.l0_compaction_trigger
  pub within : choose_over_budget options.compaction 1 (drop 1 (level_metas s.levels)) ≡ none

pub IsCalm-fewer :
    (options : StoreOptions) (n m : ℕ) (s : Store) → m ≤ n → IsCalm options n s → IsCalm options m s
IsCalm-fewer options n m s h calm = record {
  unasked = calm.unasked;
  below = omega (arith, h, calm.below);
  within = calm.within;
}

l0_due-below :
    (options : LsmOptions) (levels : List (List TableMeta))
    → length (get_or levels 0 []) < options.l0_compaction_trigger
    → l0_due options levels ≡ false
l0_due-below options [] h = refl
l0_due-below options (level ∷ levels) h = ground (arith, h)

module _ (options : StoreOptions) (n : ℕ) (s : Store) (calm : IsCalm options n s) where
  needs_compaction-IsCalm : needs_compaction options s ≡ false
  unfolding needs_compaction pick_compaction choose
  needs_compaction-IsCalm =
      let metas = level_metas s.levels in
      let quiet : l0_due options.compaction metas ≡ false =
        l0_due-below options.compaction metas (omega (arith, calm.below)) in
      (λ i. taken (quiet i)) ∙ ap deeper calm.within
    where
      deeper : Option ℕ → Bool
      deeper o = not (
          is_none (
            plan_choice (level_metas s.levels) (
              with_inputs
                (λ chosen.
                  pick_table s.compact_pointer chosen (get_or (level_metas s.levels) chosen []))
                o)))

      taken : Bool → Bool
      taken due = not (
          is_none (
            plan_choice (level_metas s.levels) (
              if due
              then some (0, get_or (level_metas s.levels) 0 [])
              else with_inputs
                  (λ chosen.
                    pick_table s.compact_pointer chosen (get_or (level_metas s.levels) chosen []))
                  (choose_over_budget options.compaction 1 (drop 1 (level_metas s.levels))))))

  -- The background thread goes to wait.
  pub background_rest-IsCalm : background_rest options s ≡ some s
  unfolding background_rest
  background_rest-IsCalm =
      let quiet : (not (is_idle s) && (s.compact_requested || needs_compaction options s)) ≡ false =
        neither (not (is_idle s)) _ _ calm.unasked needs_compaction-IsCalm in
      ap (λ (c : Bool). if c then none else some s) quiet
    where
      neither : (a b c : Bool) → b ≡ false → c ≡ false → (a && (b || c)) ≡ false
      neither a b c e g = ground (arith, e, g)

level0-push_front :
    (t : SsTable) (levels : Levels)
    → length (get_or (level_metas (push_front t levels)) 0 [])
      ≡ length (get_or (level_metas levels) 0 []) + 1
unfolding push_front
level0-push_front t [] = refl
level0-push_front t (level ∷ levels) = omega arith

deeper-push_front :
    (t : SsTable) (levels : Levels)
    → drop 1 (level_metas (push_front t levels)) ≡ drop 1 (level_metas levels)
unfolding push_front
deeper-push_front t [] = refl
deeper-push_front t (level ∷ levels) = refl

-- A flush takes one of the tables that may come.
pub push_front-IsCalm :
    (options : StoreOptions) (n : ℕ) (s s' : Store) (t : SsTable)
    → IsCalm options (n + 1) s
    → s'.levels ≡ push_front t s.levels
    → s'.compact_requested ≡ s.compact_requested
    → IsCalm options n s'
push_front-IsCalm options n s s' t calm grown same = record {
  unasked = same ∙ calm.unasked;
  below =
      let more : length (get_or (level_metas s'.levels) 0 [])
          ≡ length (get_or (level_metas s.levels) 0 []) + 1 =
        ap (λ (ls : Levels). length (get_or (level_metas ls) 0 [])) grown
        ∙ level0-push_front t s.levels in
      omega (arith, more, calm.below);
  within =
      ap (λ (ls : Levels). choose_over_budget options.compaction 1 (drop 1 (level_metas ls))) grown
      ∙ ap (choose_over_budget options.compaction 1) (deeper-push_front t s.levels)
      ∙ calm.within;
}
