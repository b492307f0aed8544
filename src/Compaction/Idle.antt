-- ===== src/Compaction/Idle.antt =====
-- When `pick_compaction` finds nothing to do.
use mathlib.Core.Path.{subst}
use lsm_tree_storage_engine.Prelude.{
  ℕ, some, suc, refl, zero, get_or, [], List, none, ◌≤◌, arith, ◌∷◌, ◌<◌, ◌≡◌, Option, ◌+◌, false,
  length, Bool-cases, drop, ◌⊎◌, inr, true, sym, Bool, ◌∙◌, ap, inl, if◌then◌else◌,
}
use lsm_tree_storage_engine.Compaction.{
  LsmOptions, plan_choice, choose_over_budget, level_budget, pick_compaction, choose, LsmStore,
  l0_due, anything_below, with_inputs, choose_forced, pick_table,
}
use lsm_tree_storage_engine.Manifest.{tables_bytes, TableMeta}

plan_choice-none :
    (levels : List (List TableMeta)) (c : Option (ℕ × List TableMeta))
    → plan_choice levels c ≡ none
    → c ≡ none
plan_choice-none levels none h = refl
plan_choice-none levels (some (level, inputs)) h = cc

-- Every level that may be merged down is within its budget.
choose_over_budget-none :
    (options : LsmOptions) (level i : ℕ) (deeper : List (List TableMeta))
    → choose_over_budget options level deeper ≡ none
    → level + i + 1 < options.max_levels
    → tables_bytes 0 (get_or deeper i []) ≤ level_budget options (level + i)
unfolding choose_over_budget tables_bytes
choose_over_budget-none options level i [] h room = omega arith
choose_over_budget-none options level zero ([] ∷ deeper) h room = omega arith
choose_over_budget-none options level zero ((t ∷ ts) ∷ deeper) h room =
    let here : level ≡ level + 0 = omega arith in
    subst (λ (n : ℕ). tables_bytes 0 (t ∷ ts) ≤ level_budget options n) here
      (ground (arith, h, room))
choose_over_budget-none options level (suc i) (tables ∷ deeper) h room =
    let here : level + 1 + i ≡ level + suc i = omega arith in
    subst (λ (n : ℕ). tables_bytes 0 (get_or deeper i []) ≤ level_budget options n) here
      (choose_over_budget-none options (level + 1) i deeper (ground (arith, h, room)) (omega arith))

with_inputs-none :
    (inputs : ℕ → List TableMeta) (c : Option ℕ) → with_inputs inputs c ≡ none → c ≡ none
with_inputs-none inputs none h = refl
with_inputs-none inputs (some chosen) h = cc

within_budget :
    (options : LsmOptions) (levels : List (List TableMeta)) (level : ℕ)
    → choose_over_budget options 1 (drop 1 levels) ≡ none
    → 0 < level
    → level + 1 < options.max_levels
    → tables_bytes 0 (get_or levels level []) ≤ level_budget options level
unfolding tables_bytes
within_budget options levels zero h pos room = absurd (omega arith)
within_budget options [] (suc i) h pos room = omega arith
within_budget options (l0 ∷ deeper) (suc i) h pos room =
    let here : 1 + i ≡ suc i = omega arith in
    subst (λ (n : ℕ). tables_bytes 0 (get_or deeper i []) ≤ level_budget options n) here
      (choose_over_budget-none options 1 i deeper h (omega arith))

l0_not_due :
    (options : LsmOptions) (levels : List (List TableMeta))
    → l0_due options levels ≡ false
    → 0 < options.l0_compaction_trigger
    → length (get_or levels 0 []) < options.l0_compaction_trigger
l0_not_due options [] h pos = pos
l0_not_due options (l0 ∷ deeper) h pos = ground (arith, h)

-- With an L0 trigger above 0, an unforced pick that finds nothing means that L0 has fewer tables than the trigger, and that a level from L1 on that is not
-- the last of `max_levels` is within its budget.
pub pick_compaction-idle :
    (s : LsmStore) (level : ℕ)
    → pick_compaction s false ≡ none
    → 0 < s.options.l0_compaction_trigger
    → 0 < level
    → level + 1 < s.options.max_levels
    → (length (get_or s.levels 0 []) < s.options.l0_compaction_trigger)
      × (tables_bytes 0 (get_or s.levels level []) ≤ level_budget s.options level)
unfolding pick_compaction choose
pick_compaction-idle s level h trigger pos room = elim (Bool-cases (l0_due s.options s.levels)) [
  | inl due ↦ cc
  | inr not_due ↦ (
    l0_not_due s.options s.levels not_due trigger,
    within_budget s.options s.levels level
        (with_inputs-none _ _ (
          ap
            (λ (b : Bool).
              if b
              then some (0, get_or s.levels 0 [])
              else with_inputs
                  (λ chosen. pick_table s.compact_pointer chosen (get_or s.levels chosen []))
                  (choose_over_budget s.options 1 (drop 1 s.levels)))
            (sym not_due)
          ∙ plan_choice-none s.levels (choose s false) h))
        pos room,
  )
]

anything_below-false :
    (levels : List (List TableMeta)) (i : ℕ)
    → anything_below levels ≡ false
    → get_or levels i [] ≡ []
unfolding anything_below
anything_below-false [] i h = refl
anything_below-false ([] ∷ deeper) zero h = refl
anything_below-false ([] ∷ deeper) (suc i) h = anything_below-false deeper i h
anything_below-false ((t ∷ ts) ∷ deeper) i h = cc

choose_forced-none :
    (n : ℕ) (levels : List (List TableMeta)) (i j : ℕ)
    → choose_forced n levels ≡ none
    → i < j
    → (get_or levels i [] ≡ []) ⊎ (get_or levels j [] ≡ [])
unfolding choose_forced
choose_forced-none n [] i j h lt = inl refl
choose_forced-none n (level ∷ deeper) i zero h lt = absurd (omega arith)
choose_forced-none n ([] ∷ deeper) zero (suc j) h lt = inl refl
choose_forced-none n ([] ∷ deeper) (suc i) (suc j) h lt =
    choose_forced-none (n + 1) deeper i j h (omega arith)
choose_forced-none n ((t ∷ ts) ∷ deeper) i (suc j) h lt =
    elim (Bool-cases (anything_below deeper)) [
      | inl below ↦ cc
      | inr nothing ↦ inr (anything_below-false deeper j nothing)
    ]

-- When a forced pick finds nothing, one of any two levels has no tables.
pub pick_compaction-forced_idle :
    (s : LsmStore) (i j : ℕ)
    → pick_compaction s true ≡ none
    → i < j
    → (get_or s.levels i [] ≡ []) ⊎ (get_or s.levels j [] ≡ [])
unfolding pick_compaction choose
pick_compaction-forced_idle s i j h lt =
    choose_forced-none 0 s.levels i j
      (with_inputs-none (λ chosen. get_or s.levels chosen []) (choose_forced 0 s.levels)
        (plan_choice-none s.levels (choose s true) h))
      lt
