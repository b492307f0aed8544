-- ===== src/Compaction/Choice.antt =====
-- src/lsm_compaction.cpp: the overlaps and the tombstones of what `pick_compaction` picks.
use mathlib.Core.Path.{subst}
use lsm_tree_storage_engine.Prelude.{
  ℕ, [], arith, ◌-◌, sym, true, zero, Bool, refl, get_or, ◌∷◌, List, ◌∙◌, drop, suc, ◌+◌, ap, some,
  ◌<◌, ◌≡◌, none, Option, false, All, ◌⊎◌, inl, ◌||◌, not, inr, Bool-cases,
}
use lsm_tree_storage_engine.Compaction.{
  LsmStore, Compaction, choose, plan, pick_compaction, touching, none_touching, no_level_touching,
  can_drop_tombstones, plan_choice, ranges_overlap,
}
use lsm_tree_storage_engine.Compaction.Touch.{IsDisjoint, touching-widen}
use lsm_tree_storage_engine.Key.{Key, key_lt, key_le_lt_trans, key_lt_le_trans}
use lsm_tree_storage_engine.Manifest.{TableMeta}

plan_choice-plan :
    (levels : List (List TableMeta)) (c : Option (ℕ × List TableMeta)) (w : Compaction)
    → plan_choice levels c ≡ some w
    → plan levels w.level w.inputs ≡ w
unfolding plan
plan_choice-plan levels none w h = cc
plan_choice-plan levels (some (level, inputs)) w h =
    let same : plan levels level inputs ≡ w = cc in
    ap (λ (v : Compaction). plan levels v.level v.inputs) (sym same) ∙ same

pub pick_compaction-plan :
    (s : LsmStore) (force : Bool) (w : Compaction)
    → pick_compaction s force ≡ some w
    → plan s.levels w.level w.inputs ≡ w
unfolding pick_compaction
pick_compaction-plan s force w h = plan_choice-plan s.levels (choose s force) w h

-- When the tables of the level below the picked one are disjoint and in order, the widened range of
-- a picked compaction touches none of them but the overlaps that it takes.
pub pick_compaction-closed :
    (s : LsmStore) (force : Bool) (w : Compaction)
    → pick_compaction s force ≡ some w
    → IsDisjoint (get_or s.levels (w.level + 1) [])
    → touching w.begin w.end (get_or s.levels (w.level + 1) []) ≡ w.overlaps
unfolding plan
pick_compaction-closed s force w h d =
    subst
      (λ (v : Compaction). touching v.begin v.end (get_or s.levels (v.level + 1) []) ≡ v.overlaps)
      (pick_compaction-plan s force w h) (planned s.levels w.level w.inputs d)
  where
    planned :
        (levels : List (List TableMeta)) (level : ℕ) (inputs : List TableMeta)
        → IsDisjoint (get_or levels (level + 1) [])
        → touching
            (plan levels level inputs).begin
            (plan levels level inputs).end
            (get_or levels (level + 1) [])
          ≡ (plan levels level inputs).overlaps
    planned levels level inputs d = touching-widen _ _ (get_or levels (level + 1) []) d

-- The key is below the table's smallest, or above its largest.
abbrev pub Outside : Key → TableMeta → Type 0
Outside key t = (key_lt key t.min_key ≡ true) ⊎ (key_lt t.max_key key ≡ true)

module _ (begin end key : Key) (from : key_lt key begin ≡ false)
    (until : key_lt end key ≡ false) where
  ranges_overlap-Outside :
      (t : TableMeta) → ranges_overlap begin end t.min_key t.max_key ≡ false → Outside key t
  ranges_overlap-Outside t h = elim (Bool-cases (key_lt end t.min_key)) [
    | inl above ↦ inl (key_le_lt_trans key end t.min_key until above)
    | inr reaches ↦ inr (key_lt_le_trans t.max_key begin key (not_reached _ _ h reaches) from)
  ]
    where
      not_reached : (a b : Bool) → not (a || b) ≡ false → a ≡ false → b ≡ true
      not_reached a b g e = ground (arith, g, e)

  none_touching-Outside :
      (ts : List TableMeta) → none_touching begin end ts ≡ true → All (Outside key) ts
  unfolding none_touching
  none_touching-Outside [] h = tt
  none_touching-Outside (t ∷ ts) h =
      (ranges_overlap-Outside t (ground (arith, h)), none_touching-Outside ts (ground (arith, h)))

  no_level-Outside :
      (levels : List (List TableMeta)) (i : ℕ)
      → no_level_touching begin end levels ≡ true
      → All (Outside key) (get_or levels i [])
  unfolding no_level_touching
  no_level-Outside [] i h = tt
  no_level-Outside (level ∷ levels) zero h = none_touching-Outside level (ground (arith, h))
  no_level-Outside (level ∷ levels) (suc i) h = no_level-Outside levels i (ground (arith, h))

get_or-drop :
    (n i : ℕ) (levels : List (List TableMeta))
    → get_or (drop n levels) i [] ≡ get_or levels (n + i) []
get_or-drop zero i levels = ap (λ k. get_or levels k []) (omega arith)
get_or-drop (suc n) i [] = refl
get_or-drop (suc n) i (level ∷ levels) =
    get_or-drop n i levels ∙ ap (λ k. get_or (level ∷ levels) k []) (moved n i)
  where
    moved : (n i : ℕ) → suc (n + i) ≡ suc n + i
    moved n i = omega arith

-- If a picked compaction drops tombstones, a key from the first to the last of its range, both
-- included, is outside the range of every table of any level below its output level: no deeper table
-- can hold the key.
pub pick_compaction-drops :
    (s : LsmStore) (force : Bool) (w : Compaction) (level : ℕ) (key : Key)
    → pick_compaction s force ≡ some w
    → w.drop_tombstones ≡ true
    → w.level + 1 < level
    → key_lt key w.begin ≡ false
    → key_lt w.end key ≡ false
    → All (Outside key) (get_or s.levels level [])
unfolding can_drop_tombstones plan
pick_compaction-drops s force w level key h dropped deeper from until =
    let n = w.level + 1 + 1 in
    let same : get_or (drop n s.levels) (level - n) [] ≡ get_or s.levels level [] =
      get_or-drop n (level - n) s.levels
      ∙ ap (λ (k : ℕ). get_or s.levels k []) (omega (arith, deeper)) in
    subst (All (Outside key)) same (
      no_level-Outside w.begin w.end key from until (drop n s.levels) (level - n) (
        ap (λ (v : Compaction). can_drop_tombstones s.levels (v.level + 1) v.begin v.end)
          (sym (pick_compaction-plan s force w h))
        ∙ planned s.levels w.level w.inputs
        ∙ ap (λ (v : Compaction). v.drop_tombstones) (pick_compaction-plan s force w h)
        ∙ dropped))
  where
    planned :
        (levels : List (List TableMeta)) (level : ℕ) (inputs : List TableMeta)
        → let w = plan levels level inputs in
          can_drop_tombstones levels (w.level + 1) w.begin w.end ≡ w.drop_tombstones
    planned levels level inputs = refl
