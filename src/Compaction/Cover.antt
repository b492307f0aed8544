-- ===== src/Compaction/Cover.antt =====
-- src/lsm_compaction.cpp: the range of a compaction and the ranges of the tables that it merges.
use mathlib.Core.Path.{subst}
use lsm_tree_storage_engine.Prelude.{
  ℕ, true, arith, Bool, ◌≡◌, [], Bool-cases, inr, All, some, List, ◌⊎◌, false, inl, ◌∷◌,
}
use lsm_tree_storage_engine.Compaction.{
  LsmStore, Compaction, pick_compaction, plan, widen_begin, widen_end, key_min, key_max, front_min,
  front_max,
}
use lsm_tree_storage_engine.Manifest.{TableMeta}
use lsm_tree_storage_engine.Key.{Key, key_lt, key_lt_irrefl}
use lsm_tree_storage_engine.Compaction.Range.{widen_begin-le, widen_end-le}
use lsm_tree_storage_engine.Compaction.Choice.{pick_compaction-plan}

abbrev pub Covers : Key → Key → TableMeta → Type 0
Covers begin end t = (key_lt t.min_key begin ≡ false) × (key_lt end t.max_key ≡ false)

widen_begin-All :
    (begin : Key) (ts : List TableMeta)
    → All (λ (t : TableMeta). key_lt t.min_key (widen_begin begin ts) ≡ false) ts
unfolding widen_begin
widen_begin-All begin [] = tt
widen_begin-All begin (t ∷ ts) = (
  widen_begin-le t.min_key (key_min begin t.min_key) ts
      (kept (Bool-cases (key_lt t.min_key begin))),
  widen_begin-All (key_min begin t.min_key) ts,
)
  where
    kept :
        (key_lt t.min_key begin ≡ true) ⊎ (key_lt t.min_key begin ≡ false)
        → key_lt t.min_key (key_min begin t.min_key) ≡ false
    kept (inl lower) = ground (arith, lower, key_lt_irrefl t.min_key)
    kept (inr same) = ground (arith, same)

widen_end-All :
    (end : Key) (ts : List TableMeta)
    → All (λ (t : TableMeta). key_lt (widen_end end ts) t.max_key ≡ false) ts
unfolding widen_end
widen_end-All end [] = tt
widen_end-All end (t ∷ ts) = (
  widen_end-le t.max_key (key_max end t.max_key) ts (kept (Bool-cases (key_lt end t.max_key))),
  widen_end-All (key_max end t.max_key) ts,
)
  where
    kept :
        (key_lt end t.max_key ≡ true) ⊎ (key_lt end t.max_key ≡ false)
        → key_lt (key_max end t.max_key) t.max_key ≡ false
    kept (inl higher) = ground (arith, higher, key_lt_irrefl t.max_key)
    kept (inr same) = ground (arith, same)

Covers-All :
    (begin end : Key) (ts : List TableMeta)
    → All (λ (t : TableMeta). key_lt t.min_key begin ≡ false) ts
    → All (λ (t : TableMeta). key_lt end t.max_key ≡ false) ts
    → All (Covers begin end) ts
Covers-All begin end [] h k = tt
Covers-All begin end (t ∷ ts) h k = ((h.0, k.0), Covers-All begin end ts h.1 k.1)

Covers-widen :
    (begin end : Key) (us ts : List TableMeta)
    → All (Covers begin end) ts
    → All (Covers (widen_begin begin us) (widen_end end us)) ts
Covers-widen begin end us [] h = tt
Covers-widen begin end us (t ∷ ts) h = (
  (widen_begin-le t.min_key begin us h.0.0, widen_end-le t.max_key end us h.0.1),
  Covers-widen begin end us ts h.1,
)

-- The range of a picked compaction covers the range of each of its inputs and overlaps.
pub pick_compaction-Covers :
    (s : LsmStore) (force : Bool) (w : Compaction)
    → pick_compaction s force ≡ some w
    → All (Covers w.begin w.end) w.inputs × All (Covers w.begin w.end) w.overlaps
unfolding plan
pick_compaction-Covers s force w h =
    subst
      (λ (v : Compaction).
        All (Covers v.begin v.end) v.inputs × All (Covers v.begin v.end) v.overlaps)
      (pick_compaction-plan s force w h) (planned s.levels w.level w.inputs)
  where
    planned :
        (levels : List (List TableMeta)) (level : ℕ) (inputs : List TableMeta)
        → let v = plan levels level inputs in
          All (Covers v.begin v.end) v.inputs × All (Covers v.begin v.end) v.overlaps
    planned levels level inputs =
        let v = plan levels level inputs in
        let begin = widen_begin (front_min inputs) inputs in
        let end = widen_end (front_max inputs) inputs in
        (
          Covers-widen begin end v.overlaps inputs (
              Covers-All begin end inputs (widen_begin-All (front_min inputs) inputs)
                (widen_end-All (front_max inputs) inputs)),
          Covers-All v.begin v.end v.overlaps (widen_begin-All begin v.overlaps)
              (widen_end-All end v.overlaps),
        )
