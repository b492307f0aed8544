-- ===== src/Compaction/Touch.antt =====
-- The tables that a range touches, over a level whose tables are disjoint.
use lsm_tree_storage_engine.Prelude.{
  ◌⊎◌, ◌||◌, true, arith, ◌≡◌, [], Bool-cases, inr, ap, All, refl, List, false, inl, ◌∷◌,
}
use lsm_tree_storage_engine.Manifest.{TableMeta}
use lsm_tree_storage_engine.Key.{Key, key_lt, key_lt_trans, key_lt_le_trans, key_le_lt_trans}
use lsm_tree_storage_engine.Compaction.{touching, ranges_overlap, widen_begin, widen_end}
use lsm_tree_storage_engine.Compaction.Range.{
  widen_end-below, below-widen_begin, widen_end-le, widen_begin-le,
}

-- A level below L0: its tables' ranges are not inverted, are disjoint and stand in order.
abbrev pub IsDisjoint : List TableMeta → Type 0
IsDisjoint [] = Unit
IsDisjoint (t ∷ ts) =
    (key_lt t.max_key t.min_key ≡ false)
    × All (λ (u : TableMeta). key_lt t.max_key u.min_key ≡ true) ts
    × IsDisjoint ts

-- Two tables whose ranges do not touch.
abbrev Apart : TableMeta → TableMeta → Type 0
Apart t u = (key_lt t.max_key u.min_key ≡ true) ⊎ (key_lt u.max_key t.min_key ≡ true)

abbrev SameOrApart : TableMeta → TableMeta → Type 0
SameOrApart t u = (t ≡ u) ⊎ Apart t u

abbrev Touches : Key → Key → TableMeta → Type 0
Touches begin end u = ranges_overlap begin end u.min_key u.max_key ≡ true

module _ (t : TableMeta) (ordered : key_lt t.max_key t.min_key ≡ false) (begin end : Key) where
  -- A table before the range is before every table apart from it that the range touches.
  before_touched :
      (u : TableMeta)
      → key_lt t.max_key begin ≡ true
      → Touches begin end u
      → Apart t u
      → key_lt t.max_key u.min_key ≡ true
  before_touched u h touch (inl before) = before
  before_touched u h touch (inr behind) =
      let low =
        key_lt_trans u.max_key t.max_key begin
          (key_lt_le_trans u.max_key t.min_key t.max_key behind ordered) h in
      ground (arith, low, touch)

  behind_touched :
      (u : TableMeta)
      → key_lt end t.min_key ≡ true
      → Touches begin end u
      → Apart t u
      → key_lt u.max_key t.min_key ≡ true
  behind_touched u h touch (inr behind) = behind
  behind_touched u h touch (inl before) =
      let high =
        key_lt_trans end t.min_key u.min_key h
          (key_le_lt_trans t.min_key t.max_key u.min_key ordered before) in
      ground (arith, high, touch)

All-map :
    {P Q : TableMeta → Type 0} (ts : List TableMeta)
    → ((t : TableMeta) → P t → Q t)
    → All P ts
    → All Q ts
All-map [] f h = tt
All-map (t ∷ ts) f h = (f t h.0, All-map ts f h.1)

All-map2 :
    {P Q R : TableMeta → Type 0} (ts : List TableMeta)
    → ((t : TableMeta) → P t → Q t → R t)
    → All P ts
    → All Q ts
    → All R ts
All-map2 [] f h k = tt
All-map2 (t ∷ ts) f h k = (f t h.0 k.0, All-map2 ts f h.1 k.1)

-- A disjoint level's tables are ordered, and each is the same as another or apart from it.
ordered-All :
    (ts : List TableMeta)
    → IsDisjoint ts
    → All (λ (t : TableMeta). key_lt t.max_key t.min_key ≡ false) ts
ordered-All [] h = tt
ordered-All (t ∷ ts) h = (h.0, ordered-All ts h.2)

SameOrApart-All :
    (ts : List TableMeta) → IsDisjoint ts → All (λ (t : TableMeta). All (SameOrApart t) ts) ts
SameOrApart-All [] h = tt
SameOrApart-All (t ∷ ts) h = (
  (inl refl, All-map ts (λ u before. inr (inl before)) h.1),
  All-map2 ts (λ u before all. (inr (inr before), all)) h.1 (SameOrApart-All ts h.2),
)

module _ (begin end : Key) where
  touching-Touches : (ts : List TableMeta) → All (Touches begin end) (touching begin end ts)
  unfolding touching
  touching-Touches [] = tt
  touching-Touches (t ∷ ts) = elim (Bool-cases (ranges_overlap begin end t.min_key t.max_key)) [
    | inl on ↦ rw on (on, touching-Touches ts)
    | inr off ↦ rw off (touching-Touches ts)
  ]

  touching-All :
      (P : TableMeta → Type 0) (ts : List TableMeta) → All P ts → All P (touching begin end ts)
  unfolding touching
  touching-All P [] h = tt
  touching-All P (t ∷ ts) h = elim (Bool-cases (ranges_overlap begin end t.min_key t.max_key)) [
    | inl on ↦ rw on (h.0, touching-All P ts h.1)
    | inr off ↦ rw off (touching-All P ts h.1)
  ]

  touching-cong :
      (begin' end' : Key) (ts : List TableMeta)
      → All
          (λ (t : TableMeta).
            ranges_overlap begin' end' t.min_key t.max_key
            ≡ ranges_overlap begin end t.min_key t.max_key)
          ts
      → touching begin' end' ts ≡ touching begin end ts
  unfolding touching
  touching-cong begin' end' [] h = refl
  touching-cong begin' end' (t ∷ ts) h = ground (arith, h.0, touching-cong begin' end' ts h.1)

  -- Widening over tables that the range touches lets it touch no table apart from them.
  same_overlap :
      (us : List TableMeta)
      → All (Touches begin end) us
      → (t : TableMeta) → key_lt t.max_key t.min_key ≡ false
      → All (SameOrApart t) us
      → ranges_overlap (widen_begin begin us) (widen_end end us) t.min_key t.max_key
        ≡ ranges_overlap begin end t.min_key t.max_key
  same_overlap us touch t ordered apart = elim (Bool-cases (key_lt end t.min_key)) [
    | inl behind ↦ ground (
      arith,
      behind,
      widen_end-below t.min_key end us behind (All-map2 us (behind_u behind) touch apart),
    )
    | inr reaches ↦ elim (Bool-cases (key_lt t.max_key begin)) [
      | inl before ↦ ground (
        arith,
        before,
        below-widen_begin t.max_key begin us before (All-map2 us (before_u before) touch apart),
      )
      | inr inside ↦ ground (
        arith,
        reaches,
        inside,
        widen_end-le t.min_key end us reaches,
        widen_begin-le t.max_key begin us inside,
      )
    ]
  ]
    where
      not_same :
          (u : TableMeta)
          → (key_lt end t.min_key || key_lt t.max_key begin) ≡ true
          → Touches begin end u
          → SameOrApart t u
          → Apart t u
      not_same u off on (inl same) = ground (
        arith,
        off,
        ap (λ (x : TableMeta). ranges_overlap begin end x.min_key x.max_key) same,
        on,
      )
      not_same u off on (inr a) = a

      behind_u :
          key_lt end t.min_key ≡ true
          → (u : TableMeta) → Touches begin end u
          → SameOrApart t u
          → key_lt u.max_key t.min_key ≡ true
      behind_u off u on a =
          behind_touched t ordered begin end u off on (not_same u (ground (arith, off)) on a)

      before_u :
          key_lt t.max_key begin ≡ true
          → (u : TableMeta) → Touches begin end u
          → SameOrApart t u
          → key_lt t.max_key u.min_key ≡ true
      before_u off u on a =
          before_touched t ordered begin end u off on (not_same u (ground (arith, off)) on a)

  pub touching-widen :
      (ts : List TableMeta)
      → IsDisjoint ts
      → touching
          (widen_begin begin (touching begin end ts))
          (widen_end end (touching begin end ts))
          ts
        ≡ touching begin end ts
  touching-widen ts d =
      let us = touching begin end ts in
      touching-cong (widen_begin begin us) (widen_end end us) ts (
        All-map2 ts (same_overlap us (touching-Touches ts)) (ordered-All ts d)
          (All-map ts (λ t apart. touching-All (SameOrApart t) ts apart) (SameOrApart-All ts d)))
