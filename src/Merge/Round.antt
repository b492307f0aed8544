-- ===== src/Merge/Round.antt =====
-- What a round of the merge leaves of the sources.
use mathlib.Core.Path.{subst}
use lsm_tree_storage_engine.Prelude.{
  All, Option-cases, map, false, inl, [], none, refl, ◌≤◌, List, true, ◌≡◌, ◌∷◌, ◌<◌, Bool-cases,
  inr, some, arith, ok, if◌then◌else◌,
}
use lsm_tree_storage_engine.Key.{Key, key_lt, key_eq, key_lt_total, key_eq_iff}
use lsm_tree_storage_engine.Memtable.{MemEntry}
use lsm_tree_storage_engine.SortedMap.{IsSorted, Above, find}
use lsm_tree_storage_engine.Merge.{advance_all, all_rows_left, rows_left}
use lsm_tree_storage_engine.Merge.Pick.{Table, source_of, newest, Bounded}
use lsm_tree_storage_engine.SortedMap.Laws.{find-Above, Above-trans}

unfoldable pub drop_head : Key → Table → Table
drop_head k [] = []
drop_head k ((j, w) ∷ m) = if key_eq j k then m else (j, w) ∷ m

abbrev pub drop_heads : Key → List Table → List Table
drop_heads k [] = []
drop_heads k (m ∷ ms) = drop_head k m ∷ drop_heads k ms

pub advance_all-source_of :
    (k : Key) (ms : List Table)
    → advance_all k (map source_of ms) ≡ (map source_of (drop_heads k ms), ok tt)
unfolding advance_all drop_head
advance_all-source_of k [] = refl
advance_all-source_of k ([] ∷ ms) = rw (advance_all-source_of k ms)
advance_all-source_of k (((j, w) ∷ m) ∷ ms) =
    rw (advance_all-source_of k ms) (elim (Bool-cases (key_eq j k)) [ inl e ↦ rw e | inr e ↦ rw e ])

above_bound : (k j : Key) → key_lt j k ≡ false → key_eq j k ≡ false → key_lt k j ≡ true
above_bound k j h e = ground (arith, key_lt_total j k h, key_eq_iff j k)

drop_head-Above : (k : Key) (m : Table) → IsSorted m → Bounded k m → Above k (drop_head k m)
unfolding drop_head
drop_head-Above k [] s b = tt
drop_head-Above k ((j, w) ∷ m) s b = elim (Bool-cases (key_eq j k)) [
  | inl e ↦ rw e (subst (λ i. Above i m) ((key_eq_iff j k).0 e) s.0)
  | inr e ↦ rw e (above_bound k j b e, Above-trans k j m (above_bound k j b e) s.0)
]

pub drop_heads-IsSorted :
    (k : Key) (ms : List Table) → All IsSorted ms → All IsSorted (drop_heads k ms)
unfolding drop_head
drop_heads-IsSorted k [] s = tt
drop_heads-IsSorted k ([] ∷ ms) s = (tt, drop_heads-IsSorted k ms s.1)
drop_heads-IsSorted k (((j, w) ∷ m) ∷ ms) s = elim (Bool-cases (key_eq j k)) [
  | inl e ↦ rw e (s.0.1, drop_heads-IsSorted k ms s.1)
  | inr e ↦ rw e (s.0, drop_heads-IsSorted k ms s.1)
]

find-drop_head :
    (k j : Key) (m : Table)
    → IsSorted m
    → Bounded k m
    → find j (drop_head k m) ≡ (if key_eq k j then none else find j m)
unfolding find drop_head
find-drop_head k j [] s b = ground arith
find-drop_head k j ((i, w) ∷ m) s b = ground (
  arith,
  key_eq_iff i k,
  key_eq_iff i j,
  key_eq_iff k j,
  find-Above j m,
  Above-trans k i m,
  above_bound k i b,
)

find-some-Above :
    (k j : Key) (v : MemEntry) (m : Table) → Above k m → find j m ≡ some v → key_lt k j ≡ true
unfolding find
find-some-Above k j v [] a h = cc
find-some-Above k j v ((i, w) ∷ m) a h = ground (arith, key_eq_iff i j, find-some-Above k j v m a.1)

module _ (k : Key) where
  -- The winner's key is gone from the sources, and nothing else.
  pub newest-drop_heads :
      (j : Key) (ms : List Table)
      → All IsSorted ms
      → All (Bounded k) ms
      → newest j (drop_heads k ms) ≡ (if key_eq k j then none else newest j ms)
  unfolding newest
  newest-drop_heads j [] s b = ground arith
  newest-drop_heads j (m ∷ ms) s b =
      ground (arith, find-drop_head k j m s.0 b.0, newest-drop_heads j ms s.1 b.1)

  -- What is left is above it.
  pub newest_left :
      (j : Key) (v : MemEntry) (ms : List Table)
      → All IsSorted ms
      → All (Bounded k) ms
      → newest j (drop_heads k ms) ≡ some v
      → key_lt k j ≡ true
  unfolding newest
  newest_left j v [] s b h = cc
  newest_left j v (m ∷ ms) s b h = ground (
    arith,
    find-some-Above k j v (drop_head k m) (drop_head-Above k m s.0 b.0),
    newest_left j v ms s.1 b.1,
  )

  rows-drop_head : (m : Table) → rows_left (source_of (drop_head k m)) ≤ rows_left (source_of m)
  unfolding drop_head
  rows-drop_head [] = omega arith
  rows-drop_head ((j, w) ∷ m) = ground arith

  rows_fewer :
      (m : Table) (e : MemEntry)
      → IsSorted m
      → Bounded k m
      → find k m ≡ some e
      → rows_left (source_of (drop_head k m)) < rows_left (source_of m)
  unfolding drop_head find
  rows_fewer [] e s b h = cc
  rows_fewer ((j, w) ∷ m) e s b h =
      ground (arith, key_eq_iff j k, find-Above k m, Above-trans k j m, above_bound k j b)

  rows-drop_heads :
      (ms : List Table)
      → all_rows_left (map source_of (drop_heads k ms)) ≤ all_rows_left (map source_of ms)
  rows-drop_heads [] = omega arith
  rows-drop_heads (m ∷ ms) = omega (arith, rows-drop_head m, rows-drop_heads ms)

  -- A round takes a row at least.
  pub all_rows_fewer :
      (ms : List Table) (e : MemEntry)
      → All IsSorted ms
      → All (Bounded k) ms
      → newest k ms ≡ some e
      → all_rows_left (map source_of (drop_heads k ms)) < all_rows_left (map source_of ms)
  unfolding newest
  all_rows_fewer [] e s b h = cc
  all_rows_fewer (m ∷ ms) e s b h = elim (Option-cases (find k m)) [
    | inl absent ↦
        omega (arith, rows-drop_head m, all_rows_fewer ms e s.1 b.1 (rw (absent, newest) at h))
    | inr (v, found) ↦ omega (arith, rows_fewer m v s.0 b.0 found, rows-drop_heads ms)
  ]
