-- ===== src/Merge/Pick.antt =====
-- The winner of a round, over sources that hold sorted entries and do not fail.
use lsm_tree_storage_engine.Prelude.{
  List, arith, ◌≡◌, map, some, All, ◌∷◌, none, [], false, true, Option, if◌then◌else◌, inr, inl,
  Bool-cases, refl,
}
use lsm_tree_storage_engine.Key.{
  Key, key_lt, key_eq, key_lt_total, key_eq_iff, key_eq_refl, key_lt_irrefl, key_le_lt_trans,
  key_lt_asymm, key_lt_le_trans,
}
use lsm_tree_storage_engine.Memtable.{MemEntry}
use lsm_tree_storage_engine.SortedMap.{Entries, IsSorted, find, Above}
use lsm_tree_storage_engine.Merge.{Source, row, exhausted, winner}
use lsm_tree_storage_engine.SortedMap.Laws.{find-Above, Above-trans}

abbrev pub Table : Type 0
Table = Entries MemEntry

abbrev pub source_of : Table → Source
source_of [] = exhausted
source_of ((k, e) ∷ m) = row k e (source_of m)

-- The sources stand newest first, so the first that has the key has its newest entry.
unfoldable pub newest : Key → List Table → Option MemEntry
newest k [] = none
newest k (m ∷ ms) = elim (find k m) [ some e ↦ some e | none ↦ newest k ms ]

-- No key of the sources is below `k`.
abbrev pub Bounded : Key → Table → Type 0
Bounded k [] = Unit
Bounded k ((j, e) ∷ m) = key_lt j k ≡ false

-- What the winner so far and the sources behind it say of `k`.
abbrev seen : Key → Option (Key × MemEntry) → List Table → Option MemEntry
seen k none ms = newest k ms
seen k (some (a, x)) ms = if key_eq a k then some x else newest k ms

abbrev NotBelow : Key → Option (Key × MemEntry) → Type 0
NotBelow k none = Unit
NotBelow k (some (a, x)) = key_lt a k ≡ false

find-below :
    (k j : Key) (m : Table) → key_lt j k ≡ false → key_eq j k ≡ false → Above j m → find k m ≡ none
find-below k j m h ne a = find-Above k m (Above-trans k j m below a)
  where
    below : key_lt k j ≡ true
    below = ground (arith, key_lt_total j k h, key_eq_iff j k)

bound_kept : (a j k : Key) → key_lt j a ≡ false → key_lt a k ≡ false → key_lt j k ≡ false
bound_kept a j k h l = elim (Bool-cases (key_lt j k)) [
  | inl below ↦ cc (key_lt_le_trans j k a below l)
  | inr above ↦ above
]

newest-head :
    (k j : Key) (w : MemEntry) (m : Table) (ms : List Table) (e : MemEntry)
    → key_lt j k ≡ false
    → Above j m
    → (if key_eq j k then some w else newest k ms) ≡ some e
    → newest k (((j, w) ∷ m) ∷ ms) ≡ some e
unfolding newest find
newest-head k j w m ms e h a sn = ground (arith, find-below k j m h)

winner-some :
    (best : Option (Key × MemEntry)) (ms : List Table) (k : Key) (e : MemEntry)
    → All IsSorted ms
    → winner best (map source_of ms) ≡ some (k, e)
    → (seen k best ms ≡ some e) × NotBelow k best × All (Bounded k) ms
unfolding newest winner find
winner-some none [] k e s h = cc
winner-some (some (a, x)) [] k e s h = ground (arith, key_eq_refl a, key_lt_irrefl a)
winner-some none ([] ∷ ms) k e s h =
    let (sn, nb, bd) = winner-some none ms k e s.1 h in (sn, nb, (tt, bd))
winner-some (some (a, x)) ([] ∷ ms) k e s h =
    let (sn, nb, bd) = winner-some (some (a, x)) ms k e s.1 h in (sn, nb, (tt, bd))
winner-some none (((j, w) ∷ m) ∷ ms) k e s h =
    let (sn, nb, bd) = winner-some (some (j, w)) ms k e s.1 h in
    (newest-head k j w m ms e nb s.0.0 sn, tt, (nb, bd))
winner-some (some (a, x)) (((j, w) ∷ m) ∷ ms) k e s h = elim (Bool-cases (key_lt j a)) [
  | inl lower ↦
      let (sn, nb, bd) = winner-some (some (j, w)) ms k e s.1 (rw lower at h) in
      let above : key_lt k a ≡ true = key_le_lt_trans k j a nb lower in
      (
        ground (arith, newest-head k j w m ms e nb s.0.0 sn, key_eq_iff a k, key_lt_irrefl k),
        key_lt_asymm k a above,
        (nb, bd),
      )
  | inr kept ↦
      let (sn, nb, bd) = winner-some (some (a, x)) ms k e s.1 (rw kept at h) in
      let not_below : key_lt j k ≡ false = bound_kept a j k kept nb in
      (
        ground (
          arith,
          newest-head k j w m ms e not_below s.0.0,
          key_eq_iff j k,
          key_eq_iff a k,
          key_lt_total a k,
        ),
        nb,
        (not_below, bd),
      )
]

winner-best :
    (best : Key × MemEntry) (ms : List Table)
    → (r : Key × MemEntry) × (winner (some best) (map source_of ms) ≡ some r)
unfolding winner
winner-best best [] = (best, refl)
winner-best best ([] ∷ ms) = winner-best best ms
winner-best (a, x) (((j, w) ∷ m) ∷ ms) = elim (Bool-cases (key_lt j a)) [
  | inl lower ↦ rw lower (winner-best (j, w) ms)
  | inr kept ↦ rw kept (winner-best (a, x) ms)
]

-- Without a winner every source is at its end.
pub winner-none :
    (ms : List Table) → winner none (map source_of ms) ≡ none → (k : Key) → newest k ms ≡ none
unfolding winner newest find
winner-none [] h k = refl
winner-none ([] ∷ ms) h k = winner-none ms h k
winner-none (((j, w) ∷ m) ∷ ms) h k = let (r, e) = winner-best (j, w) ms in cc (e)

-- The winner has the smallest key of all, with its newest entry.
pub winner-newest :
    (ms : List Table) (k : Key) (e : MemEntry)
    → All IsSorted ms
    → winner none (map source_of ms) ≡ some (k, e)
    → (newest k ms ≡ some e) × All (Bounded k) ms
winner-newest ms k e s h = let (sn, _, bd) = winner-some none ms k e s h in (sn, bd)
