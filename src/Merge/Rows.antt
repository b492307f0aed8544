-- ===== src/Merge/Rows.antt =====
-- src/lsm_iterator.cpp: a step of the merge, by the newest entries of the keys.
use lsm_tree_storage_engine.Prelude.{
  ℕ, map, ◌⊎◌, not, All, refl, ◌∙◌, some, List, ◌||◌, inl, ap, true, inr, Option, ◌<◌, ◌≡◌, false,
  sym, Bool-cases, ok, [], Status, Bool, none, if◌then◌else◌, suc, Option-cases, zero, arith,
}
use lsm_tree_storage_engine.Key.{Key, key_lt, key_eq, key_eq_iff}
use lsm_tree_storage_engine.Memtable.{MemEntry}
use lsm_tree_storage_engine.SortedMap.{IsSorted}
use lsm_tree_storage_engine.Merge.{
  MergingIterator, Tombstones, emits, find_loop, all_rows_left, winner, advance_all, Source,
}
use lsm_tree_storage_engine.Merge.Pick.{Table, source_of, newest, winner-newest, winner-none}
use lsm_tree_storage_engine.Merge.Round.{
  drop_heads, newest_left, all_rows_fewer, drop_heads-IsSorted, newest-drop_heads,
  advance_all-source_of,
}

-- What a merge shows of a key's newest entry: a tombstone has no value, and is skipped or emitted.
abbrev pub clean : MemEntry → MemEntry
clean e = record { value = if e.tombstone then [] else e.value; tombstone = e.tombstone }

abbrev pub shown : Tombstones → Option MemEntry → Option MemEntry
shown mode none = none
shown mode (some e) = if not e.tombstone || emits mode then some (clean e) else none

abbrev pub entry_at : MergingIterator → MemEntry
entry_at it = record { value = it.value; tombstone = it.tombstone }

-- The iterator stands on a row, and `left` is what follows it.
pub record OnRow (mode : Tombstones) (ms : List Table) (it : MergingIterator) : Type 0 where
  pub left : List Table
  pub valid : it.valid ≡ true
  pub sources : it.sources ≡ map source_of left
  pub same_mode : it.mode ≡ mode
  pub sorted : All IsSorted left
  pub fewer : all_rows_left (map source_of left) < all_rows_left (map source_of ms)
  pub above :
      (j : Key) (v : MemEntry) → shown mode (newest j left) ≡ some v → key_lt it.key j ≡ true
  pub here :
      (j : Key)
      → shown mode (newest j ms)
        ≡ (if key_eq it.key j then some (entry_at it) else shown mode (newest j left))

-- The iterator is at its end, and nothing is left to show.
pub record AtEnd (mode : Tombstones) (ms : List Table) (it : MergingIterator) : Type 0 where
  pub invalid : it.valid ≡ false
  pub nothing : (j : Key) → shown mode (newest j ms) ≡ none

abbrev pub Next : Tombstones → List Table → Option (MergingIterator × Status) → Type 0
Next mode ms r =
    (it : MergingIterator) × (r ≡ some (it, ok tt)) × (OnRow mode ms it ⊎ AtEnd mode ms it)

module _ (mode : Tombstones) where
  -- Before a round.
  abbrev before : List Table → Key → List ℕ → Bool → Status → MergingIterator
  before ms key value tombstone status = record {
    sources = map source_of ms;
    mode = mode;
    key = key;
    value = value;
    tombstone = tombstone;
    valid = false;
    status = status;
  }

  shown-some :
      (o : Option MemEntry) (v : MemEntry) → shown mode o ≡ some v → (e : MemEntry) × (o ≡ some e)
  shown-some none v h = cc
  shown-some (some e) v h = (e, refl)

  module _ (ms : List Table) (k : Key) (e : MemEntry) (s : All IsSorted ms)
      (win : winner none (map source_of ms) ≡ some (k, e)) where
    left_above :
        (j : Key) (v : MemEntry)
        → shown mode (newest j (drop_heads k ms)) ≡ some v
        → key_lt k j ≡ true
    left_above j v h =
        let (x, found) = shown-some (newest j (drop_heads k ms)) v h in
        newest_left k j x ms s (winner-newest ms k e s win).1 found

    shown_here :
        (j : Key)
        → shown mode (newest j ms)
          ≡ (if key_eq k j then shown mode (some e) else shown mode (newest j (drop_heads k ms)))
    shown_here j = elim (Bool-cases (key_eq k j)) [
      | inl same ↦ rw same (
          ap (λ (i : Key). shown mode (newest i ms)) (sym ((key_eq_iff k j).0 same))
          ∙ ap (shown mode) (winner-newest ms k e s win).0)
      | inr other ↦ rw other (
          ap (shown mode) (
            sym (
              newest-drop_heads k j ms s (winner-newest ms k e s win).1
              ∙ ap (λ (b : Bool). if b then none else newest j ms) other)))
    ]

    rows_drop : all_rows_left (map source_of (drop_heads k ms)) < all_rows_left (map source_of ms)
    rows_drop =
        all_rows_fewer k ms e s (winner-newest ms k e s win).1 (winner-newest ms k e s win).0

    -- A round that ends on its winner.
    stop :
        (status : Status)
        → (not e.tombstone || emits mode) ≡ true
        → OnRow mode ms (record {
          sources = map source_of (drop_heads k ms);
          mode = mode;
          key = k;
          value = if e.tombstone then [] else e.value;
          tombstone = e.tombstone;
          valid = true;
          status = status;
        })
    stop status live = record {
      left = drop_heads k ms;
      valid = refl;
      sources = refl;
      same_mode = refl;
      sorted = drop_heads-IsSorted k ms s;
      fewer = rows_drop;
      above = left_above;
      here = λ j.
          shown_here j
          ∙ ap
              (λ (o : Option MemEntry).
                if key_eq k j then o else shown mode (newest j (drop_heads k ms)))
              (ap (λ (b : Bool). if b then some (clean e) else none) live);
    }

    skipped :
        (not e.tombstone || emits mode) ≡ false
        → (j : Key) → shown mode (newest j ms) ≡ shown mode (newest j (drop_heads k ms))
    skipped dead j = elim (Bool-cases (key_eq k j)) [
      | inl same ↦
          shown_here j
          ∙ ap
              (λ (b : Bool).
                if b then shown mode (some e) else shown mode (newest j (drop_heads k ms)))
              same
          ∙ ap (λ (b : Bool). if b then some (clean e) else none) dead
          ∙ sym (
              ap (shown mode) (
                newest-drop_heads k j ms s (winner-newest ms k e s win).1
                ∙ ap (λ (b : Bool). if b then none else newest j ms) same))
      | inr other ↦
          shown_here j
          ∙ ap
              (λ (b : Bool).
                if b then shown mode (some e) else shown mode (newest j (drop_heads k ms)))
              other
    ]

    -- A round whose winner is skipped.
    go_on :
        (r : Option (MergingIterator × Status))
        → (not e.tombstone || emits mode) ≡ false
        → Next mode (drop_heads k ms) r
        → Next mode ms r
    go_on r dead (it, found, inr end) = (
      it,
      found,
      inr (record { invalid = end.invalid; nothing = λ j. skipped dead j ∙ end.nothing j }),
    )
    go_on r dead (it, found, inl on) = (
      it,
      found,
      inl (record {
        left = on.left;
        valid = on.valid;
        sources = on.sources;
        same_mode = on.same_mode;
        sorted = on.sorted;
        fewer = omega (arith, on.fewer, rows_drop);
        above = on.above;
        here = λ j. skipped dead j ∙ on.here j;
      }),
    )

  advanced_sources :
      (k : Key) (ms : List Table)
      → (advance_all k (map source_of ms)).0 ≡ map source_of (drop_heads k ms)
  advanced_sources k ms = ap (λ (p : List Source × Status). p.0) (advance_all-source_of k ms)

  advanced_ok : (k : Key) (ms : List Table) → (advance_all k (map source_of ms)).1 ≡ ok tt
  advanced_ok k ms = ap (λ (p : List Source × Status). p.1) (advance_all-source_of k ms)

  -- With fuel for each row the search ends, on the next row or at the end.
  pub find_loop-Next :
      (fuel : ℕ) (ms : List Table) (key : Key) (value : List ℕ) (tombstone : Bool) (status : Status)
      → all_rows_left (map source_of ms) < fuel
      → All IsSorted ms
      → Next mode ms (find_loop fuel (before ms key value tombstone status))
  unfolding find_loop
  find_loop-Next zero ms key value tombstone status h s = absurd (omega arith)
  find_loop-Next (suc fuel) ms key value tombstone status h s =
      elim (Option-cases (winner none (map source_of ms))) [
        | inl over ↦ (
          before ms key value tombstone status,
          rw (over, find_loop),
          inr (record { invalid = refl; nothing = λ j. ap (shown mode) (winner-none ms over j) }),
        )
        | inr ((k, e), win) ↦ elim (Bool-cases (not e.tombstone || emits mode)) [
          | inl live ↦ (
            record (before (drop_heads k ms) k (if e.tombstone then [] else e.value) e.tombstone
                status) { valid = true },
            rw (win, advanced_ok k ms, live, find_loop, advanced_sources k ms),
            inl (stop ms k e s win status live),
          )
          | inr dead ↦
              rw (win, advanced_ok k ms, dead, find_loop, advanced_sources k ms)
                (go_on ms k e s win _ dead (
                  find_loop-Next fuel (drop_heads k ms) k (if e.tombstone then [] else e.value)
                    tombstone status (omega (arith, rows_drop ms k e s win))
                    (drop_heads-IsSorted k ms s)))
        ]
      ]
