-- ===== src/Lsm/Tables.antt =====
-- What the tables of a level set hold, and what is asked of the levels below the first.
use lsm_tree_storage_engine.Prelude.{
  ℕ, List, err, ◌∷◌, Result, ok, ◌≡◌, arith, false, none, some, Bool-cases, true, Option, [], ◌∙◌,
  not_found, ap, inl, inr, sym, drop, refl,
}
use lsm_tree_storage_engine.Crc.{Zlib}
use lsm_tree_storage_engine.Key.{Key, key_lt, key_le_lt_trans}
use lsm_tree_storage_engine.Memtable.{MemEntry}
use lsm_tree_storage_engine.Merge.Pick.{Table, newest}
use lsm_tree_storage_engine.SortedMap.{find}
use lsm_tree_storage_engine.SsTable.{BlockEntry}
use lsm_tree_storage_engine.SsTable.Table.{SsTable, lookup}
use lsm_tree_storage_engine.SsTable.Holds.{Holds, all_rows}
use lsm_tree_storage_engine.SsTable.Find.{answer, lookup-Holds}
use lsm_tree_storage_engine.Lsm.{
  Levels, find_in_level, ask, ask_level0, ask_candidate, ask_below, ask_levels, or_ask,
}

-- A loaded table and the rows that it holds.
pub record HoldsRows (z : Zlib) (t : SsTable) (m : Table) : Type 0 where
  pub blocks : List (List BlockEntry)
  pub holds : Holds z t blocks
  pub same : all_rows blocks ≡ m

abbrev pub LevelHolds : Zlib → List SsTable → List Table → Type 0
LevelHolds z [] [] = Unit
LevelHolds z [] (m ∷ ms) = ⊥
LevelHolds z (t ∷ ts) [] = ⊥
LevelHolds z (t ∷ ts) (m ∷ ms) = HoldsRows z t m × LevelHolds z ts ms

abbrev pub LevelsHold : Zlib → Levels → List (List Table) → Type 0
LevelsHold z [] [] = Unit
LevelsHold z [] (ms ∷ mss) = ⊥
LevelsHold z (level ∷ levels) [] = ⊥
LevelsHold z (level ∷ levels) (ms ∷ mss) = LevelHolds z level ms × LevelsHold z levels mss

-- Every table begins behind a key.
abbrev pub BeginsBehind : Key → List SsTable → Type 0
BeginsBehind k [] = Unit
BeginsBehind k (t ∷ ts) = (key_lt k t.min_key ≡ true) × BeginsBehind k ts

-- The tables of a level below the first: disjoint and in order.
abbrev pub IsDisjoint : List SsTable → Type 0
IsDisjoint [] = Unit
IsDisjoint (t ∷ ts) = BeginsBehind t.max_key ts × IsDisjoint ts

abbrev pub AllDisjoint : Levels → Type 0
AllDisjoint [] = Unit
AllDisjoint (level ∷ levels) = IsDisjoint level × AllDisjoint levels

-- The entry, or else what is older.
abbrev pub or_older : Option MemEntry → Option MemEntry → Option MemEntry
or_older none older = older
or_older (some e) older = some e

or_older-none : (o : Option MemEntry) → or_older o none ≡ o
or_older-none none = refl
or_older-none (some e) = refl

pub newest-nil : (k : Key) → newest k [] ≡ none
unfolding newest
newest-nil k = refl

pub newest-cons :
    (k : Key) (m : Table) (ms : List Table) → newest k (m ∷ ms) ≡ or_older (find k m) (newest k ms)
unfolding newest
newest-cons k m ms = by_found (find k m)
  where
    by_found :
        (o : Option MemEntry)
        → elim o [ some e ↦ some e | none ↦ newest k ms ] ≡ or_older o (newest k ms)
    by_found none = refl
    by_found (some e) = refl

-- The newest entry of a key in a level set, the first level first.
abbrev pub newest_in : Key → List (List Table) → Option MemEntry
newest_in k [] = none
newest_in k (ms ∷ mss) = or_older (newest k ms) (newest_in k mss)

module _ (z : Zlib) (k : Key) where
  pub lookup-HoldsRows :
      (t : SsTable) (m : Table) → HoldsRows z t m → lookup z t k ≡ ok (answer (find k m))
  lookup-HoldsRows t m h =
      lookup-Holds z t h.blocks h.holds k ∙ ap (λ (m : Table). ok (answer (find k m))) h.same

  find-low :
      (t : SsTable) (m : Table) → HoldsRows z t m → key_lt k t.min_key ≡ true → find k m ≡ none
  find-low t m h low = ap (find k) (sym h.same) ∙ h.holds.low k low

  find-high :
      (t : SsTable) (m : Table) → HoldsRows z t m → key_lt t.max_key k ≡ true → find k m ≡ none
  find-high t m h high = ap (find k) (sym h.same) ∙ h.holds.high k high

  ask-answer :
      (o : Option MemEntry) (rest : Result (List ℕ)) → ask (ok (answer o)) rest ≡ or_ask o rest
  ask-answer none rest = refl
  ask-answer (some e) rest = ground arith

  pub or_ask-or_older :
      (o p : Option MemEntry) (rest : Result (List ℕ))
      → or_ask o (or_ask p rest) ≡ or_ask (or_older o p) rest
  or_ask-or_older none p rest = refl
  or_ask-or_older (some e) p rest = refl

  ask_level0-newest :
      (ts : List SsTable) (ms : List Table) (rest : Result (List ℕ))
      → LevelHolds z ts ms
      → ask_level0 z k ts rest ≡ or_ask (newest k ms) rest
  unfolding ask_level0 newest
  ask_level0-newest [] [] rest h = refl
  ask_level0-newest [] (m ∷ ms) rest h = absurd h
  ask_level0-newest (t ∷ ts) [] rest h = absurd h
  ask_level0-newest (t ∷ ts) (m ∷ ms) rest h =
      ap (λ r. ask r (ask_level0 z k ts rest)) (lookup-HoldsRows t m h.0)
      ∙ ask-answer (find k m) (ask_level0 z k ts rest)
      ∙ ap (or_ask (find k m)) (ask_level0-newest ts ms rest h.1)
      ∙ or_ask-or_older (find k m) (newest k ms) rest
      ∙ ap (λ (o : Option MemEntry). or_ask o rest) (sym (newest-cons k m ms))

  -- No table of a level that begins behind the key has it.
  newest-behind :
      (j : Key) (ts : List SsTable) (ms : List Table)
      → LevelHolds z ts ms
      → key_lt j k ≡ false
      → BeginsBehind j ts
      → newest k ms ≡ none
  unfolding newest
  newest-behind j [] [] h from behind = refl
  newest-behind j [] (m ∷ ms) h from behind = absurd h
  newest-behind j (t ∷ ts) [] h from behind = absurd h
  newest-behind j (t ∷ ts) (m ∷ ms) h from behind =
      newest-cons k m ms
      ∙ ap (λ (o : Option MemEntry). or_older o (newest k ms))
          (find-low t m h.0 (key_le_lt_trans k j t.min_key from behind.0))
      ∙ newest-behind j ts ms h.1 from behind.1

  -- Below the first level one table is asked, and it is the one that can have the key.
  find_in_level-newest :
      (ts : List SsTable) (ms : List Table) (rest : Result (List ℕ))
      → LevelHolds z ts ms
      → IsDisjoint ts
      → ask_candidate z k (find_in_level ts k) rest ≡ or_ask (newest k ms) rest
  unfolding find_in_level
  find_in_level-newest [] [] rest h d =
      ap (λ (o : Option MemEntry). or_ask o rest) (sym (newest-nil k))
  find_in_level-newest [] (m ∷ ms) rest h d = absurd h
  find_in_level-newest (t ∷ ts) [] rest h d = absurd h
  find_in_level-newest (t ∷ ts) (m ∷ ms) rest h d = elim (Bool-cases (key_lt t.max_key k)) [
    | inl high ↦ rw high (
        find_in_level-newest ts ms rest h.1 d.1
        ∙ ap (λ (o : Option MemEntry). or_ask o rest)
            (sym (newest-at none (newest k ms) (find-high t m h.0 high) refl)))
    | inr to ↦ elim (Bool-cases (key_lt k t.min_key)) [
      | inl low ↦
          rw (to, low)
            (ap (λ (o : Option MemEntry). or_ask o rest)
              (sym (
                newest-at none none (find-low t m h.0 low)
                  (newest-behind t.max_key ts ms h.1 to d.0))))
      | inr from ↦
          rw (to, from)
            (ap (λ r. ask r rest) (lookup-HoldsRows t m h.0)
              ∙ ask-answer (find k m) rest
              ∙ ap (λ (o : Option MemEntry). or_ask o rest)
                  (sym (
                    newest-at (find k m) none refl (newest-behind t.max_key ts ms h.1 to d.0)
                    ∙ or_older-none (find k m))))
    ]
  ]
    where
      newest-at :
          (o p : Option MemEntry)
          → find k m ≡ o
          → newest k ms ≡ p
          → newest k (m ∷ ms) ≡ or_older o p
      newest-at o p e f = newest-cons k m ms ∙ λ i. or_older (e i) (f i)

  ask_below-newest :
      (levels : Levels) (mss : List (List Table))
      → LevelsHold z levels mss
      → AllDisjoint levels
      → ask_below z k levels ≡ or_ask (newest_in k mss) (err not_found)
  unfolding ask_below
  ask_below-newest [] [] h d = refl
  ask_below-newest [] (ms ∷ mss) h d = absurd h
  ask_below-newest (ts ∷ levels) [] h d = absurd h
  ask_below-newest (ts ∷ levels) (ms ∷ mss) h d =
      find_in_level-newest ts ms (ask_below z k levels) h.0 d.0
      ∙ ap (or_ask (newest k ms)) (ask_below-newest levels mss h.1 d.1)
      ∙ or_ask-or_older (newest k ms) (newest_in k mss) (err not_found)

  pub ask_levels-newest :
      (levels : Levels) (mss : List (List Table))
      → LevelsHold z levels mss
      → AllDisjoint (drop 1 levels)
      → ask_levels z k levels ≡ or_ask (newest_in k mss) (err not_found)
  unfolding ask_levels
  ask_levels-newest [] [] h d = refl
  ask_levels-newest [] (ms ∷ mss) h d = absurd h
  ask_levels-newest (ts ∷ levels) [] h d = absurd h
  ask_levels-newest (ts ∷ levels) (ms ∷ mss) h d =
      ask_level0-newest ts ms (ask_below z k levels) h.0
      ∙ ap (or_ask (newest k ms)) (ask_below-newest levels mss h.1 d)
      ∙ or_ask-or_older (newest k ms) (newest_in k mss) (err not_found)
