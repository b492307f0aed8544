-- ===== src/SsTable/Find.antt =====
-- `SSTable::lookup` on a table that holds its rows.
use mathlib.Core.Path.{subst}
use lsm_tree_storage_engine.Prelude.{
  ℕ, ◌⊎◌, false, ◌==◌, get_or, ok, true, ◌+◌, ◌≡◌, refl, bind-ok, arith, Option, List, ◌∙◌, ◌∷◌,
  ◌<◌, inr, [], ==_iff, suc, ap, sym, Bool-cases, length, some, none, inl, if◌then◌else◌,
}
use lsm_tree_storage_engine.SsTable.{BlockEntry, IndexEntry}
use lsm_tree_storage_engine.SsTable.Table.{
  SsTable, Lookup, not_present, deleted, found, answer_in, find_block, look_in_block, lookup,
  may_hold,
}
use lsm_tree_storage_engine.SsTable.Holds.{
  HoldsBlock, HoldsBlocks, Holds, rows_of, all_rows, no_entry, read_block_raw-HoldsBlock,
  parsed-HoldsBlock, length-rows_of,
}
use lsm_tree_storage_engine.SortedMap.{find, IsSorted}
use lsm_tree_storage_engine.SortedMap.Laws.{find-Above}
use lsm_tree_storage_engine.Crc.{Zlib}
use lsm_tree_storage_engine.Memtable.{MemEntry}
use lsm_tree_storage_engine.Key.{Key, key_lt, key_eq, key_eq_iff, key_lt_irrefl}
use lsm_tree_storage_engine.SortedMap.Append.{
  IsSorted-left, find-append-Below, Below-last, Above-le, find-append-Above, last_of, Above-last,
  IsSorted-right,
}

-- What a lookup answers of a key's entry.
abbrev pub answer : Option MemEntry → Lookup
answer none = not_present
answer (some e) = if e.tombstone then deleted else found e.value

answer_in-find :
    (k : Key) (es : List BlockEntry)
    → IsSorted (rows_of es)
    → answer_in k es ≡ answer (find k (rows_of es))
unfolding answer_in find
answer_in-find k [] s = refl
answer_in-find k (e ∷ es) s = elim (Bool-cases (key_lt e.key k)) [
  | inl below ↦
      let other : key_eq e.key k ≡ false =
        ground (arith, below, key_eq_iff e.key k, key_lt_irrefl k) in
      rw (below, other) (answer_in-find k es s.1)
  | inr from ↦ elim (Bool-cases (key_eq e.key k)) [
    | inl here ↦ rw (from, here) refl
    | inr past ↦
        rw (from, past)
          (sym (ap answer (find-Above k (rows_of es) (Above-le k e.key (rows_of es) from s.0))))
  ]
]

-- Where the search over the index ends, and what it says of the rows.
data Searched (z : Zlib) (file : List ℕ) (i : ℕ) (k : Key) (es : List IndexEntry)
    (bs : List (List BlockEntry)) : Type 0 where
  nowhere : find_block i k es ≡ none → find k (all_rows bs) ≡ none → Searched z file i k es bs
  in_block :
      (j : ℕ) (b : List BlockEntry)
      → find_block i k es ≡ some (i + j)
      → j < length es
      → HoldsBlock z file (get_or es j no_entry) b
      → IsSorted (rows_of b)
      → find k (all_rows bs) ≡ find k (rows_of b)
      → Searched z file i k es bs

module _ (z : Zlib) (file : List ℕ) (k : Key) where
  find_block-Searched :
      (i : ℕ) (es : List IndexEntry) (bs : List (List BlockEntry))
      → HoldsBlocks z file es bs
      → IsSorted (all_rows bs)
      → Searched z file i k es bs
  unfolding find_block find
  find_block-Searched i [] [] h s = nowhere refl refl
  find_block-Searched i [] (b ∷ bs) h s = absurd h
  find_block-Searched i (e ∷ es) [] h s = absurd h
  find_block-Searched i (e ∷ es) (b ∷ bs) h s =
      by_last (Bool-cases (key_lt e.key k))
        (find_block-Searched (i + 1) es bs h.1 (IsSorted-right (rows_of b) (all_rows bs) s))
    where
      mine : IsSorted (rows_of b)
      mine = IsSorted-left (rows_of b) (all_rows bs) s

      later :
          key_lt e.key k ≡ true
          → Searched z file (i + 1) k es bs
          → Searched z file i k (e ∷ es) (b ∷ bs)
      later below (nowhere p q) = nowhere (rw below p) (
          find-append-Below k (rows_of b) (all_rows bs)
            (Below-last k (rows_of b) mine (subst (λ (x : Key). key_lt x k ≡ true) h.0.last below))
          ∙ q)
      later below (in_block j c p lt holds sorted q) =
          in_block (suc j) c (rw below (p ∙ ap some (omega arith))) (omega arith) holds sorted (
            find-append-Below k (rows_of b) (all_rows bs) (
              Below-last k (rows_of b) mine (subst (λ (x : Key). key_lt x k ≡ true) h.0.last below))
            ∙ q)

      by_last :
          (key_lt e.key k ≡ true) ⊎ (key_lt e.key k ≡ false)
          → Searched z file (i + 1) k es bs
          → Searched z file i k (e ∷ es) (b ∷ bs)
      by_last (inl below) rest = later below rest
      by_last (inr from) rest =
          in_block 0 b (rw from (ap some (omega arith))) (omega arith) h.0 mine (
            find-append-Above k (rows_of b) (all_rows bs) (
              Above-le k (last_of (rows_of b)) (all_rows bs)
                (subst (λ (x : Key). key_lt x k ≡ false) h.0.last from)
                (Above-last (rows_of b) (all_rows bs) (omega (arith, length-rows_of b, h.0.filled))
                  s)))

module _ (z : Zlib) (t : SsTable) (bs : List (List BlockEntry)) (holds : Holds z t bs)
    (k : Key) where
  look_in_block-Searched :
      Searched z t.file 0 k t.index bs
      → look_in_block z t k (find_block 0 k t.index) ≡ ok (answer (find k (all_rows bs)))
  unfolding look_in_block
  look_in_block-Searched (nowhere p q) =
      ap (look_in_block z t k) p ∙ ap (λ (o : Option MemEntry). ok (answer o)) (sym q)
  look_in_block-Searched (in_block j b p lt h sorted q) =
      ap (look_in_block z t k) (p ∙ ap some (omega arith))
      ∙ bind-ok _ _ (read_block_raw-HoldsBlock z t j b lt h) (
          bind-ok _ _ (parsed-HoldsBlock z t b h.can)
            (ap ok (answer_in-find k b sorted ∙ ap answer (sym q))))

  nothing : find k (all_rows bs) ≡ none → ok not_present ≡ ok (answer (find k (all_rows bs)))
  nothing e = ap (λ (o : Option MemEntry). ok (answer o)) (sym e)

  empty_index :
      (es : List IndexEntry) (cs : List (List BlockEntry))
      → HoldsBlocks z t.file es cs
      → length es ≡ 0
      → find k (all_rows cs) ≡ none
  unfolding find
  empty_index [] [] h e = refl
  empty_index [] (c ∷ cs) h e = absurd h
  empty_index (x ∷ es) cs h e = absurd (omega (arith, e))

  -- A lookup in a table that holds its rows answers with the row of the key: its value, that it is
  -- deleted, or that it is not there.
  pub lookup-Holds : lookup z t k ≡ ok (answer (find k (all_rows bs)))
  unfolding lookup
  lookup-Holds = elim (Bool-cases (length t.index == 0)) [
    | inl empty ↦ rw empty (nothing (empty_index t.index bs holds.blocks ((==_iff _ _).0 empty)))
    | inr some_block ↦ elim (Bool-cases (key_lt k t.min_key)) [
      | inl low ↦ rw (some_block, low) (nothing (holds.low k low))
      | inr from ↦ elim (Bool-cases (key_lt t.max_key k)) [
        | inl high ↦ rw (some_block, from, high) (nothing (holds.high k high))
        | inr to ↦ elim (Bool-cases (may_hold t.bloom_enabled t.filter k)) [
          | inl maybe ↦
              rw (some_block, from, to, maybe)
                (look_in_block-Searched
                  (find_block-Searched z t.file k 0 t.index bs holds.blocks holds.sorted))
          | inr never ↦ rw (some_block, from, to, never) (nothing (holds.filtered k never))
        ]
      ]
    ]
  ]
