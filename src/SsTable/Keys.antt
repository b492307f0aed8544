-- ===== src/SsTable/Keys.antt =====
-- src/sstable.cpp: the smallest and the largest key of a table, as `load` finds them.
use mathlib.Core.Path.{subst}
use lsm_tree_storage_engine.Prelude.{
  ℕ, List, not, length, append-nil, get_or, arith, sym, ◌∷◌, false, ok, ◌++◌, [], ◌≡◌, ◌+◌, refl,
  ◌==◌, All, length-append, ap, reject-pass, true, ◌<◌, ◌∙◌, none, bind-ok,
}
use lsm_tree_storage_engine.Crc.{Zlib}
use lsm_tree_storage_engine.Key.{Key, key_lt, key_lt_asymm}
use lsm_tree_storage_engine.Merge.Pick.{Table}
use lsm_tree_storage_engine.SortedMap.{IsSorted, find}
use lsm_tree_storage_engine.SortedMap.Append.{last_of, Above-le, find-behind_last}
use lsm_tree_storage_engine.SortedMap.Laws.{find-Above}
use lsm_tree_storage_engine.SsTable.{BlockEntry, IndexEntry}
use lsm_tree_storage_engine.SsTable.Table.{SsTable, load_keys, last_index_key, may_hold}
use lsm_tree_storage_engine.SsTable.Build.{GoodBlock, flat, index_of}
use lsm_tree_storage_engine.SsTable.Holds.{
  HoldsBlock, HoldsBlocks, Holds, all_rows, rows_of, no_entry, read_block_raw-HoldsBlock,
  parsed-HoldsBlock, length-rows_of, block_bytes, row_of,
}

last_of-append : (m n : Table) → 0 < length n → last_of (m ++ n) ≡ last_of n
last_of-append [] n h = refl
last_of-append ((k, v) ∷ []) [] h = absurd (omega arith)
last_of-append ((k, v) ∷ []) (e ∷ n) h = refl
last_of-append ((k, v) ∷ e ∷ m) n h = last_of-append (e ∷ m) n h

some_rows :
    (c : List BlockEntry) (cs : List (List BlockEntry))
    → GoodBlock c
    → 0 < length (all_rows (c ∷ cs))
some_rows c cs good =
    omega (arith, length-append (rows_of c) (all_rows cs), length-rows_of c, good.filled)

last_index_key-index_of :
    (z : Zlib) (at : ℕ) (cs : List (List BlockEntry))
    → All GoodBlock cs
    → last_index_key (index_of z at cs) ≡ last_of (all_rows cs)
last_index_key-index_of z at [] good = refl
last_index_key-index_of z at (c ∷ []) good =
    ap (λ (m : Table). last_of m) (sym (append-nil (rows_of c)))
last_index_key-index_of z at (c ∷ d ∷ cs) good =
    last_index_key-index_of z (at + length (block_bytes z c)) (d ∷ cs) good.1
    ∙ sym (last_of-append (rows_of c) (all_rows (d ∷ cs)) (some_rows d cs good.1.0))

module _ (z : Zlib) (file : List ℕ) where
  first-HoldsBlock :
      (index : List IndexEntry) (c : List BlockEntry) (cs : List (List BlockEntry))
      → HoldsBlocks z file index (c ∷ cs)
      → (0 < length index) × HoldsBlock z file (get_or index 0 no_entry) c
  first-HoldsBlock [] c cs h = absurd h
  first-HoldsBlock (e ∷ index) c cs h = (omega arith, h.0)

below-first :
    (k : Key) (e : BlockEntry) (m : Table)
    → IsSorted (row_of e ∷ m)
    → key_lt k e.key ≡ true
    → find k (row_of e ∷ m) ≡ none
below-first k e m sorted h =
    find-Above k (row_of e ∷ m) (h, Above-le k e.key m (key_lt_asymm k e.key h) sorted.0)

-- What `load` has before it looks for the keys, and what it leaves.
module _ (z : Zlib) (t : SsTable) where
  pub load_keys-Holds :
      (cs : List (List BlockEntry))
      → All GoodBlock cs
      → t.index ≡ index_of z 0 cs
      → HoldsBlocks z t.file t.index cs
      → IsSorted (all_rows cs)
      → ((k : Key) → may_hold t.bloom_enabled t.filter k ≡ false → find k (all_rows cs) ≡ none)
      → t.footer.entry_count ≡ length (flat cs)
      → (t' : SsTable) × (load_keys z t ≡ ok t') × Holds z t' cs
  unfolding load_keys find
  load_keys-Holds [] good same holds sorted filtered count = (
    t,
    rw (ap (λ (es : List IndexEntry). length es == 0) same)
        (reject-pass (not (t.footer.entry_count == 0)) _ _ (ap (λ n. not (n == 0)) count) refl),
    record {
      blocks = holds;
      sorted = sorted;
      low = λ k h. refl;
      high = λ k h. refl;
      filtered = λ k h. refl;
    },
  )
  load_keys-Holds ([] ∷ cs) good same holds sorted filtered count =
      absurd (omega (arith, good.0.filled))
  load_keys-Holds ((e ∷ c) ∷ cs) good same holds sorted filtered count =
      let (some_block, first) = first-HoldsBlock z t.file t.index (e ∷ c) cs holds in
      let here : (length t.index == 0) ≡ false = ground (arith, some_block) in
      let last = ap last_index_key same ∙ last_index_key-index_of z 0 ((e ∷ c) ∷ cs) good in
      (
        record t { max_key = last_index_key t.index; min_key = e.key },
        rw here (
            bind-ok _ _ (read_block_raw-HoldsBlock z t 0 (e ∷ c) some_block first)
              (bind-ok _ _ (parsed-HoldsBlock z t (e ∷ c) good.0.can) refl)),
        record {
          blocks = holds;
          sorted = sorted;
          low = λ k h. below-first k e (rows_of c ++ all_rows cs) sorted h;
          high = λ k h.
              find-behind_last k (all_rows ((e ∷ c) ∷ cs)) sorted
                (subst (λ (x : Key). key_lt x k ≡ true) last h);
          filtered = filtered;
        },
      )
