-- ===== src/SsTable/Layout.antt =====
-- The blocks of a finished table, by its index.
use mathlib.Core.Path.{subst}
use lsm_tree_storage_engine.Prelude.{
  ℕ, ◌≤◌, ◌++◌, ◌<◌, not, All, ◌∷◌, some, false, true, length, arith, ap, ◌^◌, List, none, ◌≡◌, sym,
  [], ◌∙◌, refl, ◌+◌, length-append, append_assoc, Option,
}
use lsm_tree_storage_engine.SsTable.{BlockEntry}
use lsm_tree_storage_engine.SsTable.Table.{not_behind}
use lsm_tree_storage_engine.SsTable.Build.{GoodBlock, flat, all_bytes, index_of}
use lsm_tree_storage_engine.SsTable.Holds.{
  rows_of, all_rows, block_bytes, HoldsBlocks, rows_of-append, length-rows_of,
}
use lsm_tree_storage_engine.SsTable.Index.{GoodIndex}
use lsm_tree_storage_engine.Key.{Key, key_lt}
use lsm_tree_storage_engine.SsTable.Blocks.{CanAdd, all_entries}
use lsm_tree_storage_engine.Crc.{Zlib, crc32_of}
use lsm_tree_storage_engine.Merge.Pick.{Table}
use lsm_tree_storage_engine.Encoding.Cursor.{At, subspan-At, At-append_skip}
use lsm_tree_storage_engine.SortedMap.{IsSorted, Above}
use lsm_tree_storage_engine.SortedMap.Append.{last_of, Above-left, IsSorted-right, Above-last}
use lsm_tree_storage_engine.Encoding.{IsU32, le32}

pub all_rows-flat : (cs : List (List BlockEntry)) → all_rows cs ≡ rows_of (flat cs)
all_rows-flat [] = refl
all_rows-flat (c ∷ cs) =
    ap (λ m. rows_of c ++ m) (all_rows-flat cs) ∙ sym (rows_of-append c (flat cs))

-- The last key of a block is one of its keys.
last_of-CanAdd :
    (c : List BlockEntry)
    → 0 < length c
    → All CanAdd c
    → (0 < length (last_of (rows_of c))) × IsU32 (length (last_of (rows_of c)))
last_of-CanAdd [] h can = absurd (omega arith)
last_of-CanAdd (e ∷ []) h can = (can.0.has_key, can.0.key_u32)
last_of-CanAdd (e ∷ d ∷ c) h can = last_of-CanAdd (d ∷ c) (omega arith) can.1

Above-last_of : (k : Key) (m : Table) → 0 < length m → Above k m → key_lt k (last_of m) ≡ true
Above-last_of k [] h a = absurd (omega arith)
Above-last_of k ((j, v) ∷ []) h a = a.0
Above-last_of k ((j, v) ∷ e ∷ m) h a = Above-last_of k (e ∷ m) (omega arith) a.1

abbrev pub AboveOpt : Option Key → Table → Type 0
AboveOpt none m = Unit
AboveOpt (some k) m = Above k m

AboveOpt-last :
    (last : Option Key) (m n : Table)
    → 0 < length m
    → AboveOpt last (m ++ n)
    → not_behind last (last_of m) ≡ false
AboveOpt-last none m n h a = refl
AboveOpt-last (some k) m n h a = ap not (Above-last_of k m h (Above-left k m n a))

module _ (z : Zlib) where
  pub index_of-GoodIndex :
      (at region : ℕ) (last : Option Key) (cs : List (List BlockEntry))
      → All GoodBlock cs
      → IsSorted (all_rows cs)
      → AboveOpt last (all_rows cs)
      → at + length (all_bytes z cs) ≤ region
      → region < 2 ^ 64
      → GoodIndex region last (index_of z at cs)
  index_of-GoodIndex at region last [] good s a room small = tt
  index_of-GoodIndex at region last (c ∷ cs) good s a room small =
      let size = length-append (block_bytes z c) (all_bytes z cs) in
      let size' = length-append (all_entries c) (le32 (crc32_of z (all_entries c))) in
      let key = last_of-CanAdd c good.0.filled good.0.can in
      let some_row : 0 < length (rows_of c) = omega (arith, length-rows_of c, good.0.filled) in
      (
        record {
          has_key = key.0;
          key_u32 = key.1;
          offset_u64 = omega (arith, room, small);
          size_u32 = omega (arith, good.0.small, size');
          trailer = omega (arith, size');
          inside = omega (arith, room, size);
        },
        (
          AboveOpt-last last (rows_of c) (all_rows cs) some_row a,
          index_of-GoodIndex (at + length (block_bytes z c)) region (some (last_of (rows_of c))) cs
              good.1 (IsSorted-right (rows_of c) (all_rows cs) s)
              (Above-last (rows_of c) (all_rows cs) some_row s) (omega (arith, room, size)) small,
        ),
      )

  pub index_of-HoldsBlocks :
      (file : List ℕ) (at : ℕ) (back : List ℕ) (cs : List (List BlockEntry))
      → All GoodBlock cs
      → At file at (all_bytes z cs ++ back)
      → at + length (all_bytes z cs) ≤ length file
      → HoldsBlocks z file (index_of z at cs) cs
  index_of-HoldsBlocks file at back [] good a room = tt
  index_of-HoldsBlocks file at back (c ∷ cs) good a room =
      let size = length-append (block_bytes z c) (all_bytes z cs) in
      let here : At file at (block_bytes z c ++ (all_bytes z cs ++ back)) =
        subst (At file at) (append_assoc (block_bytes z c) (all_bytes z cs) back) a in
      (
        record {
          inside = omega (arith, room, size);
          content = subspan-At (block_bytes z c) (all_bytes z cs ++ back) here;
          filled = good.0.filled;
          can = good.0.can;
          last = refl;
        },
        index_of-HoldsBlocks file (at + length (block_bytes z c)) back cs good.1
            (At-append_skip (block_bytes z c) (all_bytes z cs ++ back) here)
            (omega (arith, room, size)),
      )

  pub length-index_of :
      (at : ℕ) (cs : List (List BlockEntry)) → length (index_of z at cs) ≡ length cs
  length-index_of at [] = refl
  length-index_of at (c ∷ cs) = omega (arith, length-index_of (at + length (block_bytes z c)) cs)
