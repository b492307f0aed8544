-- ===== src/SsTable/Holds.antt =====
-- What a loaded table's file and index hold: its entries, cut into blocks.
use lsm_tree_storage_engine.Prelude.{
  ℕ, ◌<◌, bind-ok, ==_refl, [], none, List, ◌≡◌, Bool, zero, true, All, length-append, ◌>>◌,
  reject_if, corruption, ◌==◌, arith, not, get_or, ◌≤◌, ap, take-append_eq, ◌∙◌, ◌++◌, reject-pass,
  take, length, false, ◌-◌, refl, ◌+◌, suc, leb, ok, ◌∷◌,
}
use lsm_tree_storage_engine.Encoding.{get_u32, subspan, le32}
use lsm_tree_storage_engine.Encoding.RoundTrip.{get_u32-append}
use lsm_tree_storage_engine.SsTable.{BlockEntry, IndexEntry, parse_block}
use lsm_tree_storage_engine.SsTable.Table.{
  SsTable, read_at, check_trailer, read_block_raw, parsed, may_hold,
}
use lsm_tree_storage_engine.Merge.Pick.{Table}
use lsm_tree_storage_engine.SortedMap.{IsSorted, find}
use lsm_tree_storage_engine.Crc.{Zlib, crc32_of, crc32_of-lt}
use lsm_tree_storage_engine.Key.{Key, key_lt}
use lsm_tree_storage_engine.Memtable.{MemEntry}
use lsm_tree_storage_engine.SsTable.Blocks.{all_entries, CanAdd, parse_block-all_entries}
use lsm_tree_storage_engine.SortedMap.Append.{last_of}

abbrev pub row_of : BlockEntry → Key × MemEntry
row_of e = (e.key, record { value = e.value; tombstone = e.tombstone })

abbrev pub rows_of : List BlockEntry → Table
rows_of [] = []
rows_of (e ∷ es) = row_of e ∷ rows_of es

abbrev pub all_rows : List (List BlockEntry) → Table
all_rows [] = []
all_rows (b ∷ bs) = rows_of b ++ all_rows bs

-- A payload with its crc behind it.
abbrev pub with_trailer : Zlib → List ℕ → List ℕ
with_trailer z payload = payload ++ le32 (crc32_of z payload)

abbrev pub block_bytes : Zlib → List BlockEntry → List ℕ
block_bytes z b = with_trailer z (all_entries b)

abbrev pub no_entry : IndexEntry
no_entry = record { key = []; block_offset = 0; block_size = 0 }

-- An index entry names a block of the file.
pub record HoldsBlock (z : Zlib) (file : List ℕ) (e : IndexEntry) (b : List BlockEntry)
    : Type 0 where
  pub inside : e.block_offset + e.block_size ≤ length file
  pub content : subspan file e.block_offset e.block_size ≡ block_bytes z b
  pub filled : 0 < length b
  pub can : All CanAdd b
  pub last : e.key ≡ last_of (rows_of b)

abbrev pub HoldsBlocks : Zlib → List ℕ → List IndexEntry → List (List BlockEntry) → Type 0
HoldsBlocks z file [] [] = Unit
HoldsBlocks z file [] (b ∷ bs) = ⊥
HoldsBlocks z file (e ∷ es) [] = ⊥
HoldsBlocks z file (e ∷ es) (b ∷ bs) = HoldsBlock z file e b × HoldsBlocks z file es bs

-- A table holds sorted rows: its index names their blocks, its smallest and largest key bound them, and
-- its filter misses none of them.
pub record Holds (z : Zlib) (t : SsTable) (bs : List (List BlockEntry)) : Type 0 where
  pub blocks : HoldsBlocks z t.file t.index bs
  pub sorted : IsSorted (all_rows bs)
  pub low : (k : Key) → key_lt k t.min_key ≡ true → find k (all_rows bs) ≡ none
  pub high : (k : Key) → key_lt t.max_key k ≡ true → find k (all_rows bs) ≡ none
  pub filtered :
      (k : Key) → may_hold t.bloom_enabled t.filter k ≡ false → find k (all_rows bs) ≡ none

pub rows_of-append : (es fs : List BlockEntry) → rows_of (es ++ fs) ≡ rows_of es ++ rows_of fs
rows_of-append [] fs = refl
rows_of-append (e ∷ es) fs = ap (λ m. row_of e ∷ m) (rows_of-append es fs)

pub length-rows_of : (es : List BlockEntry) → length (rows_of es) ≡ length es
length-rows_of [] = refl
length-rows_of (e ∷ es) = omega (arith, length-rows_of es)

pub check_trailer-with_trailer :
    (z : Zlib) (payload : List ℕ) → check_trailer z (with_trailer z payload) ≡ ok payload
unfolding check_trailer
check_trailer-with_trailer z payload =
    let crc = crc32_of z payload in
    let raw = with_trailer z payload in
    let size : length raw - 4 ≡ length payload = omega (arith, length-append payload (le32 crc)) in
    let taken : take (length payload) raw ≡ payload =
      take-append_eq (length payload) payload (le32 crc) refl in
    ap
      (λ (n : ℕ).
        reject_if (not (get_u32 raw n == crc32_of z (take n raw))) corruption >> ok (take n raw))
      size
    ∙ reject-pass _ _ _
        (ap (λ (n : ℕ). not (n == crc32_of z (take (length payload) raw)))
            (get_u32-append payload [] crc (length payload) refl (crc32_of-lt z payload))
          ∙ ap (λ (t : List ℕ). not (crc == crc32_of z t)) taken
          ∙ ap not (==_refl crc))
        (ap ok taken)

-- A read inside the file is a part of it, in both modes.
pub read_at-inside :
    (mapped : Bool) (file : List ℕ) (offset size : ℕ)
    → offset + size ≤ length file
    → read_at mapped file offset size ≡ ok (subspan file offset size)
unfolding read_at
read_at-inside true file offset size h = ground (arith, h)
read_at-inside false file offset zero h = refl
read_at-inside false file offset (suc n) h = ground (arith, h)

module _ (z : Zlib) (t : SsTable) where
  pub read_block_raw-HoldsBlock :
      (i : ℕ) (b : List BlockEntry)
      → i < length t.index
      → HoldsBlock z t.file (get_or t.index i no_entry) b
      → read_block_raw z t i ≡ ok (all_entries b)
  unfolding read_block_raw
  read_block_raw-HoldsBlock i b h holds =
      let e = get_or t.index i no_entry in
      reject-pass (leb (length t.index) i) _ _ (ground (arith, h)) (
        bind-ok _ _
          (read_at-inside t.mapped t.file e.block_offset e.block_size holds.inside
            ∙ ap ok holds.content)
          (check_trailer-with_trailer z (all_entries b)))

  pub parsed-HoldsBlock :
      (b : List BlockEntry) → All CanAdd b → parsed (parse_block (all_entries b)) ≡ ok b
  parsed-HoldsBlock b can = ap parsed (parse_block-all_entries b can)
