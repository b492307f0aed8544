-- ===== src/SsTable/Open.antt =====
-- src/sstable.cpp: `load` on the file that `finish` leaves.
use mathlib.Core.Path.{subst}
use lsm_tree_storage_engine.Prelude.{
  ℕ, List, Option, ltb-false, length, append-nil, some, Bool, ◌^◌, ◌-◌, sym, ◌∷◌, arith, false,
  ◌||◌, ok, ◌++◌, [], inl, ◌≡◌, ◌+◌, ltb, refl, All, ◌==◌, length-append, ap, append_assoc,
  reject-pass, inr, Bool-cases, true, ◌<◌, ◌∙◌, none, bind-ok,
}
use lsm_tree_storage_engine.Crc.{Zlib, crc32_of}
use lsm_tree_storage_engine.Key.{Key, key_eq, key_eq_iff}
use lsm_tree_storage_engine.Memtable.{MemEntry}
use lsm_tree_storage_engine.Encoding.{subspan, le32}
use lsm_tree_storage_engine.Encoding.Cursor.{At, At-append, subspan-At}
use lsm_tree_storage_engine.SortedMap.{IsSorted, find}
use lsm_tree_storage_engine.SsTable.{BlockEntry, Footer, encode_footer}
use lsm_tree_storage_engine.SsTable.Footers.{CanWrite, decode_footer-encode, length-encode_footer}
use lsm_tree_storage_engine.SsTable.Table.{
  SsTable, read_at, load, load_regions, load_filter, may_hold, some_filter, load_keys,
}
use lsm_tree_storage_engine.SsTable.Build.{GoodBlock, flat, all_bytes, index_of, hashes_of}
use lsm_tree_storage_engine.SsTable.Holds.{
  Holds, all_rows, rows_of, read_at-inside, check_trailer-with_trailer,
}
use lsm_tree_storage_engine.SsTable.Index.{index_payload, load_index-index_payload}
use lsm_tree_storage_engine.SsTable.Layout.{
  index_of-GoodIndex, index_of-HoldsBlocks, all_rows-flat, length-index_of,
}
use lsm_tree_storage_engine.SsTable.Finish.{index_block, footer_of, table_file}
use lsm_tree_storage_engine.SsTable.Keys.{load_keys-Holds}
use lsm_tree_storage_engine.Bloom.{BloomBuilder, BloomFilter, maybe_contains, hash64}
use lsm_tree_storage_engine.Bloom.RoundTrip.{
  built_filter, decode-finish, length-finish, maybe_contains-built,
}
use lsm_tree_storage_engine.Bloom

-- A key that is found stands among the hashes.
found-hash :
    (k : Key) (e : MemEntry) (es : List BlockEntry)
    → find k (rows_of es) ≡ some e
    → (before : List ℕ) × (after : List ℕ) × (hashes_of es ≡ before ++ (hash64 k ∷ after))
unfolding find
found-hash k e [] h = cc
found-hash k e (x ∷ es) h = elim (Bool-cases (key_eq x.key k)) [
  | inl here ↦
      ([], hashes_of es, ap (λ (j : Key). hash64 j ∷ hashes_of es) ((key_eq_iff x.key k).0 here))
  | inr other ↦
      let (before, after, q) = found-hash k e es (sym (rw other refl) ∙ h) in
      (hash64 x.key ∷ before, after, ap (λ t. hash64 x.key ∷ t) q)
]

module _ (z : Zlib) (lround_ln2 : ℕ → ℕ) (cs : List (List BlockEntry)) (bloom : BloomBuilder)
    (es : List BlockEntry) (good : All GoodBlock cs) (same : flat cs ≡ es)
    (sorted : IsSorted (all_rows cs)) (hashes : bloom.hashes ≡ hashes_of es)
    (index_small : length (index_block z cs) < 2 ^ 32)
    (data_small : length (all_bytes z cs) < 2 ^ 32) (count_small : length es < 2 ^ 32)
    (blocks_small : length cs < 2 ^ 32) where
  abbrev blocks : List ℕ
  blocks = all_bytes z cs

  abbrev filter_block : List ℕ
  filter_block = Bloom.finish z lround_ln2 bloom

  abbrev front : List ℕ
  front = (blocks ++ filter_block) ++ index_block z cs

  abbrev footer : Footer
  footer = footer_of z cs filter_block (length es)

  abbrev whole : List ℕ
  whole = table_file z cs filter_block (length es)

  abbrev table : ℕ → Bool → Bool → SsTable
  table id mapped enabled = record {
    id = id;
    file = whole;
    mapped = mapped;
    bloom_enabled = enabled;
    footer = footer;
    index = index_of z 0 cs;
    filter = some (built_filter z lround_ln2 bloom);
    min_key = [];
    max_key = [];
  }

  footer-CanWrite : CanWrite footer
  footer-CanWrite = record {
    index_offset =
        omega
          (arith, data_small, length-append blocks filter_block, length-finish z lround_ln2 bloom);
    index_size = index_small;
    filter_offset = omega (arith, data_small);
    filter_size = omega (arith, length-finish z lround_ln2 bloom);
    entry_count = omega (arith, count_small);
    version = refl;
  }

  length-whole : length whole ≡ length front + 44
  length-whole =
      length-append front (encode_footer z footer)
      ∙ ap (λ (n : ℕ). length front + n) (length-encode_footer z footer)

  length-front : length front ≡ length (blocks ++ filter_block) + length (index_block z cs)
  length-front = length-append (blocks ++ filter_block) (index_block z cs)

  length-regions : length (blocks ++ filter_block) ≡ length blocks + length filter_block
  length-regions = length-append blocks filter_block

  blocks_at : At whole 0 (blocks ++ (filter_block ++ (index_block z cs ++ encode_footer z footer)))
  blocks_at = record { left = simp append_assoc }

  filter_at :
      At whole (length blocks) (filter_block ++ (index_block z cs ++ encode_footer z footer))
  filter_at =
      subst
        (λ (t : List ℕ).
          At t (length blocks) (filter_block ++ (index_block z cs ++ encode_footer z footer)))
        (sym blocks_at.left) (At-append blocks _ (length blocks) refl)

  index_at : At whole (length (blocks ++ filter_block)) (index_block z cs ++ encode_footer z footer)
  index_at =
      subst
        (λ (t : List ℕ).
          At t (length (blocks ++ filter_block)) (index_block z cs ++ encode_footer z footer))
        (sym (append_assoc (blocks ++ filter_block) (index_block z cs) (encode_footer z footer)))
        (At-append (blocks ++ filter_block) _ (length (blocks ++ filter_block)) refl)

  footer_at : At whole (length front) (encode_footer z footer ++ [])
  footer_at =
      subst (λ (t : List ℕ). At whole (length front) t) (sym (append-nil (encode_footer z footer)))
        (At-append front _ (length front) refl)

  -- The filter misses no entry.
  filter_complete :
      (enabled : Bool) (k : Key)
      → may_hold enabled (some (built_filter z lround_ln2 bloom)) k ≡ false
      → find k (all_rows cs) ≡ none
  filter_complete false k h = cc
  filter_complete true k h = by_row (find k (rows_of es)) refl
    where
      by_row : (o : Option MemEntry) → find k (rows_of es) ≡ o → find k (all_rows cs) ≡ none
      by_row none e = ap (find k) (all_rows-flat cs ∙ ap rows_of same) ∙ e
      by_row (some v) e =
          let (before, after, q) = found-hash k v es e in
          let kept = maybe_contains-built z lround_ln2 bloom k before after (hashes ∙ q) in cc

  load_filter-written :
      (mapped : Bool)
      → load_filter z mapped whole footer ≡ ok (some (built_filter z lround_ln2 bloom))
  unfolding load_filter
  load_filter-written mapped =
      let some_bytes : (length filter_block == 0) ≡ false =
        ground (arith, length-finish z lround_ln2 bloom) in
      rw some_bytes (
        bind-ok _ _
          (read_at-inside mapped whole (length blocks) (length filter_block)
              (omega (arith, length-whole, length-front, length-regions))
            ∙ ap ok (subspan-At filter_block _ filter_at))
          (ap some_filter (decode-finish z lround_ln2 bloom)))

  load_regions-written :
      (id : ℕ) (mapped enabled : Bool)
      → load_regions z id mapped enabled whole footer ≡ load_keys z (table id mapped enabled)
  unfolding load_regions
  load_regions-written id mapped enabled =
      let index = index_of z 0 cs in
      let payload = index_payload index in
      reject-pass
        (ltb (length whole - 44) (length (blocks ++ filter_block))
          || ltb (length whole - 44 - length (blocks ++ filter_block)) (length (index_block z cs)))
        _ _ (ground (arith, length-whole, length-front))
        (reject-pass
          (ltb (length whole - 44) (length blocks)
            || ltb (length whole - 44 - length blocks) (length filter_block))
          _ _ (ground (arith, length-whole, length-front, length-regions))
          (reject-pass _ _ _
            (ltb-false (length (index_block z cs)) 8
              (omega (arith, length-append payload (le32 (crc32_of z payload)))))
            (bind-ok _ _
              (read_at-inside mapped whole (length (blocks ++ filter_block))
                  (length (index_block z cs)) (omega (arith, length-whole, length-front))
                ∙ ap ok (subspan-At (index_block z cs) _ index_at))
              (bind-ok _ _ (check_trailer-with_trailer z payload) (
                bind-ok _ _
                  (load_index-index_payload (length blocks) index
                    (omega (arith, blocks_small, length-index_of z 0 cs))
                    (index_of-GoodIndex z 0 (length blocks) none cs good sorted tt (omega arith)
                      (omega (arith, data_small))))
                  (bind-ok _ _ (load_filter-written mapped) refl))))))

  load-written :
      (id : ℕ) (mapped enabled : Bool)
      → load z id mapped enabled whole ≡ load_keys z (table id mapped enabled)
  unfolding load
  load-written id mapped enabled =
      reject-pass _ _ _ (ltb-false (length whole) 44 (omega (arith, length-whole))) (
        bind-ok _ _
          (ap (λ (n : ℕ). read_at mapped whole n 44) (omega (arith, length-whole))
            ∙ read_at-inside mapped whole (length front) 44 (omega (arith, length-whole))
            ∙ ap ok (
                ap (λ (n : ℕ). subspan whole (length front) n) (sym (length-encode_footer z footer))
                ∙ subspan-At (encode_footer z footer) [] footer_at))
          (bind-ok _ _ (decode_footer-encode z footer footer-CanWrite)
            (load_regions-written id mapped enabled)))

  pub load-Holds :
      (id : ℕ) (mapped enabled : Bool)
      → (t : SsTable) × (load z id mapped enabled whole ≡ ok t) × Holds z t cs
  load-Holds id mapped enabled =
      let (t, ran, holds) =
        load_keys-Holds z (table id mapped enabled) cs good refl
          (index_of-HoldsBlocks z whole 0
            (filter_block ++ (index_block z cs ++ encode_footer z footer)) cs good blocks_at
            (omega (arith, length-whole, length-front, length-regions)))
          sorted (filter_complete enabled) (ap (λ (t : List BlockEntry). length t) (sym same)) in
      (t, load-written id mapped enabled ∙ ran, holds)
