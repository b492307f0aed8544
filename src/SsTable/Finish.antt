-- ===== src/SsTable/Finish.antt =====
-- src/sstable.cpp: the file that `SSTableBuilder::finish` leaves.
use native.Mathlib.Nat.{mod-eq_of_lt}
use mathlib.Core.Path.{subst}
use lsm_tree_storage_engine.Prelude.{
  ℕ, true, arith, ◌∙◌, err, List, Status, ap, invalid_argument, ◌∷◌, All, ltb, ◌+◌, length-append,
  ◌^◌, ◌++◌, [], refl, ◌%◌, ok, ◌*◌, none, append-nil, ◌<◌, ◌≡◌, length, ltb-false, ◌≤◌,
  if◌then◌else◌, false, sym, ◌==◌, Bool,
}
use lsm_tree_storage_engine.Encoding.{append_u32, le32, le64, IsU32}
use lsm_tree_storage_engine.Encoding.Layout.{append_u32_lem}
use lsm_tree_storage_engine.SsTable.{
  BlockEntry, IndexEntry, Footer, SsTableBuilder, append_index, encode_footer, finish_file,
  flush_block, finish, finish_on,
}
use lsm_tree_storage_engine.SsTable.Blocks.{all_entries, entry_bytes}
use lsm_tree_storage_engine.SsTable.Build.{
  index_entry, Built, GoodBlock, flat, all_bytes, index_of, hashes_of, flush_block-Built, flat-snoc,
  length-all_entries,
}
use lsm_tree_storage_engine.SsTable.Adds.{all_entries-append, Grown}
use lsm_tree_storage_engine.SsTable.Holds.{rows_of, all_rows, with_trailer, block_bytes}
use lsm_tree_storage_engine.SortedMap.Append.{last_of}
use lsm_tree_storage_engine.Crc.{Zlib, crc32_of}
use lsm_tree_storage_engine.SsTable.Index.{
  index_payload, index_payload-eq, index_entry_bytes, index_bytes,
}
use lsm_tree_storage_engine.SsTable.Layout.{index_of-GoodIndex, length-index_of, all_rows-flat}
use lsm_tree_storage_engine.SortedMap.{IsSorted}
use lsm_tree_storage_engine.Bloom.RoundTrip.{length-finish}
use lsm_tree_storage_engine.Merge.Pick.{Table}
use lsm_tree_storage_engine.Bloom

abbrev pub index_block : Zlib → List (List BlockEntry) → List ℕ
index_block z cs = with_trailer z (index_payload (index_of z 0 cs))

abbrev pub footer_of : Zlib → List (List BlockEntry) → List ℕ → ℕ → Footer
footer_of z cs filter count = record {
  index_offset = length (all_bytes z cs ++ filter);
  index_size = length (index_block z cs);
  filter_offset = length (all_bytes z cs);
  filter_size = length filter;
  entry_count = count;
  format_version = 1;
}

-- The file of a table: its blocks, its filter, its index and its footer.
abbrev pub table_file : Zlib → List (List BlockEntry) → List ℕ → ℕ → List ℕ
table_file z cs filter count =
    ((all_bytes z cs ++ filter) ++ index_block z cs)
    ++ encode_footer z (footer_of z cs filter count)

pub record Finished (z : Zlib) (lround_ln2 : ℕ → ℕ) (es : List BlockEntry) (file : List ℕ)
    : Type 0 where
  pub cs : List (List BlockEntry)
  pub bloom : Bloom.BloomBuilder
  pub hashes : bloom.hashes ≡ hashes_of es
  pub good : All GoodBlock cs
  pub same : flat cs ≡ es
  pub file_eq : file ≡ table_file z cs (Bloom.finish z lround_ln2 bloom) (length es)
  pub index_small : length (index_block z cs) < 2 ^ 32
  pub data_small : length (all_bytes z cs) < 2 ^ 32
  pub count_small : length es < 2 ^ 32
  pub blocks_small : length cs < 2 ^ 32

-- The sizes of the regions, by the size of the entries.
entry_room :
    (c : List BlockEntry) → 0 < length c → 9 + length (last_of (rows_of c)) ≤ length (all_entries c)
entry_room [] h = absurd (omega arith)
entry_room (e ∷ []) h =
    omega (arith, length-append (e.key ++ e.value) [], length-append e.key e.value)
entry_room (e ∷ d ∷ c) h =
    omega
      (arith, length-append (entry_bytes e) (all_entries (d ∷ c)), entry_room (d ∷ c) (omega arith))

index_room :
    (z : Zlib) (at : ℕ) (cs : List (List BlockEntry))
    → All GoodBlock cs
    → length (index_payload (index_of z at cs)) ≤ 4 + 2 * length (all_entries (flat cs))
index_room z at [] good = omega arith
index_room z at (c ∷ cs) good =
    let e = index_entry z at c in
    omega (
      arith,
      index_room z (at + length (block_bytes z c)) cs good.1,
      entry_room c good.0.filled,
      ap (λ (t : List ℕ). length t) (all_entries-append c (flat cs)),
      length-append (all_entries c) (all_entries (flat cs)),
      length-append (index_entry_bytes e)
          (index_bytes (index_of z (at + length (block_bytes z c)) cs)),
      length-append e.key (le64 e.block_offset ++ le32 e.block_size),
    )

few_blocks :
    (cs : List (List BlockEntry)) → All GoodBlock cs → length cs ≤ length (all_entries (flat cs))
few_blocks [] good = omega arith
few_blocks (c ∷ cs) good = omega (
  arith,
  few_blocks cs good.1,
  entry_room c good.0.filled,
  ap (λ (t : List ℕ). length t) (all_entries-append c (flat cs)),
  length-append (all_entries c) (all_entries (flat cs)),
)

data_room :
    (z : Zlib) (cs : List (List BlockEntry))
    → All GoodBlock cs
    → length (all_bytes z cs) ≤ 2 * length (all_entries (flat cs))
data_room z [] good = omega arith
data_room z (c ∷ cs) good = omega (
  arith,
  data_room z cs good.1,
  entry_room c good.0.filled,
  ap (λ (t : List ℕ). length t) (all_entries-append c (flat cs)),
  length-append (all_entries c) (all_entries (flat cs)),
  length-append (block_bytes z c) (all_bytes z cs),
  length-append (all_entries c) (le32 (crc32_of z (all_entries c))),
)

module _ (z : Zlib) (lround_ln2 : ℕ → ℕ) (b : SsTableBuilder) (cs : List (List BlockEntry))
    (built : Built z b cs []) where
  abbrev filter_block : List ℕ
  filter_block = Bloom.finish z lround_ln2 b.filter

  -- The file with an index block.
  closed_with : List ℕ → SsTableBuilder
  closed_with index = record b {
    file =
        ((b.file ++ filter_block) ++ index)
        ++ encode_footer z (record {
          index_offset = length (b.file ++ filter_block);
          index_size = length index % 2 ^ 32;
          filter_offset = length b.file;
          filter_size = length filter_block % 2 ^ 32;
          entry_count = b.entries;
          format_version = 1;
        });
    finished = true;
  }

  finish_file-Built :
      IsSorted (all_rows cs)
      → 2 * length (all_entries (flat cs)) + 8 < 2 ^ 32
      → (finish_file z lround_ln2 b ≡ (closed_with (index_block z cs), ok tt))
        × ((closed_with (index_block z cs)).file ≡ table_file z cs filter_block (length (flat cs)))
        × (length (index_block z cs) < 2 ^ 32)
        × (length (all_bytes z cs) < 2 ^ 32)
  unfolding finish_file closed_with
  finish_file-Built sorted small =
      let index = index_of z 0 cs in
      let data_fits = data_room z cs built.good in
      let size = length-append (index_payload index) (le32 (crc32_of z (index_payload index))) in
      let index_small : length (index_block z cs) < 2 ^ 32 =
        omega (arith, size, index_room z 0 cs built.good, small) in
      let filter_small = length-finish z lround_ln2 b.filter in
      let count : IsU32 (length index) =
        omega (arith, small, length-index_of z 0 cs, few_blocks cs built.good) in
      let payload_eq : append_index (append_u32 [] (length b.index % 2 ^ 32)) b.index
          ≡ index_payload index =
        ap (λ (es : List IndexEntry). append_index (append_u32 [] (length es % 2 ^ 32)) es)
          built.index
        ∙ index_payload-eq (length (all_bytes z cs)) index count (
            index_of-GoodIndex z 0 (length (all_bytes z cs)) none cs built.good sorted tt
              (omega arith) (omega (arith, data_fits, small))) in
      let block_eq : with_crc (append_index (append_u32 [] (length b.index % 2 ^ 32)) b.index)
          ≡ index_block z cs =
        ap with_crc payload_eq
        ∙ append_u32_lem (index_payload index) (crc32_of z (index_payload index)) in
      (
        ap on_index block_eq
            ∙ rw
                (
                  ltb-false 4294967295 (length filter_block) (omega (arith, filter_small)),
                  ltb-false 4294967295 (length (index_block z cs)) (omega (arith, index_small)),
                )
                refl,
        (λ i.
            ((built.file i ++ filter_block) ++ index_block z cs)
            ++ encode_footer z (record {
              index_offset = length (built.file i ++ filter_block);
              index_size = mod-eq_of_lt index_small i;
              filter_offset = length (built.file i);
              filter_size = mod-eq_of_lt (filter_fits filter_small.0) i;
              entry_count =
                  (built.entries ∙ ap (λ (t : List BlockEntry). length t) (append-nil (flat cs))) i;
              format_version = 1;
            })),
        index_small,
        omega (arith, data_fits, small),
      )
    where
      with_crc : List ℕ → List ℕ
      with_crc payload = append_u32 payload (crc32_of z payload)

      filter_fits : length filter_block ≤ 0x20000008 → length filter_block < 2 ^ 32
      filter_fits h = omega (arith, h)

      on_index : List ℕ → SsTableBuilder × Status
      on_index index =
          if ltb 4294967295 (length filter_block)
          then (b, err invalid_argument)
          else if ltb 4294967295 (length index)
          then (record b { file = b.file ++ filter_block }, err invalid_argument)
          else (closed_with index, ok tt)

flush_block-empty : (z : Zlib) (b : SsTableBuilder) → b.block ≡ [] → flush_block z b ≡ (b, ok tt)
unfolding flush_block
flush_block-empty z b e = rw (ap (λ (t : List ℕ). length t == 0) e) refl

finish-flushed :
    (z : Zlib) (lround_ln2 : ℕ → ℕ) (b b1 : SsTableBuilder)
    → b.finished ≡ false
    → flush_block z b ≡ (b1, ok tt)
    → finish z lround_ln2 b ≡ finish_file z lround_ln2 b1
unfolding finish
finish-flushed z lround_ln2 b b1 going flushed =
    ap
      (λ (f : Bool).
        if f then (b, err invalid_argument) else finish_on z lround_ln2 (flush_block z b))
      going
    ∙ ap (finish_on z lround_ln2) flushed

module _ (z : Zlib) (lround_ln2 : ℕ → ℕ) (es : List BlockEntry) (sorted : IsSorted (rows_of es))
    (small : 2 * length (all_entries es) + 8 < 2 ^ 32) where
  -- The file, from a builder without a block begun.
  finish_file-Finished :
      (b : SsTableBuilder) (cs : List (List BlockEntry))
      → Built z b cs []
      → flat cs ≡ es
      → (b' : SsTableBuilder) × (finish_file z lround_ln2 b ≡ (b', ok tt))
        × Finished z lround_ln2 es b'.file
  finish_file-Finished b cs built same =
      let sorted' : IsSorted (all_rows cs) =
        subst (λ (m : Table). IsSorted m) (sym (all_rows-flat cs ∙ ap rows_of same)) sorted in
      let small' : 2 * length (all_entries (flat cs)) + 8 < 2 ^ 32 =
        subst (λ (t : List BlockEntry). 2 * length (all_entries t) + 8 < 2 ^ 32) (sym same) small in
      let wrote = finish_file-Built z lround_ln2 b cs built sorted' small' in
      (
        closed_with z lround_ln2 b cs built (index_block z cs),
        wrote.0,
        record {
          cs = cs;
          bloom = b.filter;
          hashes = built.hashes ∙ ap hashes_of (append-nil (flat cs) ∙ same);
          good = built.good;
          same = same;
          file_eq =
              wrote.1
              ∙ ap
                  (λ (t : List BlockEntry).
                    table_file z cs (Bloom.finish z lround_ln2 b.filter) (length t))
                  same;
          index_small = wrote.2;
          data_small = wrote.3;
          count_small = omega (arith, small, length-all_entries es);
          blocks_small = omega (arith, small', few_blocks cs built.good);
        },
      )

  -- The file of the entries that were added.
  pub finish-Grown :
      (b : SsTableBuilder)
      → Grown z es b
      → (b' : SsTableBuilder) × (finish z lround_ln2 b ≡ (b', ok tt))
        × Finished z lround_ln2 es b'.file
  finish-Grown b grown = by_block grown.cs grown.cur grown.built grown.same
    where
      by_block :
          (cs : List (List BlockEntry)) (cur : List BlockEntry)
          → Built z b cs cur
          → flat cs ++ cur ≡ es
          → (b' : SsTableBuilder) × (finish z lround_ln2 b ≡ (b', ok tt))
            × Finished z lround_ln2 es b'.file
      by_block cs [] built same =
          let (b', ran, finished) =
            finish_file-Finished b cs built (sym (append-nil (flat cs)) ∙ same) in
          (
            b',
            finish-flushed z lround_ln2 b b built.unfinished (flush_block-empty z b built.block)
                ∙ ran,
            finished,
          )
      by_block cs (e ∷ cur) built same =
          let whole =
            ap (λ (t : List ℕ). length t)
              (ap all_entries (sym same) ∙ all_entries-append (flat cs) (e ∷ cur))
            ∙ length-append (all_entries (flat cs)) (all_entries (e ∷ cur)) in
          let (b1, flushed, built1) =
            flush_block-Built z b cs (e ∷ cur) built (omega arith) (omega (arith, small, whole)) in
          let (b', ran, finished) =
            finish_file-Finished b1 (cs ++ (e ∷ cur) ∷ []) built1 (flat-snoc cs (e ∷ cur) ∙ same) in
          (b', finish-flushed z lround_ln2 b b1 built.unfinished flushed ∙ ran, finished)
