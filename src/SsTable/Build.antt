-- ===== src/SsTable/Build.antt =====
-- src/sstable.cpp, `SSTableBuilder`: what the builder has written and what it still holds, while
-- entries are added in key order.
use native.Mathlib.Nat.{mod-eq_of_lt}
use mathlib.Core.Path.{subst}
use lsm_tree_storage_engine.Prelude.{
  ℕ, ◌⊎◌, [], length, sym, ◌<◌, ◌==◌, false, ok, refl, length-append, append_assoc, ◌++◌,
  All-append, arith, ◌%◌, All, ◌^◌, ◌+◌, ap, ◌≤◌, ◌≡◌, ltb, ◌∷◌, append-nil, ltb-false, ◌∙◌, List,
}
use lsm_tree_storage_engine.Encoding.{append_u32, le32}
use lsm_tree_storage_engine.Encoding.Layout.{append_u32_lem}
use lsm_tree_storage_engine.SsTable.{BlockEntry, IndexEntry, SsTableBuilder, flush_block}
use lsm_tree_storage_engine.SsTable.Blocks.{CanAdd, entry_bytes, all_entries}
use lsm_tree_storage_engine.SsTable.Holds.{rows_of, with_trailer, block_bytes}
use lsm_tree_storage_engine.SortedMap.Append.{last_of}
use lsm_tree_storage_engine.Crc.{Zlib, crc32_of}
use lsm_tree_storage_engine.Bloom.{hash64}

abbrev pub flat : List (List BlockEntry) → List BlockEntry
flat [] = []
flat (c ∷ cs) = c ++ flat cs

abbrev pub all_bytes : Zlib → List (List BlockEntry) → List ℕ
all_bytes z [] = []
all_bytes z (c ∷ cs) = block_bytes z c ++ all_bytes z cs

abbrev pub index_entry : Zlib → ℕ → List BlockEntry → IndexEntry
index_entry z at c = record {
  key = last_of (rows_of c);
  block_offset = at;
  block_size = length (block_bytes z c);
}

-- The index of blocks that stand from an offset on.
abbrev pub index_of : Zlib → ℕ → List (List BlockEntry) → List IndexEntry
index_of z at [] = []
index_of z at (c ∷ cs) = index_entry z at c ∷ index_of z (at + length (block_bytes z c)) cs

abbrev pub hashes_of : List BlockEntry → List ℕ
hashes_of [] = []
hashes_of (e ∷ es) = hash64 e.key ∷ hashes_of es

pub record GoodBlock (c : List BlockEntry) : Type 0 where
  pub filled : 0 < length c
  pub can : All CanAdd c
  pub small : length (all_entries c) + 4 < 2 ^ 32

pub flat-snoc :
    (cs : List (List BlockEntry)) (c : List BlockEntry) → flat (cs ++ c ∷ []) ≡ flat cs ++ c
flat-snoc [] c = append-nil c
flat-snoc (d ∷ cs) c = ap (λ t. d ++ t) (flat-snoc cs c) ∙ sym (append_assoc d (flat cs) c)

all_bytes-snoc :
    (z : Zlib) (cs : List (List BlockEntry)) (c : List BlockEntry)
    → all_bytes z (cs ++ c ∷ []) ≡ all_bytes z cs ++ block_bytes z c
all_bytes-snoc z [] c = append-nil (block_bytes z c)
all_bytes-snoc z (d ∷ cs) c =
    ap (λ t. block_bytes z d ++ t) (all_bytes-snoc z cs c)
    ∙ sym (append_assoc (block_bytes z d) (all_bytes z cs) (block_bytes z c))

index_of-snoc :
    (z : Zlib) (at : ℕ) (cs : List (List BlockEntry)) (c : List BlockEntry)
    → index_of z at (cs ++ c ∷ [])
      ≡ index_of z at cs ++ index_entry z (at + length (all_bytes z cs)) c ∷ []
index_of-snoc z at [] c = ap (λ n. index_entry z n c ∷ []) (omega arith)
index_of-snoc z at (d ∷ cs) c =
    ap (λ t. index_entry z at d ∷ t)
      (index_of-snoc z (at + length (block_bytes z d)) cs c
        ∙ ap (λ n. index_of z (at + length (block_bytes z d)) cs ++ index_entry z n c ∷ [])
            (omega (arith, length-append (block_bytes z d) (all_bytes z cs))))

pub all_entries-snoc :
    (es : List BlockEntry) (e : BlockEntry)
    → all_entries (es ++ e ∷ []) ≡ all_entries es ++ entry_bytes e
all_entries-snoc [] e = append-nil (entry_bytes e)
all_entries-snoc (d ∷ es) e =
    ap (λ t. entry_bytes d ++ t) (all_entries-snoc es e)
    ∙ sym (append_assoc (entry_bytes d) (all_entries es) (entry_bytes e))

pub hashes_of-snoc :
    (es : List BlockEntry) (e : BlockEntry)
    → hashes_of (es ++ e ∷ []) ≡ hashes_of es ++ hash64 e.key ∷ []
hashes_of-snoc [] e = refl
hashes_of-snoc (d ∷ es) e = ap (λ t. hash64 d.key ∷ t) (hashes_of-snoc es e)

pub last_of-snoc :
    (es : List BlockEntry) (e : BlockEntry) → last_of (rows_of (es ++ e ∷ [])) ≡ e.key
last_of-snoc [] e = refl
last_of-snoc (d ∷ []) e = refl
last_of-snoc (d ∷ c ∷ es) e = last_of-snoc (c ∷ es) e

-- What a builder holds that has written blocks and has a block begun.
pub record Built (z : Zlib) (b : SsTableBuilder) (cs : List (List BlockEntry))
    (cur : List BlockEntry) : Type 0 where
  pub file : b.file ≡ all_bytes z cs
  pub index : b.index ≡ index_of z 0 cs
  pub block : b.block ≡ all_entries cur
  pub block_last : b.block_last_key ≡ last_of (rows_of cur)
  pub hashes : b.filter.hashes ≡ hashes_of (flat cs ++ cur)
  pub entries : b.entries ≡ length (flat cs ++ cur)
  pub unfinished : b.finished ≡ false
  pub last : b.last_key ≡ last_of (rows_of (flat cs ++ cur))
  pub has : (b.has_last_key ≡ false) ⊎ (0 < length (flat cs ++ cur))
  pub good : All GoodBlock cs
  pub can : All CanAdd cur

pub length-all_entries : (es : List BlockEntry) → length es ≤ length (all_entries es)
length-all_entries [] = omega arith
length-all_entries (e ∷ es) =
    omega (arith, length-append (entry_bytes e) (all_entries es), length-all_entries es)

All-snoc :
    (cs : List (List BlockEntry)) (c : List BlockEntry)
    → All GoodBlock cs
    → GoodBlock c
    → All GoodBlock (cs ++ c ∷ [])
All-snoc cs c h g = All-append GoodBlock cs (c ∷ []) h (g, tt)

module _ (z : Zlib) (b : SsTableBuilder) (cs : List (List BlockEntry)) (cur : List BlockEntry)
    (built : Built z b cs cur) where
  pub flush_block-Built :
      0 < length cur
      → length (all_entries cur) + 4 < 2 ^ 32
      → (b' : SsTableBuilder) × (flush_block z b ≡ (b', ok tt)) × Built z b' (cs ++ cur ∷ []) []
  unfolding flush_block
  flush_block-Built filled small =
      let size : length b.block ≡ length (all_entries cur) =
        ap (λ (t : List ℕ). length t) built.block in
      let some_bytes : (length b.block == 0) ≡ false =
        ground (arith, filled, size, length-all_entries cur) in
      let fits : ltb 4294967295 (length b.block + 4) ≡ false =
        ltb-false 4294967295 (length b.block + 4) (omega (arith, small, size)) in
      let bytes_eq : append_u32 b.block (crc32_of z b.block) ≡ block_bytes z cur =
        append_u32_lem b.block (crc32_of z b.block) ∙ ap (with_trailer z) built.block in
      let size_eq : length (append_u32 b.block (crc32_of z b.block)) % 2 ^ 32
          ≡ length (block_bytes z cur) =
        ap (λ (t : List ℕ). length t % 2 ^ 32) bytes_eq
        ∙ mod-eq_of_lt (
            omega (
              arith,
              small,
              length-append (all_entries cur) (le32 (crc32_of z (all_entries cur))),
            )) in
      let moved = flat-snoc cs cur in
      let all_eq : flat (cs ++ cur ∷ []) ++ [] ≡ flat cs ++ cur =
        append-nil (flat (cs ++ cur ∷ [])) ∙ moved in
      (
        record b {
          file = b.file ++ append_u32 b.block (crc32_of z b.block);
          index =
              b.index
              ++ record {
                key = b.block_last_key;
                block_offset = length b.file;
                block_size = length (append_u32 b.block (crc32_of z b.block)) % 2 ^ 32;
              }
                ∷ [];
          block = [];
          block_last_key = [];
        },
        rw (some_bytes, fits) refl,
        record {
          file =
              ap (λ (t : List ℕ). t ++ append_u32 b.block (crc32_of z b.block)) built.file
              ∙ ap (λ (t : List ℕ). all_bytes z cs ++ t) bytes_eq
              ∙ sym (all_bytes-snoc z cs cur);
          index =
              ap
                (λ (t : List IndexEntry).
                  t
                  ++ record {
                    key = b.block_last_key;
                    block_offset = length b.file;
                    block_size = length (append_u32 b.block (crc32_of z b.block)) % 2 ^ 32;
                  }
                    ∷ [])
                built.index
              ∙ (λ i.
                  index_of z 0 cs
                  ++ record {
                    key = built.block_last i;
                    block_offset = length (built.file i);
                    block_size = size_eq i;
                  }
                    ∷ [])
              ∙ sym (
                  index_of-snoc z 0 cs cur
                  ∙ ap (λ n. index_of z 0 cs ++ index_entry z n cur ∷ []) (omega arith));
          block = refl;
          block_last = refl;
          hashes = built.hashes ∙ ap hashes_of (sym all_eq);
          entries = built.entries ∙ ap (λ (t : List BlockEntry). length t) (sym all_eq);
          unfinished = built.unfinished;
          last = built.last ∙ ap (λ (t : List BlockEntry). last_of (rows_of t)) (sym all_eq);
          has =
              subst (λ (t : List BlockEntry). (b.has_last_key ≡ false) ⊎ (0 < length t))
                (sym all_eq) built.has;
          good =
              All-snoc cs cur built.good
                (record { filled = filled; can = built.can; small = small });
          can = tt;
        },
      )
