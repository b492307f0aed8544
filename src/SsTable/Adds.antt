-- ===== src/SsTable/Adds.antt =====
-- src/sstable.cpp and src/lsm.cpp: the entries of a memtable, added one after the other to a builder.
use mathlib.Core.Path.{subst}
use lsm_tree_storage_engine.Prelude.{
  ℕ, inr, ap, ◌^◌, Bool-cases, ◌∷◌, ◌<◌, All-append, ◌+◌, ◌++◌, true, length, ok, leb, List, inl,
  ◌≤◌, [], sym, append_assoc, arith, ◌∙◌, ◌≡◌, length-append, if◌then◌else◌, ◌&&◌, Status,
  append-nil, ◌==◌, ltb, ◌⊎◌, not, All, Bool, err, ltb-false, invalid_argument, false, refl,
}
use lsm_tree_storage_engine.SsTable.{BlockEntry, SsTableBuilder, add, flush_block, append_entry}
use lsm_tree_storage_engine.SsTable.Build.{
  Built, flat, flush_block-Built, all_entries-snoc, flat-snoc, last_of-snoc, hashes_of-snoc,
  hashes_of,
}
use lsm_tree_storage_engine.Crc.{Zlib}
use lsm_tree_storage_engine.SsTable.Blocks.{entry_bytes, CanAdd, append_entry-eq, all_entries}
use lsm_tree_storage_engine.SortedMap.{IsSorted}
use lsm_tree_storage_engine.SsTable.Holds.{rows_of, row_of, length-rows_of, rows_of-append}
use lsm_tree_storage_engine.Key.{key_lt, Key}
use lsm_tree_storage_engine.Merge.Pick.{Table}
use lsm_tree_storage_engine.SortedMap.Append.{Above-last, IsSorted-left, last_of}
use lsm_tree_storage_engine.Bloom.{hash64}
use lsm_tree_storage_engine.Bloom
use lsm_tree_storage_engine.Record

-- What `add` asks of an entry, and a bound that keeps every size of the file in its field.
pub record CanStore (e : BlockEntry) : Type 0 where
  pub addable : CanAdd e
  pub small : 9 + length e.key + length e.value ≤ Record.max_record_size
  pub clean : (if e.tombstone then [] else e.value) ≡ e.value

-- The block that `add` leaves, before it is flushed.
begun : Zlib → SsTableBuilder → BlockEntry → SsTableBuilder
begun z b e = record b {
  filter = Bloom.add b.filter e.key;
  block = append_entry b.block e.key e.value e.tombstone;
  block_last_key = e.key;
  last_key = e.key;
  has_last_key = true;
  entries = b.entries + 1;
}

-- A builder that has gone on, with the entries that it has now.
pub record Grown (z : Zlib) (es : List BlockEntry) (b' : SsTableBuilder) : Type 0 where
  pub cs : List (List BlockEntry)
  pub cur : List BlockEntry
  pub built : Built z b' cs cur
  pub same : flat cs ++ cur ≡ es

module _ (z : Zlib) (b : SsTableBuilder) (cs : List (List BlockEntry)) (cur : List BlockEntry)
    (e : BlockEntry) (built : Built z b cs cur) (can : CanStore e) where
  begun-Built : Built z (begun z b e) cs (cur ++ e ∷ [])
  unfolding begun Bloom.add
  begun-Built =
      let snoc : flat cs ++ (cur ++ e ∷ []) ≡ (flat cs ++ cur) ++ e ∷ [] =
        sym (append_assoc (flat cs) cur (e ∷ [])) in
      record {
        file = built.file;
        index = built.index;
        block =
            ap (λ (t : List ℕ). append_entry t e.key e.value e.tombstone) built.block
            ∙ append_entry-eq (all_entries cur) e can.addable
            ∙ sym (all_entries-snoc cur e);
        block_last = sym (last_of-snoc cur e);
        hashes =
            ap (λ (t : List ℕ). t ++ hash64 e.key ∷ []) built.hashes
            ∙ sym (hashes_of-snoc (flat cs ++ cur) e)
            ∙ ap hashes_of (sym snoc);
        entries = omega (
          arith,
          built.entries,
          ap (λ (t : List BlockEntry). length t) snoc,
          length-append (flat cs ++ cur) (e ∷ []),
        );
        unfinished = built.unfinished;
        last =
            sym (last_of-snoc (flat cs ++ cur) e)
            ∙ ap (λ (t : List BlockEntry). last_of (rows_of t)) (sym snoc);
        has = inr (
            omega (
              arith,
              ap (λ (t : List BlockEntry). length t) snoc,
              length-append (flat cs ++ cur) (e ∷ []),
            ));
        good = built.good;
        can = All-append CanAdd cur (e ∷ []) built.can (can.addable, tt);
      }

  in_order :
      IsSorted (rows_of ((flat cs ++ cur) ++ e ∷ []))
      → (b.has_last_key && not (key_lt b.last_key e.key)) ≡ false
  in_order sorted = by_has built.has
    where
      by_has :
          (b.has_last_key ≡ false) ⊎ (0 < length (flat cs ++ cur))
          → (b.has_last_key && not (key_lt b.last_key e.key)) ≡ false
      by_has (inl none_yet) = ground (arith, none_yet)
      by_has (inr some_entry) =
          let es = flat cs ++ cur in
          let above =
            Above-last (rows_of es) (row_of e ∷ []) (omega (arith, length-rows_of es, some_entry))
              (subst (λ (m : Table). IsSorted m) (rows_of-append es (e ∷ [])) sorted) in
          let lt : key_lt b.last_key e.key ≡ true =
            subst (λ (k : Key). key_lt k e.key ≡ true) (sym built.last) above.0 in
          ground (arith, lt)

  add-begun :
      IsSorted (rows_of ((flat cs ++ cur) ++ e ∷ []))
      → add z b e.key e.value e.tombstone ≡ (
          if leb b.target_size (length (begun z b e).block)
          then flush_block z (begun z b e)
          else (begun z b e, ok tt))
  unfolding add begun
  add-begun sorted =
      ap stepped can.clean
      ∙ rw
          (
            built.unfinished,
            has_key,
            in_order sorted,
            ltb-false Record.max_record_size (9 + length e.key + length e.value) can.small,
          )
          refl
    where
      has_key : (length e.key == 0) ≡ false
      has_key = ground (arith, can.addable.has_key)

      stepped : List ℕ → SsTableBuilder × Status
      stepped stored =
          let entry_size = 9 + length e.key + length stored in
          let added = record b {
            filter = Bloom.add b.filter e.key;
            block = append_entry b.block e.key stored e.tombstone;
            block_last_key = e.key;
            last_key = e.key;
            has_last_key = true;
            entries = b.entries + 1;
          } in
          if b.finished
          then (b, err invalid_argument)
          else if length e.key == 0
          then (b, err invalid_argument)
          else if b.has_last_key && not (key_lt b.last_key e.key)
          then (b, err invalid_argument)
          else if ltb Record.max_record_size entry_size
          then (b, err invalid_argument)
          else if leb b.target_size (length added.block)
          then flush_block z added
          else (added, ok tt)

  -- The next entry, in order.
  pub add-Grown :
      IsSorted (rows_of ((flat cs ++ cur) ++ e ∷ []))
      → length (all_entries (cur ++ e ∷ [])) + 4 < 2 ^ 32
      → (b' : SsTableBuilder) × (add z b e.key e.value e.tombstone ≡ (b', ok tt))
        × Grown z ((flat cs ++ cur) ++ e ∷ []) b'
  add-Grown sorted small =
      let next = cur ++ e ∷ [] in
      let (b', ran, flushed) =
        flush_block-Built z (begun z b e) cs next begun-Built
          (omega (arith, length-append cur (e ∷ []))) small in
      let stepped = add-begun sorted in
      let kept = sym (append_assoc (flat cs) cur (e ∷ [])) in
      elim (Bool-cases (leb b.target_size (length (begun z b e).block))) [
        | inl full ↦ (
          b',
          stepped
              ∙ ap (λ (x : Bool). if x then flush_block z (begun z b e) else (begun z b e, ok tt))
                  full
              ∙ ran,
          record {
            cs = cs ++ next ∷ [];
            cur = [];
            built = flushed;
            same = append-nil (flat (cs ++ next ∷ [])) ∙ flat-snoc cs next ∙ kept;
          },
        )
        | inr room ↦ (
          begun z b e,
          stepped
              ∙ ap (λ (x : Bool). if x then flush_block z (begun z b e) else (begun z b e, ok tt))
                  room,
          record { cs = cs; cur = next; built = begun-Built; same = kept },
        )
      ]

-- `build_table_unlocked`: the loop over a memtable's rows, which stops at the first that fails.
abbrev pub and_then :
    SsTableBuilder × Status → (SsTableBuilder → SsTableBuilder × Status) → SsTableBuilder × Status
and_then (b, err code) next = (b, err code)
and_then (b, ok _) next = next b

unfoldable pub add_rows : Zlib → SsTableBuilder → Table → SsTableBuilder × Status
add_rows z b [] = (b, ok tt)
add_rows z b ((key, entry) ∷ rows) =
    and_then (add z b key entry.value entry.tombstone) (λ b'. add_rows z b' rows)

pub all_entries-append :
    (es fs : List BlockEntry) → all_entries (es ++ fs) ≡ all_entries es ++ all_entries fs
all_entries-append [] fs = refl
all_entries-append (e ∷ es) fs =
    ap (λ t. entry_bytes e ++ t) (all_entries-append es fs)
    ∙ sym (append_assoc (entry_bytes e) (all_entries es) (all_entries fs))

-- The entries that are left, all added.
pub add_rows-Grown :
    (z : Zlib) (b : SsTableBuilder) (before es : List BlockEntry)
    → Grown z before b
    → All CanStore es
    → IsSorted (rows_of (before ++ es))
    → length (all_entries (before ++ es)) + 4 < 2 ^ 32
    → (b' : SsTableBuilder) × (add_rows z b (rows_of es) ≡ (b', ok tt)) × Grown z (before ++ es) b'
unfolding add_rows
add_rows-Grown z b before [] grown can sorted small =
    (b, refl, subst (λ (t : List BlockEntry). Grown z t b) (sym (append-nil before)) grown)
add_rows-Grown z b before (e ∷ es) grown can sorted small =
    let cs = grown.cs in
    let cur = grown.cur in
    let one = before ++ e ∷ [] in
    let moved : before ++ e ∷ es ≡ one ++ es = sym (append_assoc before (e ∷ []) es) in
    let sorted' : IsSorted (rows_of (one ++ es)) =
      subst (λ (t : List BlockEntry). IsSorted (rows_of t)) moved sorted in
    let sorted1 : IsSorted (rows_of ((flat cs ++ cur) ++ e ∷ [])) =
      subst (λ (t : List BlockEntry). IsSorted (rows_of (t ++ e ∷ []))) (sym grown.same)
        (IsSorted-left (rows_of one) (rows_of es)
          (subst (λ (m : Table). IsSorted m) (rows_of-append one es) sorted')) in
    let small' : length (all_entries (one ++ es)) + 4 < 2 ^ 32 =
      subst (λ (t : List BlockEntry). length (all_entries t) + 4 < 2 ^ 32) moved small in
    let small1 : length (all_entries (cur ++ e ∷ [])) + 4 < 2 ^ 32 =
      part_small cs cur one (ap (λ (t : List BlockEntry). t ++ e ∷ []) grown.same) small' in
    let (b1, ran, g1) = add-Grown z b cs cur e grown.built can.0 sorted1 small1 in
    let g1' = subst (λ (t : List BlockEntry). Grown z (t ++ e ∷ []) b1) grown.same g1 in
    let (b2, ran2, g2) = add_rows-Grown z b1 one es g1' can.1 sorted' small' in
    (
      b2,
      ap (λ (r : SsTableBuilder × Status). and_then r (λ b'. add_rows z b' (rows_of es))) ran
          ∙ ran2,
      subst (λ (t : List BlockEntry). Grown z t b2) (sym moved) g2,
    )
  where
    part_small :
        (cs : List (List BlockEntry)) (cur one : List BlockEntry)
        → (flat cs ++ cur) ++ e ∷ [] ≡ one
        → length (all_entries (one ++ es)) + 4 < 2 ^ 32
        → length (all_entries (cur ++ e ∷ [])) + 4 < 2 ^ 32
    part_small cs cur one same h =
        let whole : length (all_entries one)
            ≡ length (all_entries (flat cs)) + length (all_entries (cur ++ e ∷ [])) =
          ap (λ (t : List BlockEntry). length (all_entries t))
            (sym same ∙ append_assoc (flat cs) cur (e ∷ []))
          ∙ ap (λ (t : List ℕ). length t) (all_entries-append (flat cs) (cur ++ e ∷ []))
          ∙ length-append (all_entries (flat cs)) (all_entries (cur ++ e ∷ [])) in
        omega (
          arith,
          h,
          whole,
          ap (λ (t : List ℕ). length t) (all_entries-append one es),
          length-append (all_entries one) (all_entries es),
        )
