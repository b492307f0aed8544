-- ===== src/SsTable/Index.antt =====
-- src/sstable.cpp: the index block that `finish` writes, under `load_index`.
use native.Mathlib.Nat.{mod-eq_of_lt}
use mathlib.Core.Path.{subst}
use lsm_tree_storage_engine.Prelude.{
  ℕ, ◌∙◌, corruption, ltb-false, ◌++◌, Result, reject-pass, reject_if, ◌≤◌, ◌<◌, ap, [], List, ok,
  ◌≡◌, some, ◌-◌, ◌==◌, ==_refl, length-append, length, ◌||◌, sym, append-nil, ◌^◌, refl, false,
  not, ltb, ◌%◌, append_assoc, ◌+◌, Option, arith, bind-ok, ◌*◌, none, ◌∷◌, ◌>>=◌, ◌>>◌,
}
use lsm_tree_storage_engine.Encoding.{
  append_u32, get_u32, get_u64, subspan, IsU32, le32, le64, IsU64, append_u64,
}
use lsm_tree_storage_engine.Encoding.Layout.{append_u32_lem, append_u64_lem}
use lsm_tree_storage_engine.SsTable.{IndexEntry, append_index}
use lsm_tree_storage_engine.SsTable.Table.{not_behind, load_entry, load_entries, load_index}
use lsm_tree_storage_engine.Key.{Key}
use lsm_tree_storage_engine.Encoding.Cursor.{
  At, At-skip, get_u32-At, At-append_skip, get_u64-At, subspan-At,
}

abbrev pub index_entry_bytes : IndexEntry → List ℕ
index_entry_bytes e = le32 (length e.key) ++ (e.key ++ (le64 e.block_offset ++ le32 e.block_size))

abbrev pub index_bytes : List IndexEntry → List ℕ
index_bytes [] = []
index_bytes (e ∷ es) = index_entry_bytes e ++ index_bytes es

abbrev pub index_payload : List IndexEntry → List ℕ
index_payload es = le32 (length es) ++ index_bytes es

-- What `load_index` asks of an entry, in a data region of a given size.
pub record GoodEntry (region : ℕ) (e : IndexEntry) : Type 0 where
  pub has_key : 0 < length e.key
  pub key_u32 : IsU32 (length e.key)
  pub offset_u64 : IsU64 e.block_offset
  pub size_u32 : IsU32 e.block_size
  pub trailer : 4 ≤ e.block_size
  pub inside : e.block_offset + e.block_size ≤ region

-- Entries in order behind a key.
abbrev pub GoodIndex : ℕ → Option Key → List IndexEntry → Type 0
GoodIndex region last [] = Unit
GoodIndex region last (e ∷ es) =
    GoodEntry region e × ((not_behind last e.key ≡ false) × GoodIndex region (some e.key) es)

append_index-eq :
    (out : List ℕ) (region : ℕ) (last : Option Key) (es : List IndexEntry)
    → GoodIndex region last es
    → append_index out es ≡ out ++ index_bytes es
unfolding append_index
append_index-eq out region last [] good = sym (append-nil out)
append_index-eq out region last (e ∷ es) good =
    ap
      (λ (n : ℕ).
        append_index
          (append_u32 (append_u64 (append_u32 out n ++ e.key) e.block_offset) e.block_size) es)
      (mod-eq_of_lt good.0.key_u32)
    ∙ ap (λ (o : List ℕ). append_index o es) (simp (append_u32_lem, append_u64_lem, append_assoc))
    ∙ append_index-eq (out ++ index_entry_bytes e) region (some e.key) es good.1.1
    ∙ append_assoc out (index_entry_bytes e) (index_bytes es)

pub index_payload-eq :
    (region : ℕ) (es : List IndexEntry)
    → IsU32 (length es)
    → GoodIndex region none es
    → append_index (append_u32 [] (length es % 2 ^ 32)) es ≡ index_payload es
index_payload-eq region es fits good =
    ap (λ (o : List ℕ). append_index o es)
      (ap (append_u32 []) (mod-eq_of_lt fits) ∙ append_u32_lem [] (length es))
    ∙ append_index-eq (le32 (length es)) region none es good

module _ (payload : List ℕ) (region : ℕ) where
  load_entry-At :
      (last : Option Key) (at : ℕ) (e : IndexEntry) (rest : List ℕ)
      → GoodEntry region e
      → not_behind last e.key ≡ false
      → At payload at
          (le32 (length e.key) ++ (e.key ++ (le64 e.block_offset ++ (le32 e.block_size ++ rest))))
      → at + 16 + length e.key ≤ length payload
      → load_entry payload region last at ≡ ok (e, at + 4 + length e.key + 8 + 4)
  unfolding load_entry
  load_entry-At last at e rest good order a room =
      let tail = le64 e.block_offset ++ (le32 e.block_size ++ rest) in
      let key_at = At-skip 4 a in
      let offset_at = At-append_skip e.key tail key_at in
      let size_at = At-skip 8 offset_at in
      let size_eq = get_u32-At (length e.key) (e.key ++ tail) a good.key_u32 in
      reject-pass _ _ _ (ltb-false (length payload - at) 16 (omega arith)) (
        ap with_size size_eq
        ∙ reject-pass
            ((length e.key == 0)
              || (ltb (length payload - (at + 4)) (length e.key)
                  || ltb (length payload - (at + 4) - length e.key) 12))
            _ _ (ground (arith, good.has_key, room))
            (ap
                (λ (n : ℕ).
                  with_block n (get_u32 payload (at + 4 + length e.key + 8))
                    (subspan payload (at + 4) (length e.key)))
                (get_u64-At e.block_offset (le32 e.block_size ++ rest) offset_at good.offset_u64)
              ∙ ap
                  (λ (n : ℕ). with_block e.block_offset n (subspan payload (at + 4) (length e.key)))
                  (get_u32-At e.block_size rest size_at good.size_u32)
              ∙ ap (with_block e.block_offset e.block_size) (subspan-At e.key tail key_at)
              ∙ reject-pass
                  (ltb e.block_size 4
                    || (ltb region e.block_offset || ltb (region - e.block_offset) e.block_size))
                  _ _ (ground (arith, good.trailer, good.inside)) (reject-pass _ _ _ order refl)))
    where
      with_block : ℕ → ℕ → Key → Result (IndexEntry × ℕ)
      with_block block_offset block_size key = do
        reject_if
            (ltb block_size 4
              || (ltb region block_offset || ltb (region - block_offset) block_size))
            corruption
        reject_if (not_behind last key) corruption
        ok (
          record { key = key; block_offset = block_offset; block_size = block_size },
          at + 4 + length e.key + 8 + 4,
        )

      with_size : ℕ → Result (IndexEntry × ℕ)
      with_size key_size = do
        let at' = at + 4
        reject_if
            ((key_size == 0)
              || (ltb (length payload - at') key_size || ltb (length payload - at' - key_size) 12))
            corruption
        let key = subspan payload at' key_size
        let block_offset = get_u64 payload (at' + key_size)
        let block_size = get_u32 payload (at' + key_size + 8)
        reject_if
            (ltb block_size 4
              || (ltb region block_offset || ltb (region - block_offset) block_size))
            corruption
        reject_if (not_behind last key) corruption
        ok (
          record { key = key; block_offset = block_offset; block_size = block_size },
          at' + key_size + 8 + 4,
        )

  load_entries-At :
      (last : Option Key) (at : ℕ) (es : List IndexEntry)
      → GoodIndex region last es
      → At payload at (index_bytes es)
      → at + length (index_bytes es) ≡ length payload
      → load_entries (length es) payload region last at ≡ ok (es, length payload)
  unfolding load_entries
  load_entries-At last at [] good a e = ap (λ n. ok ([], n)) (omega (arith, e))
  load_entries-At last at (x ∷ es) good a e =
      let next = at + 4 + length x.key + 8 + 4 in
      let size = length-append (index_entry_bytes x) (index_bytes es) in
      let size' = length-append x.key (le64 x.block_offset ++ le32 x.block_size) in
      let moved : At payload at (
          le32 (length x.key)
          ++ (x.key ++ (le64 x.block_offset ++ (le32 x.block_size ++ index_bytes es)))) =
        subst (At payload at) (simp append_assoc) a in
      let next_at : At payload next (index_bytes es) = At-skip 4 (
        At-skip 8 (
          At-append_skip x.key (le64 x.block_offset ++ (le32 x.block_size ++ index_bytes es))
            (At-skip 4 moved))) in
      bind-ok _ _
        (load_entry-At last at x (index_bytes es) good.0 good.1.0 moved
          (omega (arith, e, size, size')))
        (bind-ok _ _
          (load_entries-At (some x.key) next es good.1.1 next_at (omega (arith, e, size, size')))
          refl)

-- An index is loaded from the payload that is written of it.
pub load_index-index_payload :
    (region : ℕ) (es : List IndexEntry)
    → IsU32 (length es)
    → GoodIndex region none es
    → load_index (index_payload es) region ≡ ok es
unfolding load_index
load_index-index_payload region es fits good =
    let p = index_payload es in
    let start : At p 0 (le32 (length es) ++ index_bytes es) = record { left = refl } in
    let count_eq = get_u32-At (length es) (index_bytes es) start fits in
    ap with_count count_eq
    ∙ reject-pass _ _ _ (ltb-false (length p - 4) (length es * 16) (omega (arith, long es))) (
        bind-ok _ _ (load_entries-At p region none 4 es good (At-skip 4 start) (omega arith))
          (reject-pass (not (length p == length p)) _ _ (ap not (==_refl (length p))) refl))
  where
    with_count : ℕ → Result (List IndexEntry)
    with_count count = do
      reject_if (ltb (length (index_payload es) - 4) (count * 16)) corruption
      entries ← load_entries count (index_payload es) region none 4
      reject_if (not (entries.1 == length (index_payload es))) corruption
      ok entries.0

    long : (es : List IndexEntry) → length es * 16 ≤ length (index_bytes es)
    long [] = omega arith
    long (e ∷ es) = omega (
      arith,
      length-append (index_entry_bytes e) (index_bytes es),
      length-append e.key (le64 e.block_offset ++ le32 e.block_size),
      long es,
    )
