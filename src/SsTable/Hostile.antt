-- ===== src/SsTable/Hostile.antt =====
-- src/sstable.cpp on bytes that nobody vouches for: the loops end, and what an index names lies inside
-- the data region.
use mathlib.Core.Path.{subst}
use native.Mathlib.Decide.{dec_lt}
use lsm_tree_storage_engine.Prelude.{
  ℕ, List, ap, inl, err, ok, suc, some, zero, ◌≤◌, Option, false, Result, Result-cases, refl, arith,
  ◌∷◌, true, ◌<◌, ltb, Bool-cases, length, ◌+◌, inr, ◌≡◌, [], none, not, Bool, ◌>>=◌, ◌-◌,
  corruption, ◌*◌, reject_if, ◌==◌, ◌>>◌, ◌^◌, ◌∙◌, sym,
}
use lsm_tree_storage_engine.Key.{Key}
use lsm_tree_storage_engine.SsTable.{
  BlockEntry, IndexEntry, parse_entry, parse_loop, parse_block, push,
}
use lsm_tree_storage_engine.LogFile.Reads.{IsPread, read_loop-inside, read_loop-short}
use lsm_tree_storage_engine.SsTable.Table.{
  load_entry, load_entries, load_index, not_behind, read_at, index_header_size,
  index_entry_fixed_size,
}
use lsm_tree_storage_engine.Encoding.{get_u32}
use lsm_tree_storage_engine.LogFile

parse_entry-later :
    (payload : List ℕ) (at next : ℕ) (entry : BlockEntry)
    → parse_entry payload at ≡ ok (entry, next)
    → at + 9 ≤ next
unfolding parse_entry
parse_entry-later payload at next entry h = ground arith

push-total :
    (entry : BlockEntry) (o : Option (Result (List BlockEntry)))
    → (r : Result (List BlockEntry)) × (o ≡ some r)
    → (r : Result (List BlockEntry)) × (push entry o ≡ some r)
push-total entry o (err code, e) = (err code, ap (push entry) e)
push-total entry o (ok entries, e) = (ok (entry ∷ entries), ap (push entry) e)

parse_loop-total :
    (fuel : ℕ) (payload : List ℕ) (at : ℕ)
    → length payload < fuel + at
    → 0 < fuel
    → (r : Result (List BlockEntry)) × (parse_loop fuel payload at ≡ some r)
unfolding parse_loop
parse_loop-total zero payload at h pos = absurd (omega arith)
parse_loop-total (suc fuel) payload at h pos = elim (Bool-cases (ltb at (length payload))) [
  | inr done ↦ (ok [], rw done refl)
  | inl more ↦ elim (Result-cases (parse_entry payload at)) [
    | inr (code, bad) ↦ (err code, rw (more, bad) refl)
    | inl ((entry, next), good) ↦
        let (r, ends) = push-total entry (parse_loop fuel payload next) (
          parse_loop-total fuel payload next
            (omega (arith, h, parse_entry-later payload at next entry good))
            (ground (arith, h, more))) in
        (r, rw (more, good) ends)
  ]
]

-- A block's parse returns on every payload, intact or not.
pub parse_block-total :
    (payload : List ℕ) → (r : Result (List BlockEntry)) × (parse_block payload ≡ some r)
unfolding parse_block
parse_block-total payload =
    parse_loop-total (suc (length payload)) payload 0 (omega arith) (omega arith)

-- What an index is once it has been loaded: every entry has a key, comes behind the one before it, and
-- names a block that has room for its crc and lies in the region.
pub record InRegion (region : ℕ) (e : IndexEntry) : Type 0 where
  pub trailer : 4 ≤ e.block_size
  pub inside : e.block_offset + e.block_size ≤ region

abbrev pub IsIndex : ℕ → Option Key → List IndexEntry → Type 0
IsIndex region last [] = Unit
IsIndex region last (e ∷ es) =
    InRegion region e × ((not_behind last e.key ≡ false) × IsIndex region (some e.key) es)

abbrev Indexed : ℕ → Option Key → Result (List IndexEntry × ℕ) → Type 0
Indexed region last (err code) = Unit
Indexed region last (ok (es, next)) = IsIndex region last es

module _ (payload : List ℕ) (region : ℕ) where
  load_entry-InRegion :
      (last : Option Key) (at next : ℕ) (e : IndexEntry)
      → load_entry payload region last at ≡ ok (e, next)
      → InRegion region e
  unfolding load_entry
  load_entry-InRegion last at next e h = record { trailer = ground arith; inside = ground arith }

  load_entry-behind :
      (last : Option Key) (at next : ℕ) (e : IndexEntry)
      → load_entry payload region last at ≡ ok (e, next)
      → not_behind last e.key ≡ false
  unfolding load_entry
  load_entry-behind last at next e h = ground arith

  load_entries-Indexed :
      (count : ℕ) (last : Option Key) (at : ℕ)
      → Indexed region last (load_entries count payload region last at)
  unfolding load_entries
  load_entries-Indexed zero last at = tt
  load_entries-Indexed (suc count) last at =
      elim (Result-cases (load_entry payload region last at)) [
        | inr (code, bad) ↦ rw bad tt
        | inl ((e, next), good) ↦
            elim (Result-cases (load_entries count payload region (some e.key) next)) [
              | inr (code, bad) ↦ rw (good, bad) tt
              | inl ((es, end), rest) ↦
                  rw (good, rest)
                    (
                      load_entry-InRegion last at next e good,
                      (
                        load_entry-behind last at next e good,
                        subst (Indexed region (some e.key)) rest
                            (load_entries-Indexed count (some e.key) next),
                      ),
                    )
            ]
      ]

  -- Whatever the payload, an index that is loaded from it is in key order, and each of its entries names
  -- a block that has room for its crc and lies in the data region.
  pub load_index-IsIndex :
      (index : List IndexEntry) → load_index payload region ≡ ok index → IsIndex region none index
  unfolding load_index
  load_index-IsIndex index h =
      let (next, loaded) =
        loaded_all
          (ltb (length payload - index_header_size) (get_u32 payload 0 * index_entry_fixed_size))
          (load_entries (get_u32 payload 0) payload region none index_header_size) h in
      subst (Indexed region none) loaded
        (load_entries-Indexed (get_u32 payload 0) none index_header_size)
    where
      at_end :
          (bad : Bool) (es : List IndexEntry)
          → (reject_if bad corruption >> ok es) ≡ ok index
          → es ≡ index
      at_end true es e = cc
      at_end false es e = cc

      loaded_all :
          (bad : Bool) (r : Result (List IndexEntry × ℕ))
          → (reject_if bad corruption
              >> (r >>= λ entries.
                  reject_if (not (entries.1 == length payload)) corruption >> ok entries.0))
            ≡ ok index
          → (next : ℕ) × (r ≡ ok (index, next))
      loaded_all true r e = cc
      loaded_all false (err code) e = cc
      loaded_all false (ok (es, next)) e = (
        next,
        ap (λ (es : List IndexEntry). ok (es, next)) (at_end (not (next == length payload)) es e),
      )

-- A read of at least a byte is the same in both modes: over any `pread` that keeps its word for the
-- file, however short its answers are, the loop of `LogFile::read_at` ends with what the mapping gives,
-- the same bytes or the same refusal, where the bytes asked for end within the offsets of the system.
pub read_at-modes :
    (file : List ℕ) (pread : ℕ → ℕ → Result (List ℕ)) (offset size : ℕ)
    → IsPread file pread
    → 0 < size
    → offset + size < 2 ^ 63
    → LogFile.read_at pread offset size ≡ some (read_at true file offset size)
unfolding LogFile.read_at read_at
read_at-modes file pread offset size word some_size fits =
    elim (dec_lt (length file) (offset + size)) [
      | yes short ↦
          read_loop-short file pread word (size + 1) size offset [] some_size (omega arith) short
            fits
          ∙ ap some (sym (ground (arith, short)))
      | no inside ↦
          read_loop-inside file pread word (size + 1) size offset [] (omega arith)
            (omega (arith, inside)) fits
          ∙ ap some (sym (ground (arith, inside)))
    ]
