-- ===== src/Bitcask/Hints.antt =====
-- src/bitcask.cpp, `replay_hint`: a sealed file's index, read from its hint file. A hint that is not
-- used is an error here, and changes nothing.
use lsm_tree_storage_engine.Prelude.{
  ℕ, List, ltb, suc, [], some, Result, zero, ◌≡◌, Bool-cases, corruption, Result-cases, ◌==◌, false,
  ap, inl, reject_if, Bool, none, ◌∷◌, ◌≤◌, ◌<◌, ◌&&◌, Option, ◌+◌, inr, refl, ◌/◌, not, true, err,
  ◌%◌, ◌-◌, ◌∙◌, arith, length, ◌^◌, ok, if◌then◌else◌, ◌>>=◌, ◌>>◌,
}
use lsm_tree_storage_engine.Crc.{Zlib}
use lsm_tree_storage_engine.Encoding.{get_u32}
use lsm_tree_storage_engine.Hint.{
  Entry, Footer, entry_header_size, footer_size, decode_entry, decode_footer,
}
use lsm_tree_storage_engine.SsTable.Table.{read_file}
use lsm_tree_storage_engine.Bitcask.{ValuePointer, index_put, mark_displaced, Replay}

-- One round of the loop: the entry, and the position behind it.
unfoldable pub read_entry : Zlib → List ℕ → ℕ → ℕ → ℕ → Result (Entry × ℕ)
read_entry z hint data_size entries_end offset = do
  reject_if (ltb entries_end (offset + entry_header_size)) corruption
  header_bytes ← read_file hint offset entry_header_size
  let total = entry_header_size + get_u32 header_bytes 24
  reject_if (ltb entries_end (offset + total)) corruption
  entry_bytes ← read_file hint offset (total % 2 ^ 32)
  entry ← decode_entry z entry_bytes
  reject_if (ltb data_size ((entry.record_offset + entry.record_size) % 2 ^ 64)) corruption
  ok (entry, offset + total)

-- `entries.push_back(entry.take())`, in front of what the rest gives.
abbrev pub push : Entry → Option (Result (List Entry × ℕ)) → Option (Result (List Entry × ℕ))
push entry none = none
push entry (some (err code)) = some (err code)
push entry (some (ok (entries, offset))) = some (ok (entry ∷ entries, offset))

abbrev pub read_on :
    (ℕ → Option (Result (List Entry × ℕ))) → Result (Entry × ℕ) → Option (Result (List Entry × ℕ))
read_on next (err code) = some (err code)
read_on next (ok (entry, offset)) = push entry (next offset)

-- `none` means that the fuel ran out.
unfoldable pub read_entries : ℕ → Zlib → List ℕ → ℕ → ℕ → ℕ → Option (Result (List Entry × ℕ))
read_entries zero z hint data_size entries_end offset = none
read_entries (suc fuel) z hint data_size entries_end offset =
    let rest =
      read_on (read_entries fuel z hint data_size entries_end)
        (read_entry z hint data_size entries_end offset) in
    if ltb offset entries_end then rest else some (ok ([], offset))

-- What is asked of the footer.
unfoldable pub read_hint_footer : Zlib → List ℕ → ℕ → Result Footer
read_hint_footer z hint data_size = do
  reject_if (ltb (length hint) footer_size) corruption
  footer_bytes ← read_file hint (length hint - footer_size) footer_size
  footer ← decode_footer z footer_bytes
  reject_if (not (footer.data_file_size == data_size)) corruption
  reject_if (ltb ((length hint - footer_size) / entry_header_size) footer.entry_count) corruption
  ok footer

abbrev pub complete : Footer → ℕ → Result (List Entry × ℕ) → Result (List Entry)
complete footer entries_end (err code) = err code
complete footer entries_end (ok (entries, offset)) =
    if (offset == entries_end) && (length entries == footer.entry_count)
    then ok entries
    else err corruption

abbrev pub complete_all :
    Footer → ℕ → Option (Result (List Entry × ℕ)) → Option (Result (List Entry))
complete_all footer entries_end none = none
complete_all footer entries_end (some r) = some (complete footer entries_end r)

abbrev pub read_behind : Zlib → List ℕ → ℕ → Result Footer → Option (Result (List Entry))
read_behind z hint data_size (err code) = some (err code)
read_behind z hint data_size (ok footer) =
    let entries_end = length hint - footer_size in
    complete_all footer entries_end (read_entries (suc entries_end) z hint data_size entries_end 0)

-- The entries of a hint that is used.
unfoldable pub read_hint : Zlib → List ℕ → ℕ → Option (Result (List Entry))
read_hint z hint data_size = read_behind z hint data_size (read_hint_footer z hint data_size)

-- The entries, put into the index one after the other.
unfoldable pub put_entries : ℕ → List Entry → Replay → Replay
put_entries id [] replay = replay
put_entries id (entry ∷ entries) (index, dead) =
    let pointer : ValuePointer = record {
      offset = entry.record_offset;
      timestamp = entry.timestamp;
      file_id = id;
      size = entry.record_size;
    } in
    put_entries id entries
      (index_put index entry.key pointer, mark_displaced dead (index entry.key))

abbrev pub put_all : ℕ → Replay → Option (Result (List Entry)) → Option (Replay × Bool)
put_all id replay none = none
put_all id replay (some (err code)) = some (replay, false)
put_all id replay (some (ok entries)) = some (put_entries id entries replay, true)

-- Whether the hint was used, and the index behind it.
unfoldable pub replay_hint : Zlib → ℕ → List ℕ → ℕ → Replay → Option (Replay × Bool)
replay_hint z id hint data_size replay = put_all id replay (read_hint z hint data_size)

read_entry-later :
    (z : Zlib) (hint : List ℕ) (data_size entries_end offset next : ℕ) (entry : Entry)
    → read_entry z hint data_size entries_end offset ≡ ok (entry, next)
    → offset + 28 ≤ next
unfolding read_entry
read_entry-later z hint data_size entries_end offset next entry h = ground arith

push-total :
    (entry : Entry) (o : Option (Result (List Entry × ℕ)))
    → (r : Result (List Entry × ℕ)) × (o ≡ some r)
    → (r : Result (List Entry × ℕ)) × (push entry o ≡ some r)
push-total entry o (err code, e) = (err code, ap (push entry) e)
push-total entry o (ok (entries, offset), e) = (ok (entry ∷ entries, offset), ap (push entry) e)

module _ (z : Zlib) (hint : List ℕ) (data_size entries_end : ℕ) where
  read_entries-total :
      (fuel offset : ℕ)
      → entries_end < fuel + offset
      → 0 < fuel
      → (r : Result (List Entry × ℕ)) × (read_entries fuel z hint data_size entries_end offset
          ≡ some r)
  unfolding read_entries
  read_entries-total zero offset h pos = absurd (omega arith)
  read_entries-total (suc fuel) offset h pos = elim (Bool-cases (ltb offset entries_end)) [
    | inr done ↦ (ok ([], offset), rw done refl)
    | inl more ↦ elim (Result-cases (read_entry z hint data_size entries_end offset)) [
      | inr (code, bad) ↦ (err code, rw (more, bad) refl)
      | inl ((entry, next), good) ↦
          let later = read_entry-later z hint data_size entries_end offset next entry good in
          let (r, ends) =
            push-total entry (read_entries fuel z hint data_size entries_end next)
              (read_entries-total fuel next (omega (arith, h, later)) (ground (arith, h, more))) in
          (r, rw (more, good) ends)
    ]
  ]

-- The replay of a hint returns on every hint file, intact or not.
pub replay_hint-total :
    (z : Zlib) (id : ℕ) (hint : List ℕ) (data_size : ℕ) (replay : Replay)
    → (r : Replay × Bool) × (replay_hint z id hint data_size replay ≡ some r)
unfolding replay_hint read_hint
replay_hint-total z id hint data_size replay = by_footer (read_hint_footer z hint data_size)
  where
    by_entries :
        (o : Result (List Entry)) → (r : Replay × Bool) × (put_all id replay (some o) ≡ some r)
    by_entries (err code) = ((replay, false), refl)
    by_entries (ok entries) = ((put_entries id entries replay, true), refl)

    by_footer :
        (f : Result Footer)
        → (r : Replay × Bool) × (put_all id replay (read_behind z hint data_size f) ≡ some r)
    by_footer (err code) = ((replay, false), refl)
    by_footer (ok footer) =
        let entries_end = length hint - footer_size in
        let (o, ends) =
          read_entries-total z hint data_size entries_end (suc entries_end) 0 (omega arith)
            (omega arith) in
        let (r, used) = by_entries (complete footer entries_end o) in
        (r, ap (λ o. put_all id replay (complete_all footer entries_end o)) ends ∙ used)
