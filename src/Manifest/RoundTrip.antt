-- ===== src/Manifest/RoundTrip.antt =====
-- The manifest's bytes, read back.
use mathlib.Core.Path.{subst}
use lsm_tree_storage_engine.Prelude.{
  ℕ, ◌++◌, ◌==◌, Result, ◌∙◌, ◌>>◌, ◌*◌, [], ◌+◌, refl, not, ltb, ◌≤◌, reject-pass, take,
  append_assoc, take-append_eq, ap, ◌≡◌, length-append, bind-ok, ◌-◌, reject_if, ==_refl, ltb-false,
  ◌∷◌, List, ok, All, arith, corruption, length,
}
use lsm_tree_storage_engine.Manifest.{
  TableMeta, LevelSet, encode, magic, take_string, decode_table, decode_tables, decode_level,
  decode_levels, decode_payload, decode,
}
use lsm_tree_storage_engine.Manifest.Layout.{
  string_bytes, table_bytes, all_tables, one_level, all_levels, payload, encode-eq, CanName,
  CanStore, CanList, length-table_bytes, length-all_tables, length-all_levels,
}
use lsm_tree_storage_engine.Encoding.Cursor.{
  At, get_u32-At, At-append_skip, At-skip, subspan-At, get_u64-At,
}
use lsm_tree_storage_engine.Crc.{Zlib, crc32_of, crc32_of-lt}
use lsm_tree_storage_engine.Encoding.{get_u32, le32, IsU32, subspan, le64}
use lsm_tree_storage_engine.Key.{key_eq_refl}
use lsm_tree_storage_engine.Encoding.RoundTrip.{get_u32-append}

module _ (bytes : List ℕ) (limit : ℕ) where
  take_string-At :
      (at : ℕ) (s rest : List ℕ)
      → At bytes at (string_bytes s ++ rest)
      → IsU32 (length s)
      → at + 4 + length s ≤ limit
      → take_string bytes limit at ≡ ok (s, at + 4 + length s)
  unfolding take_string
  take_string-At at s rest a h room = reject-pass _ _ _ (ltb-false (limit - at) 4 (omega arith)) (
      ap
        (λ (n : ℕ).
          reject_if (ltb (limit - (at + 4)) n) corruption
          >> ok (subspan bytes (at + 4) n, at + 4 + n))
        (get_u32-At (length s) (s ++ rest) a h)
      ∙ reject-pass _ _ _ (ltb-false (limit - (at + 4)) (length s) (omega arith))
          (ap (λ (t : List ℕ). ok (t, at + 4 + length s)) (subspan-At s rest (At-skip 4 a))))

  -- The fields of a table's entry.
  module _ (at : ℕ) (t : TableMeta) (rest : List ℕ) (can : CanName t) where
    abbrev low_bytes : List ℕ
    low_bytes = string_bytes t.min_key ++ (string_bytes t.max_key ++ rest)

    abbrev high_at : ℕ
    high_at = at + 4 + 8 + 8 + 4 + length t.min_key

    abbrev end : ℕ
    end = high_at + 4 + length t.max_key

    decode_table-At :
        At bytes at (le32 t.id ++ (le64 t.file_size ++ (le64 t.entry_count ++ low_bytes)))
        → end ≤ limit
        → decode_table bytes limit at ≡ ok (t, end)
    unfolding decode_table
    decode_table-At a room =
        let size_at = At-skip 4 a in
        let count_at = At-skip 8 size_at in
        let low_at = At-skip 8 count_at in
        let high_at' =
          At-append_skip (string_bytes t.min_key) (string_bytes t.max_key ++ rest) low_at in
        let id_eq =
          get_u32-At t.id (le64 t.file_size ++ (le64 t.entry_count ++ low_bytes)) a can.id_u32 in
        let size_eq =
          get_u64-At t.file_size (le64 t.entry_count ++ low_bytes) size_at can.size_u64 in
        let count_eq = get_u64-At t.entry_count low_bytes count_at can.count_u64 in
        reject-pass _ _ _ (ltb-false (limit - at) 20 (omega arith)) (
          bind-ok _ _
            (take_string-At (at + 4 + 8 + 8) t.min_key (string_bytes t.max_key ++ rest) low_at
              can.min_u32 (omega arith))
            (bind-ok _ _
              (take_string-At high_at t.max_key rest
                (subst (λ (n : ℕ). At bytes n (string_bytes t.max_key ++ rest)) (omega arith)
                  high_at')
                can.max_u32 room)
              (reject-pass _ _ _ (ltb-false (get_u32 bytes at) 1 (omega (arith, id_eq, can.has_id)))
                (reject-pass _ _ _ can.ordered (λ i. ok (
                  record {
                    id = id_eq i;
                    file_size = size_eq i;
                    entry_count = count_eq i;
                    min_key = t.min_key;
                    max_key = t.max_key;
                  },
                  end,
                ))))))

  -- The position behind a table's entry, a level's entries and all levels.
  decode_tables-At :
      (tables : List TableMeta) (at : ℕ) (rest : List ℕ)
      → At bytes at (all_tables tables ++ rest)
      → All CanName tables
      → at + length (all_tables tables) ≤ limit
      → decode_tables (length tables) bytes limit at ≡ ok (tables, at + length (all_tables tables))
  unfolding decode_tables
  decode_tables-At [] at rest a can room = ap (λ n. ok ([], n)) (omega arith)
  decode_tables-At (t ∷ tables) at rest a can room =
      let behind = at + length (table_bytes t) in
      let size = length-append (table_bytes t) (all_tables tables) in
      let next =
        At-append_skip (table_bytes t) (all_tables tables ++ rest)
          (subst (At bytes at) (append_assoc (table_bytes t) (all_tables tables) rest) a) in
      bind-ok _ _
        (decode_table-At at t (all_tables tables ++ rest) can.0
            (subst (At bytes at) (simp append_assoc) a) (omega (arith, size, length-table_bytes t))
          ∙ ap (λ n. ok (t, n)) (omega (arith, length-table_bytes t)))
        (bind-ok _ _ (decode_tables-At tables behind rest next can.1 (omega (arith, size)))
          (ap (λ n. ok (t ∷ tables, n)) (omega (arith, size))))

  decode_level-At :
      (level : List TableMeta) (at : ℕ) (rest : List ℕ)
      → At bytes at (one_level level ++ rest)
      → CanList level
      → at + length (one_level level) ≤ limit
      → decode_level bytes limit at ≡ ok (level, at + length (one_level level))
  unfolding decode_level
  decode_level-At level at rest a can room =
      reject-pass _ _ _ (ltb-false (limit - at) 4 (omega arith)) (
        ap
          (λ (n : ℕ).
            reject_if (ltb (limit - (at + 4)) (n * 28)) corruption
            >> decode_tables n bytes limit (at + 4))
          (get_u32-At (length level) (all_tables level ++ rest) a can.0)
        ∙ reject-pass _ _ _
            (ltb-false (limit - (at + 4)) (length level * 28)
              (omega (arith, length-all_tables level)))
            (decode_tables-At level (at + 4) rest (At-skip 4 a) can.1 (omega arith)
              ∙ ap (λ n. ok (level, n)) (omega arith)))

  decode_levels-At :
      (levels : List (List TableMeta)) (at : ℕ) (rest : List ℕ)
      → At bytes at (all_levels levels ++ rest)
      → All CanList levels
      → at + length (all_levels levels) ≤ limit
      → decode_levels (length levels) bytes limit at ≡ ok (levels, at + length (all_levels levels))
  unfolding decode_levels
  decode_levels-At [] at rest a can room = ap (λ n. ok ([], n)) (omega arith)
  decode_levels-At (level ∷ levels) at rest a can room =
      let behind = at + length (one_level level) in
      let size = length-append (one_level level) (all_levels levels) in
      let here = subst (At bytes at) (append_assoc (one_level level) (all_levels levels) rest) a in
      let next = At-append_skip (one_level level) (all_levels levels ++ rest) here in
      bind-ok _ _
        (decode_level-At level at (all_levels levels ++ rest) here can.0 (omega (arith, size)))
        (bind-ok _ _ (decode_levels-At levels behind rest next can.1 (omega (arith, size)))
          (ap (λ n. ok (level ∷ levels, n)) (omega (arith, size))))

module _ (z : Zlib) (s : LevelSet) (can : CanStore s) where
  abbrev front : List ℕ
  front = payload s

  abbrev crc : ℕ
  crc = crc32_of z front

  abbrev file : List ℕ
  file = front ++ le32 crc

  abbrev levels_bytes : List ℕ
  levels_bytes = all_levels s.levels ++ le32 crc

  payload-At :
      At file 0 (magic ++ (le32 1 ++ (le32 s.next_id ++ (le32 (length s.levels) ++ levels_bytes))))
  payload-At = record { left = refl }

  decode_payload-eq : decode_payload file (length front) ≡ ok s
  unfolding decode_payload
  decode_payload-eq =
      let count_eq =
        get_u32-At (length s.levels) levels_bytes (At-skip 12 payload-At) can.count_u32 in
      let version_eq =
        get_u32-At 1 (le32 s.next_id ++ (le32 (length s.levels) ++ levels_bytes))
          (At-skip 4 payload-At) (omega arith) in
      let next_eq =
        get_u32-At s.next_id (le32 (length s.levels) ++ levels_bytes) (At-skip 8 payload-At)
          can.next_u32 in
      reject-pass _ _ _ (ap (λ (n : ℕ). not (n == 1)) version_eq) (
        reject-pass _ _ _
          (ltb-false (length front - 16) (get_u32 file 12 * 4)
            (omega (arith, count_eq, length-all_levels s.levels)))
          (bind-ok _ _
            (ap (λ (n : ℕ). decode_levels n file (length front) 16) count_eq
              ∙ decode_levels-At file (length front) s.levels 16 (le32 crc) (At-skip 16 payload-At)
                  can.named (omega arith))
            (reject-pass _ _ _ (ground arith)
              (λ i. ok (record { next_id = next_eq i; levels = s.levels })))))

  -- A level set whose numbers fit their fields, whose ids are not 0 and whose tables' ranges are not
  -- inverted is read back from the bytes of its manifest.
  pub decode-encode_levels : decode z (encode z s) ≡ ok s
  unfolding decode
  decode-encode_levels =
      ap (decode z) (encode-eq z s can)
      ∙ reject-pass _ _ _
          (ltb-false (length file) 20 (omega (arith, length-append front (le32 crc))))
          (reject-pass _ _ _ (ap not (key_eq_refl magic)) (
            ap at_size (omega (arith, length-append front (le32 crc)))
            ∙ reject-pass _ _ _
                (ap (λ (n : ℕ). not (n == crc32_of z (take (length front) file)))
                    (get_u32-append front [] crc (length front) refl (crc32_of-lt z front))
                  ∙ ap (λ (t : List ℕ). not (crc == crc32_of z t))
                      (take-append_eq (length front) front (le32 crc) refl)
                  ∙ ap not (==_refl crc))
                decode_payload-eq))
    where
      at_size : ℕ → Result LevelSet
      at_size n = do
        reject_if (not (get_u32 file n == crc32_of z (take n file))) corruption
        decode_payload file n
