-- ===== src/SsTable/Footers.antt =====
-- The table's footer, read back.
use lsm_tree_storage_engine.Prelude.{
  ℕ, List, reject-pass, ◌∙◌, drop, ◌==◌, ◌≡◌, ok, ==_refl, arith, ◌++◌, not, ap, refl, length,
}
use lsm_tree_storage_engine.SsTable.{Footer, encode_footer, decode_footer, magic}
use lsm_tree_storage_engine.Key.{key_eq}
use lsm_tree_storage_engine.Crc.{Zlib, crc32_of, crc32_of-lt}
use lsm_tree_storage_engine.Encoding.{
  append_u32, IsU64, le64, IsU32, le32, append_u64, put_u32, put_u64,
}
use lsm_tree_storage_engine.Encoding.Cursor.{get_u32-At, At, At-skip, get_u64-At}

-- What the fields of a footer hold.
pub record CanWrite (f : Footer) : Type 0 where
  pub index_offset : IsU64 f.index_offset
  pub index_size : IsU32 f.index_size
  pub filter_offset : IsU64 f.filter_offset
  pub filter_size : IsU32 f.filter_size
  pub entry_count : IsU64 f.entry_count
  pub version : f.format_version ≡ 1

abbrev front : Footer → List ℕ
front f =
    le64 f.index_offset
    ++ (le32 f.index_size
        ++ (le64 f.filter_offset
            ++ (le32 f.filter_size ++ (le64 f.entry_count ++ le32 f.format_version))))

encode_footer-eq :
    (z : Zlib) (f : Footer) → encode_footer z f ≡ front f ++ (le32 (crc32_of z (front f)) ++ magic)
unfolding encode_footer append_u32 append_u64 put_u32 put_u64
encode_footer-eq z f = refl

pub length-encode_footer : (z : Zlib) (f : Footer) → length (encode_footer z f) ≡ 44
length-encode_footer z f = ap (λ (t : List ℕ). length t) (encode_footer-eq z f)

module _ (z : Zlib) (f : Footer) (can : CanWrite f) where
  abbrev bytes : List ℕ
  bytes = front f ++ (le32 (crc32_of z (front f)) ++ magic)

  whole : At bytes 0 bytes
  whole = record { left = refl }

  -- A footer whose fields fit, of this format version, is read back from its bytes.
  pub decode_footer-encode : decode_footer z (encode_footer z f) ≡ ok f
  unfolding decode_footer key_eq
  decode_footer-encode =
      let crc_eq =
        get_u32-At (crc32_of z (front f)) magic (At-skip 36 whole) (crc32_of-lt z (front f)) in
      let version_eq =
        get_u32-At f.format_version (drop 36 bytes) (At-skip 32 whole)
          (omega (arith, can.version)) in
      ap (decode_footer z) (encode_footer-eq z f)
      ∙ reject-pass _ _ _
          (ap (λ (n : ℕ). not (n == crc32_of z (front f))) crc_eq
            ∙ ap not (==_refl (crc32_of z (front f))))
          (reject-pass _ _ _ (ap (λ (n : ℕ). not (n == 1)) (version_eq ∙ can.version)) (λ i.
            ok (record {
              index_offset = get_u64-At f.index_offset (drop 8 bytes) whole can.index_offset i;
              index_size =
                  get_u32-At f.index_size (drop 12 bytes) (At-skip 8 whole) can.index_size i;
              filter_offset =
                  get_u64-At f.filter_offset (drop 20 bytes) (At-skip 12 whole) can.filter_offset i;
              filter_size =
                  get_u32-At f.filter_size (drop 24 bytes) (At-skip 20 whole) can.filter_size i;
              entry_count =
                  get_u64-At f.entry_count (drop 32 bytes) (At-skip 24 whole) can.entry_count i;
              format_version = version_eq i;
            })))
