-- ===== src/Hint/RoundTrip.antt =====
-- The hint file's entries and footer, read back.
use native.Mathlib.Nat.{mod-eq_of_lt}
use lsm_tree_storage_engine.Prelude.{
  ℕ, reject-pass, ◌∙◌, ==_refl, ◌∷◌, ◌≤◌, take_all, sym, not, ap, length-replicate, refl, ◌+◌,
  append-nil, [], take, length, length-append, ◌%◌, take-append_eq, ltb-false, ◌≡◌, replicate, ◌==◌,
  ◌++◌, ok, ◌-◌, arith, List, ◌^◌, ◌<◌, drop,
}
use lsm_tree_storage_engine.Encoding.{le32, le64, put_u32, put_u64, get_u32, IsU32, IsU64, copy_to}
use lsm_tree_storage_engine.Encoding.Layout.{copy_to-append, replicate-add}
use lsm_tree_storage_engine.Encoding.RoundTrip.{get_u32-append, get_u64-append}
use lsm_tree_storage_engine.Crc.{Zlib, crc32_of, crc32_of-lt}
use lsm_tree_storage_engine.Hint.{
  encode_entry, decode_entry, check_entry, encode_footer, decode_footer, Entry, magic,
}
use lsm_tree_storage_engine.Key.{key_eq}
use lsm_tree_storage_engine.Record

-- The footer's bytes before its crc.
abbrev footer_front : ℕ → ℕ → List ℕ
footer_front size count = magic ++ (le64 size ++ le64 count)

encode_footer-eq :
    (z : Zlib) (size count : ℕ)
    → encode_footer z size count
      ≡ footer_front size count ++ le32 (crc32_of z (footer_front size count))
unfolding encode_footer put_u32 put_u64
encode_footer-eq z size count = refl

module _ (z : Zlib) (size count : ℕ) (hs : IsU64 size) (hc : IsU64 count) where
  abbrev front : List ℕ
  front = footer_front size count

  abbrev crc : ℕ
  crc = crc32_of z front

  footer_read :
      decode_footer z (front ++ le32 crc)
      ≡ ok (record { data_file_size = size; entry_count = count })
  unfolding decode_footer key_eq
  footer_read =
      reject-pass _ _ _
        (ap (λ (n : ℕ). not (crc == n)) (get_u32-append front [] crc 20 refl (crc32_of-lt z front))
          ∙ ap not (==_refl crc))
        (λ i. ok (record {
          data_file_size = get_u64-append magic (le64 count ++ le32 crc) size 4 refl hs i;
          entry_count = get_u64-append (magic ++ le64 size) (le32 crc) count 12 refl hc i;
        }))

-- A footer is read back as it was written.
pub decode_footer-encode_footer :
    (z : Zlib) (size count : ℕ)
    → IsU64 size
    → IsU64 count
    → decode_footer z (encode_footer z size count)
      ≡ ok (record { data_file_size = size; entry_count = count })
decode_footer-encode_footer z size count hs hc =
    ap (decode_footer z) (encode_footer-eq z size count) ∙ footer_read z size count hs hc

-- What the crc of an entry covers.
abbrev entry_rest : List ℕ → ℕ → ℕ → ℕ → List ℕ
entry_rest key timestamp offset size =
    le64 timestamp ++ (le64 offset ++ (le32 size ++ (le32 (length key) ++ key)))

abbrev entry_bytes : Zlib → List ℕ → ℕ → ℕ → ℕ → List ℕ
entry_bytes z key timestamp offset size =
    let rest = entry_rest key timestamp offset size in le32 (crc32_of z rest) ++ rest

module _ (key : List ℕ) (timestamp offset size : ℕ) where
  abbrev written : ℕ → List ℕ → List ℕ
  written key_size bytes =
      let out = put_u64 (put_u64 (replicate (28 + key_size) 0) 4 timestamp) 12 offset in
      copy_to (put_u32 (put_u32 out 20 size) 24 key_size) 28 bytes

  abbrev head : List ℕ
  head = 0 ∷ 0 ∷ 0 ∷ 0 ∷ le64 timestamp ++ (le64 offset ++ (le32 size ++ le32 (length key)))

  written-eq :
      IsU32 (length key)
      → written (length key % 2 ^ 32) (take (length key % 2 ^ 32) key)
        ≡ 0 ∷ 0 ∷ 0 ∷ 0 ∷ entry_rest key timestamp offset size
  unfolding put_u32 put_u64
  written-eq h =
      ap (λ (n : ℕ). written n (take n key)) (mod-eq_of_lt h)
      ∙ ap (written (length key)) (take_all (length key) key (omega arith))
      ∙ ap
          (λ (out : List ℕ).
            copy_to
              (put_u32 (put_u32 (put_u64 (put_u64 out 4 timestamp) 12 offset) 20 size) 24
                (length key))
              28 key)
          (replicate-add 28 (length key) 0)
      ∙ ap (λ (t : List ℕ). copy_to (head ++ t) 28 key)
          (sym (append-nil (replicate (length key) 0)))
      ∙ copy_to-append head key (replicate (length key) 0) [] (length-replicate (length key) 0)
      ∙ ap (λ (t : List ℕ). head ++ t) (append-nil key)

encode_entry-eq :
    (z : Zlib) (key : List ℕ) (timestamp offset size : ℕ)
    → IsU32 (length key)
    → encode_entry z key timestamp offset size ≡ entry_bytes z key timestamp offset size
unfolding encode_entry put_u32
encode_entry-eq z key timestamp offset size h =
    ap (λ (out : List ℕ). put_u32 out 0 (crc32_of z (drop 4 out)))
      (written-eq key timestamp offset size h)

module _ (z : Zlib) (key : List ℕ) (timestamp offset size : ℕ) (rest : List ℕ) where
  abbrev bytes : List ℕ
  bytes = entry_bytes z key timestamp offset size ++ rest

  abbrev entry_crc : ℕ
  entry_crc = crc32_of z (entry_rest key timestamp offset size)

  abbrev entry : Entry
  entry = record { timestamp = timestamp; record_offset = offset; record_size = size; key = key }

  entry_read :
      IsU64 timestamp
      → IsU64 offset
      → IsU32 size
      → IsU32 (length key)
      → 0 < length key
      → Record.header_size ≤ size
      → decode_entry z bytes ≡ ok entry
  unfolding decode_entry
  entry_read ht ho hs hk pos low = reject-pass _ _ _ (ltb-false (length bytes) 28 (omega arith)) (
      ap (λ (c : ℕ). check_entry z bytes c (get_u32 bytes 20) (get_u32 bytes 24))
        (get_u32-append [] (entry_rest key timestamp offset size ++ rest) entry_crc 0 refl
          (crc32_of-lt z (entry_rest key timestamp offset size)))
      ∙ ap (λ (c : ℕ). check_entry z bytes entry_crc c (get_u32 bytes 24))
          (get_u32-append (take 20 bytes) (le32 (length key) ++ (key ++ rest)) size 20 refl hs)
      ∙ ap (check_entry z bytes entry_crc size)
          (get_u32-append (take 24 bytes) (key ++ rest) (length key) 24 refl hk)
      ∙ checked)
    where
      checked : check_entry z bytes entry_crc size (length key) ≡ ok entry
      checked = reject-pass _ _ _ (ground arith) (
          reject-pass _ _ _ (ltb-false size 21 low) (
            reject-pass _ _ _
              (ltb-false (length bytes) (28 + length key) (omega (arith, length-append key rest)))
              (reject-pass _ _ _
                (ap (λ (c : ℕ). not (c == entry_crc))
                    (ap (crc32_of z) (
                      take-append_eq (28 + length key - 4) (entry_rest key timestamp offset size)
                        rest (omega arith)))
                  ∙ ap not (==_refl entry_crc))
                (λ i. ok (record {
                  timestamp = get_u64-append (take 4 bytes) (drop 12 bytes) timestamp 4 refl ht i;
                  record_offset =
                      get_u64-append (take 12 bytes) (drop 20 bytes) offset 12 refl ho i;
                  record_size = get_u32-append (take 20 bytes) (drop 24 bytes) size 20 refl hs i;
                  key = take-append_eq (length key) key rest refl i;
                })))))

-- A hint entry with a key, and whose record is not smaller than a header, is read back as it was
-- written, whatever follows it.
pub decode_entry-encode_entry :
    (z : Zlib) (key : List ℕ) (timestamp offset size : ℕ) (rest : List ℕ)
    → IsU64 timestamp
    → IsU64 offset
    → IsU32 size
    → IsU32 (length key)
    → 0 < length key
    → Record.header_size ≤ size
    → decode_entry z (encode_entry z key timestamp offset size ++ rest)
      ≡ ok (record { timestamp = timestamp; record_offset = offset; record_size = size; key = key })
decode_entry-encode_entry z key timestamp offset size rest ht ho hs hk pos low =
    ap (λ (t : List ℕ). decode_entry z (t ++ rest)) (encode_entry-eq z key timestamp offset size hk)
    ∙ entry_read z key timestamp offset size rest ht ho hs hk pos low
