-- ===== src/Record/RoundTrip.antt =====
-- src/record.cpp: `decode` on the bytes of `encode`.
use native.Mathlib.Nat.{mod-eq_of_lt}
use lsm_tree_storage_engine.Prelude.{
  ℕ, true, false, List, length, ◌++◌, ◌<◌, ◌≡◌, ok, drop, take, arith, refl, ap, ◌+◌, Bool, ◌^◌,
  reject_if, corruption, ◌>>◌, ltb-false, ◌∙◌, ◌≤◌, drop-append_add, append_assoc, length-append,
  Result, drop-append_eq, take-append_eq, ◌-◌, not, ◌==◌, ==_refl, ◌>>=◌, sym, [], ◌∷◌,
}
use lsm_tree_storage_engine.Encoding.RoundTrip.{get_u32-le32, get_u64-append, get_u32-append}
use lsm_tree_storage_engine.Record.{
  decode_header, decode, Header, header_of, has_tombstone, record_of, Record, check_header,
  decode_body, header_size, encode, crc_size, total_size,
}
use lsm_tree_storage_engine.Record.Layout.{
  Fits, record_bytes, covered, flags_of, stored_of, encode-eq, length-record_bytes,
}
use lsm_tree_storage_engine.Crc.{Zlib, crc32_of, crc32_of-lt}
use lsm_tree_storage_engine.Encoding.{IsU64, le32, subspan, le64}

abbrev header : Zlib → List ℕ → List ℕ → ℕ → ℕ → Header
header z key stored timestamp flags = record {
  crc = crc32_of z (covered key stored timestamp flags);
  timestamp = timestamp;
  flags = flags;
  key_size = length key;
  value_size = length stored;
}

module _ (z : Zlib) (key stored : List ℕ) (timestamp flags : ℕ) (rest : List ℕ) where
  abbrev bytes : List ℕ
  bytes = record_bytes z key stored timestamp flags ++ rest

  abbrev crc : ℕ
  crc = crc32_of z (covered key stored timestamp flags)

  -- The 21 bytes of the header.
  abbrev head_bytes : List ℕ
  head_bytes = le32 crc ++ (le64 timestamp ++ (flags ∷ le32 (length key) ++ le32 (length stored)))

  -- The header's fields, whatever follows it.
  header_of-head_bytes :
      (tail : List ℕ)
      → IsU64 timestamp
      → Fits key stored
      → header_of (head_bytes ++ tail) ≡ header z key stored timestamp flags
  header_of-head_bytes tail ht fits = λ i. record {
    crc =
        get_u32-le32 crc (drop 4 head_bytes ++ tail)
          (crc32_of-lt z (covered key stored timestamp flags)) i;
    timestamp = get_u64-append (le32 crc) (drop 12 head_bytes ++ tail) timestamp 4 refl ht i;
    flags = flags;
    key_size =
        get_u32-append (take 13 head_bytes) (le32 (length stored) ++ tail) (length key) 13 refl
          (omega arith) i;
    value_size = get_u32-append (take 17 head_bytes) tail (length stored) 17 refl (omega arith) i;
  }

  decode_header-head_bytes :
      (tail : List ℕ)
      → IsU64 timestamp
      → Fits key stored
      → 0 < length key
      → (has_tombstone flags ≡ true → length stored ≡ 0)
      → decode_header (head_bytes ++ tail) ≡ ok (header z key stored timestamp flags)
  unfolding decode_header check_header
  decode_header-head_bytes tail ht fits hk hv =
      ap (λ (b : Bool). reject_if b corruption >> check_header (header_of (head_bytes ++ tail)))
        (ltb-false (length (head_bytes ++ tail)) 21 (omega arith))
      ∙ ap check_header (header_of-head_bytes tail ht fits)
      ∙ ground (arith, hv)

  abbrev read : Record
  read = record {
    timestamp = timestamp;
    is_tombstone = has_tombstone flags;
    key = key;
    value = stored;
    total_size = header_size + length key + length stored;
  }

  abbrev body : List ℕ
  body = key ++ stored ++ rest

  key_part : subspan bytes header_size (length key) ≡ key
  key_part =
      ap (λ (t : List ℕ). take (length key) t) (append_assoc key stored rest)
      ∙ take-append_eq (length key) key (stored ++ rest) refl

  value_part : subspan bytes (header_size + length key) (length stored) ≡ stored
  value_part =
      ap (λ (t : List ℕ). take (length stored) t)
        (drop-append_add (length key) (take 21 bytes) body
          ∙ ap (λ (t : List ℕ). drop (length key) t) (append_assoc key stored rest)
          ∙ drop-append_eq (length key) key (stored ++ rest) refl)
      ∙ take-append_eq (length stored) stored rest refl

  record_of-record_bytes :
      Fits key stored → record_of bytes (header z key stored timestamp flags) ≡ read
  record_of-record_bytes fits = λ i. record {
    timestamp = timestamp;
    is_tombstone = has_tombstone flags;
    key = key_part i;
    value = value_part i;
    total_size =
        mod-eq_of_lt {n = header_size + length key + length stored} {m = 2 ^ 32} (omega arith) i;
  }

  crc_part :
      crc32_of z (subspan bytes crc_size (header_size + length key + length stored - crc_size))
      ≡ crc
  crc_part = ap (crc32_of z) (
      take-append_eq (header_size + length key + length stored - crc_size)
        (covered key stored timestamp flags) rest (omega (arith, length-append key stored)))

  decode_body-record_bytes :
      Fits key stored → decode_body z bytes (header z key stored timestamp flags) ≡ ok read
  unfolding decode_body
  decode_body-record_bytes fits =
      ap (λ (b : Bool). reject_if b corruption >> checked)
        (ltb-false (length bytes) (header_size + length key + length stored) enough)
      ∙ ap
          (λ (c : ℕ).
            reject_if (not (c == crc)) corruption
            >> ok (record_of bytes (header z key stored timestamp flags)))
          crc_part
      ∙ ap
          (λ (b : Bool).
            reject_if (not b) corruption
            >> ok (record_of bytes (header z key stored timestamp flags)))
          (==_refl crc)
      ∙ ap ok (record_of-record_bytes fits)
    where
      enough : header_size + length key + length stored ≤ length bytes
      enough = omega (arith, length-append (key ++ stored) rest, length-append key stored)

      checked : Result Record
      checked =
          reject_if
            (not (
              crc32_of z
                (subspan bytes crc_size (header_size + length key + length stored - crc_size))
              == crc))
            corruption
          >> ok (record_of bytes (header z key stored timestamp flags))

  pub decode-record_bytes :
      IsU64 timestamp
      → Fits key stored
      → 0 < length key
      → (has_tombstone flags ≡ true → length stored ≡ 0)
      → decode z bytes ≡ ok read
  unfolding decode
  decode-record_bytes ht fits hk hv =
      ap (λ (r : Result Header). r >>= decode_body z bytes)
        (decode_header-head_bytes (key ++ stored ++ rest) ht fits hk hv)
      ∙ decode_body-record_bytes fits

-- A flags byte that `encode` writes says what it was given.
has_tombstone-flags_of : (tombstone : Bool) → has_tombstone (flags_of tombstone) ≡ tombstone
unfolding has_tombstone
has_tombstone-flags_of true = refl
has_tombstone-flags_of false = refl

stored-tombstone :
    (tombstone : Bool) (value : List ℕ)
    → has_tombstone (flags_of tombstone) ≡ true
    → length (stored_of tombstone value) ≡ 0
stored-tombstone true value h = refl
stored-tombstone false value h = unfold has_tombstone in cc

-- A record with a key, and whose size fits 32 bits, is read back as it was written, and what
-- follows it is not looked at: key and timestamp return, a tombstone has no value and any other
-- record has the value that was given, and the size is that of the bytes written.
pub decode-encode :
    (z : Zlib) (key value : List ℕ) (timestamp : ℕ) (tombstone : Bool) (rest : List ℕ)
    → 0 < length key
    → IsU64 timestamp
    → Fits key (stored_of tombstone value)
    → decode z (encode z key value timestamp tombstone ++ rest)
      ≡ ok (record {
        timestamp = timestamp;
        is_tombstone = tombstone;
        key = key;
        value = stored_of tombstone value;
        total_size = length (encode z key value timestamp tombstone);
      })
decode-encode z key value timestamp tombstone rest hk ht fits =
    let flags = flags_of tombstone in
    let stored = stored_of tombstone value in
    let written = encode-eq z key value timestamp tombstone fits in
    let size = length-record_bytes z key stored timestamp flags in
    ap (λ (t : List ℕ). decode z (t ++ rest)) written
    ∙ decode-record_bytes z key stored timestamp flags rest ht fits hk
        (stored-tombstone tombstone value)
    ∙ λ i. ok (record {
      timestamp = timestamp;
      is_tombstone = has_tombstone-flags_of tombstone i;
      key = key;
      value = stored;
      total_size = (sym size ∙ ap length (sym written)) i;
    })

-- The header that `encode` writes, read from its 21 bytes alone, declares the size of the record.
pub decode_header-encode :
    (z : Zlib) (key value : List ℕ) (timestamp : ℕ) (tombstone : Bool)
    → 0 < length key
    → IsU64 timestamp
    → Fits key (stored_of tombstone value)
    → (h : Header) × (decode_header (take header_size (encode z key value timestamp tombstone))
        ≡ ok h)
      × (total_size h ≡ length (encode z key value timestamp tombstone))
decode_header-encode z key value timestamp tombstone hk ht fits =
    let flags = flags_of tombstone in
    let stored = stored_of tombstone value in
    let written = encode-eq z key value timestamp tombstone fits in
    (
      header z key stored timestamp flags,
      ap (λ (t : List ℕ). decode_header (take header_size t)) written
          ∙ decode_header-head_bytes z key stored timestamp flags [] [] ht fits hk
              (stored-tombstone tombstone value),
      sym (length-record_bytes z key stored timestamp flags) ∙ ap length (sym written),
    )
