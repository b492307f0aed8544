-- ===== src/Record/Layout.antt =====
-- What `encode` writes.
use native.Mathlib.Nat.{mod-eq_of_lt}
use lsm_tree_storage_engine.Prelude.{
  ℕ, Bool, List, ◌≡◌, if◌then◌else◌, ◌++◌, ◌∷◌, ◌+◌, [], length, ◌≤◌, replicate, ◌∙◌, set, ap,
  append_assoc, arith, length-append, length-replicate, sym, append-nil, ◌%◌, ◌^◌, take, drop,
  take_all, true, false,
}
use lsm_tree_storage_engine.Encoding.Layout.{copy_to-append, replicate-add}
use lsm_tree_storage_engine.Record.{
  encode_body, encode, header_size, flag_tombstone, max_record_size, crc_size,
}
use lsm_tree_storage_engine.Encoding.{le64, le32, put_u32, put_u64, copy_to}
use lsm_tree_storage_engine.Crc.{Zlib, crc32_of}

-- A record's parts fit the sizes of its header.
abbrev pub Fits : List ℕ → List ℕ → Type 0
Fits key stored = header_size + length key + length stored ≤ max_record_size

-- What follows the crc.
abbrev pub covered : List ℕ → List ℕ → ℕ → ℕ → List ℕ
covered key stored timestamp flags =
    le64 timestamp ++ (flags ∷ le32 (length key) ++ (le32 (length stored) ++ (key ++ stored)))

abbrev pub flags_of : Bool → ℕ
flags_of tombstone = if tombstone then flag_tombstone else 0

abbrev pub stored_of : Bool → List ℕ → List ℕ
stored_of tombstone value = if tombstone then [] else value

module _ (key stored : List ℕ) (timestamp flags : ℕ) where
  -- The writes of `encode`, with the sizes as they are.
  abbrev written : List ℕ
  written =
      let out = replicate (21 + length key + length stored) 0 in
      let out = put_u64 out 4 timestamp in
      let out = set out 12 flags in
      let out = put_u32 out 13 (length key) in
      let out = put_u32 out 17 (length stored) in
      copy_to (copy_to out 21 key) (21 + length key) stored

  abbrev header_bytes : List ℕ
  header_bytes =
      0 ∷ 0 ∷ 0 ∷ 0 ∷ le64 timestamp ++ (flags ∷ le32 (length key) ++ le32 (length stored))

  abbrev zeros : ℕ → List ℕ
  zeros n = replicate n 0

  zeros-add :
      zeros (21 + length key + length stored)
      ≡ zeros 21 ++ (zeros (length key) ++ zeros (length stored))
  zeros-add =
      replicate-add (21 + length key) (length stored) 0
      ∙ ap (λ (t : List ℕ). t ++ zeros (length stored)) (replicate-add 21 (length key) 0)
      ∙ append_assoc (zeros 21) (zeros (length key)) (zeros (length stored))

  pub written-eq : written ≡ 0 ∷ 0 ∷ 0 ∷ 0 ∷ covered key stored timestamp flags
  unfolding put_u32 put_u64
  written-eq =
      ap
        (λ (out : List ℕ).
          copy_to
            (copy_to
              (put_u32 (put_u32 (set (put_u64 out 4 timestamp) 12 flags) 13 (length key)) 17
                (length stored))
              21 key)
            (21 + length key) stored)
        zeros-add
      ∙ ap (λ (out : List ℕ). copy_to out (21 + length key) stored)
          (copy_to-append header_bytes key (zeros (length key)) (zeros (length stored))
            (length-replicate (length key) 0))
      ∙ ap (λ (out : List ℕ). copy_to out (21 + length key) stored)
          (sym (append_assoc header_bytes key (zeros (length stored))))
      ∙ ap (λ (n : ℕ). copy_to ((header_bytes ++ key) ++ zeros (length stored)) n stored) place
      ∙ ap
          (λ (t : List ℕ).
            copy_to ((header_bytes ++ key) ++ t) (length (header_bytes ++ key)) stored)
          (sym (append-nil (zeros (length stored))))
      ∙ copy_to-append (header_bytes ++ key) stored (zeros (length stored)) []
          (length-replicate (length stored) 0)
      ∙ ap (λ (t : List ℕ). (header_bytes ++ key) ++ t) (append-nil stored)
      ∙ append_assoc header_bytes key stored
    where
      place : 21 + length key ≡ length (header_bytes ++ key)
      place = omega (arith, length-append header_bytes key)

-- The same writes from the sizes that `encode` computes.
abbrev sized : ℕ → ℕ → List ℕ → List ℕ → ℕ → ℕ → List ℕ
sized key_size value_size key stored timestamp flags =
    let out = put_u64 (replicate (21 + key_size + value_size) 0) 4 timestamp in
    let out = put_u32 (put_u32 (set out 12 flags) 13 key_size) 17 value_size in
    copy_to (copy_to out 21 key) (21 + key_size) stored

-- Sizes that fit 32 bits are kept by the casts, and all the bytes are copied.
sized-eq :
    (key stored : List ℕ) (timestamp flags : ℕ)
    → Fits key stored
    → sized
        (length key % 2 ^ 32)
        (length stored % 2 ^ 32)
        (take (length key % 2 ^ 32) key)
        (take (length stored % 2 ^ 32) stored)
        timestamp
        flags
      ≡ written key stored timestamp flags
sized-eq key stored timestamp flags fits =
    ap
      (λ (n : ℕ).
        sized n (length stored % 2 ^ 32) (take n key) (take (length stored % 2 ^ 32) stored)
          timestamp flags)
      (mod-eq_of_lt (omega arith))
    ∙ ap (λ (n : ℕ). sized (length key) n (take (length key) key) (take n stored) timestamp flags)
        (mod-eq_of_lt (omega arith))
    ∙ ap
        (λ (t : List ℕ).
          sized (length key) (length stored) t (take (length stored) stored) timestamp flags)
        (take_all (length key) key (omega arith))
    ∙ ap (λ (t : List ℕ). sized (length key) (length stored) key t timestamp flags)
        (take_all (length stored) stored (omega arith))

-- `encode` writes the header and the parts that it covers, behind four bytes for the crc.
pub encode_body-eq :
    (key value : List ℕ) (timestamp : ℕ) (tombstone : Bool)
    → Fits key (stored_of tombstone value)
    → encode_body key value timestamp tombstone
      ≡ 0 ∷ 0 ∷ 0 ∷ 0 ∷ covered key (stored_of tombstone value) timestamp (flags_of tombstone)
unfolding encode_body
encode_body-eq key value timestamp true fits =
    sized-eq key [] timestamp 1 fits ∙ written-eq key [] timestamp 1
encode_body-eq key value timestamp false fits =
    sized-eq key value timestamp 0 fits ∙ written-eq key value timestamp 0

-- The bytes of a record whose parts fit.
abbrev pub record_bytes : Zlib → List ℕ → List ℕ → ℕ → ℕ → List ℕ
record_bytes z key stored timestamp flags =
    let rest = covered key stored timestamp flags in le32 (crc32_of z rest) ++ rest

pub encode-eq :
    (z : Zlib) (key value : List ℕ) (timestamp : ℕ) (tombstone : Bool)
    → Fits key (stored_of tombstone value)
    → encode z key value timestamp tombstone
      ≡ record_bytes z key (stored_of tombstone value) timestamp (flags_of tombstone)
unfolding encode put_u32
encode-eq z key value timestamp tombstone fits =
    ap (λ (out : List ℕ). put_u32 out 0 (crc32_of z (drop crc_size out)))
      (encode_body-eq key value timestamp tombstone fits)

pub length-record_bytes :
    (z : Zlib) (key stored : List ℕ) (timestamp flags : ℕ)
    → length (record_bytes z key stored timestamp flags) ≡ header_size + length key + length stored
length-record_bytes z key stored timestamp flags = omega (arith, length-append key stored)
