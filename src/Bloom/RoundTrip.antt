-- ===== src/Bloom/RoundTrip.antt =====
-- src/bloom.cpp: the block that `finish` writes, under `decode` and `maybe_contains`.
use lsm_tree_storage_engine.Prelude.{
  ℕ, List, take-append_eq, ◌≡◌, reject-pass, ◌∙◌, not, take, corruption, ltb-false, [], ok, ◌∷◌,
  ◌+◌, Result, ◌==◌, ◌++◌, ==_refl, reject_if, ◌-◌, ap, arith, ◌||◌, ◌<◌, length, length-append,
  drop, ◌/◌, refl, ◌>>◌, ◌%◌, length-replicate, ◌≤◌, true, ◌*◌, All, replicate, zero, suc, ◌^◌, sym,
  append-nil, append_assoc,
}
use lsm_tree_storage_engine.Bloom.Contains.{Written, set_hashes-Written, check_probes-set_hashes}
use lsm_tree_storage_engine.Crc.{Zlib, crc32_of, crc32_of-lt}
use lsm_tree_storage_engine.Encoding.{le32, IsU32, byte_at, get_u32, IsByte, put_u32}
use lsm_tree_storage_engine.Bloom.{
  decode, BloomFilter, BloomBuilder, add, finish, maybe_contains, probes_for, byte_count,
  set_hashes, probe_for, hash64, check_probes, probe_for_hash,
}
use lsm_tree_storage_engine.Encoding.RoundTrip.{get_u32-append}
use lsm_tree_storage_engine.Key.{Key}
use lsm_tree_storage_engine.Encoding.Layout.{append_u32_lem}

abbrev filter : ℕ → ℕ → List ℕ → BloomFilter
filter modulus probes array = record { num_bits = modulus; num_probes = probes; bits = array }

-- The bytes of a filter's block before its crc.
abbrev payload : ℕ → ℕ → List ℕ → List ℕ
payload modulus probes array = le32 modulus ++ (probes ∷ array)

abbrev block : Zlib → ℕ → ℕ → List ℕ → List ℕ
block z modulus probes array =
    payload modulus probes array ++ le32 (crc32_of z (payload modulus probes array))

module _ (z : Zlib) (modulus probes : ℕ) (array : List ℕ) where
  abbrev front : List ℕ
  front = payload modulus probes array

  abbrev crc : ℕ
  crc = crc32_of z front

  abbrev bytes : List ℕ
  bytes = front ++ le32 crc

  bytes-length : length bytes ≡ length front + 4
  bytes-length = length-append front (le32 crc)

  decode-block :
      IsU32 modulus
      → 0 < modulus
      → 0 < probes
      → (modulus + 7) / 8 ≡ length array
      → decode z bytes ≡ ok (filter modulus probes array)
  unfolding decode
  decode-block hm pos hp room =
      reject-pass _ _ _ (ltb-false (length bytes) 9 (omega (arith, bytes-length))) (
        ap (λ (n : ℕ). from n) (omega (arith, bytes-length))
        ∙ reject-pass _ _ _
            (ap (λ (n : ℕ). not (n == crc32_of z (take (length front) bytes)))
                (get_u32-append front [] crc (length front) refl (crc32_of-lt z front))
              ∙ ap (λ (t : List ℕ). not (crc == crc32_of z t))
                  (take-append_eq (length front) front (le32 crc) refl)
              ∙ ap not (==_refl crc))
            (ap (λ (m : ℕ). with_bits m)
                (get_u32-append [] (probes ∷ array ++ le32 crc) modulus 0 refl hm)
              ∙ reject-pass (modulus == 0 || byte_at bytes 4 == 0) _ _ (ground arith) (
                  reject-pass (not ((modulus + 7) / 8 == length front - 5)) _ _
                    (ground (arith, room))
                    (ap (λ (t : List ℕ). ok (filter modulus probes (drop 5 t)))
                      (take-append_eq (length front) front (le32 crc) refl)))))
    where
      with_bits : ℕ → Result BloomFilter
      with_bits num_bits = do
        let num_probes = byte_at bytes 4
        reject_if ((num_bits == 0) || (num_probes == 0)) corruption
        reject_if (not ((num_bits + 7) / 8 == length front - 5)) corruption
        ok (record {
          num_bits = num_bits;
          num_probes = num_probes;
          bits = drop 5 (take (length front) bytes);
        })

      from : ℕ → Result BloomFilter
      from payload_size = do
        reject_if (not (get_u32 bytes payload_size == crc32_of z (take payload_size bytes)))
            corruption
        let num_bits = get_u32 bytes 0
        let num_probes = byte_at bytes 4
        reject_if ((num_bits == 0) || (num_probes == 0)) corruption
        reject_if (not ((num_bits + 7) / 8 == payload_size - 5)) corruption
        ok (record {
          num_bits = num_bits;
          num_probes = num_probes;
          bits = drop 5 (take payload_size bytes);
        })

All-zero : (n : ℕ) → All IsByte (replicate n 0)
All-zero zero = tt
All-zero (suc n) = (omega arith, All-zero n)

module _ (z : Zlib) (lround_ln2 : ℕ → ℕ) (b : BloomBuilder) where
  -- What `finish` writes.
  abbrev size : ℕ
  size = byte_count b

  abbrev modulus_of : ℕ
  modulus_of = size * 8 % 2 ^ 32

  abbrev probes_of : ℕ
  probes_of = probes_for lround_ln2 b.bits_per_key

  abbrev array_of : List ℕ
  array_of = set_hashes probes_of modulus_of b.hashes (replicate size 0)

  finish-eq : finish z lround_ln2 b ≡ block z modulus_of probes_of array_of
  unfolding finish put_u32
  finish-eq = append_u32_lem (payload modulus_of probes_of array_of) _

  byte_count-bounds : (8 ≤ size) × (size ≤ 0x1fffffff)
  unfolding byte_count
  byte_count-bounds = ground arith

  probes_for-pos : 0 < probes_of
  unfolding probes_for
  probes_for-pos = ground arith

  length-array : length array_of ≡ size
  length-array =
      Written.same_length
        (set_hashes-Written modulus_of probes_of b.hashes (replicate size 0) (All-zero size))
      ∙ length-replicate size 0

  abbrev pub built_filter : BloomFilter
  built_filter = filter modulus_of probes_of array_of

  pub decode-finish : decode z (finish z lround_ln2 b) ≡ ok built_filter
  decode-finish =
      ap (decode z) finish-eq
      ∙ decode-block z modulus_of probes_of array_of (omega arith)
          (omega (arith, byte_count-bounds)) probes_for-pos
          (omega (arith, byte_count-bounds, length-array))

  pub length-finish :
      (length (finish z lround_ln2 b) ≤ 0x20000008) × (0 < length (finish z lround_ln2 b))
  length-finish =
      let size_eq = length-append front_of (le32 (crc32_of z front_of)) in
      let whole = ap (λ (t : List ℕ). length t) finish-eq in
      (
        omega (arith, whole, size_eq, length-array, byte_count-bounds),
        omega (arith, whole, size_eq),
      )
    where
      front_of : List ℕ
      front_of = payload modulus_of probes_of array_of

  pub maybe_contains-built :
      (key : Key) (before after : List ℕ)
      → b.hashes ≡ before ++ (hash64 key ∷ after)
      → maybe_contains built_filter key ≡ true
  unfolding maybe_contains probe_for
  maybe_contains-built key before after h =
      ap
        (λ (hs : List ℕ).
          check_probes probes_of modulus_of (set_hashes probes_of modulus_of hs (replicate size 0))
            (probe_for_hash (hash64 key)))
        h
      ∙ check_probes-set_hashes modulus_of (omega (arith, byte_count-bounds)) probes_of (hash64 key)
          before after (replicate size 0) (All-zero size)
          (omega (arith, byte_count-bounds, length-replicate {A = ℕ} size 0))

-- The keys, added one after the other.
abbrev pub add_all : BloomBuilder → List Key → BloomBuilder
add_all b [] = b
add_all b (key ∷ keys) = add_all (add b key) keys

-- What later additions leave behind a builder's hashes.
later_hashes :
    (b : BloomBuilder) (keys : List Key)
    → (after : List ℕ) × (add_all b keys).hashes ≡ b.hashes ++ after
unfolding add
later_hashes b [] = ([], sym (append-nil b.hashes))
later_hashes b (key ∷ keys) =
    let (after, h) = later_hashes (add b key) keys in
    (hash64 key ∷ after, h ∙ append_assoc b.hashes (hash64 key ∷ []) after)

-- No false negatives: whatever keys are added before and after a key, the block that the builder
-- finishes is decoded, and the filter reports that key.
pub maybe_contains-add :
    (z : Zlib) (lround_ln2 : ℕ → ℕ) (b : BloomBuilder) (key : Key) (later : List Key)
    → (f : BloomFilter) × (decode z (finish z lround_ln2 (add_all (add b key) later)) ≡ ok f)
      × (maybe_contains f key ≡ true)
unfolding add
maybe_contains-add z lround_ln2 b key later =
    let (after, h) = later_hashes (add b key) later in
    let b' = add_all (add b key) later in
    (
      built_filter z lround_ln2 b',
      decode-finish z lround_ln2 b',
      maybe_contains-built z lround_ln2 b' key b.hashes after
          (h ∙ append_assoc b.hashes (hash64 key ∷ []) after),
    )
