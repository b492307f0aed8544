-- ===== src/Bloom.antt =====
-- src/hash.hpp, include/kvstore/bloom.hpp and src/bloom.cpp: the bloom filter of a table. Bit
-- counts and positions are 32-bit and wrap.
pub mod Bits
pub mod Contains
pub mod RoundTrip
use lsm_tree_storage_engine.Prelude.{
  ℕ, ltb, ◌==◌, true, ◌∷◌, set, replicate, ◌-◌, drop, Bool, ◌++◌, reject_if, ok, corruption,
  bit_and, [], suc, take, ◌||◌, bit_xor, bit_or, ◌*◌, ◌/◌, List, length, zero, not, ◌^◌, ◌+◌,
  Result, false, ◌%◌, if◌then◌else◌, ◌>>=◌, ◌>>◌,
}
use lsm_tree_storage_engine.Key.{Key}
use lsm_tree_storage_engine.Encoding.{byte_at, put_u32, get_u32, append_u32}
use lsm_tree_storage_engine.Crc.{Zlib, crc32_of}

abbrev pub fnv_offset_basis : ℕ
fnv_offset_basis = 14695981039346656037

abbrev pub fnv_prime : ℕ
fnv_prime = 1099511628211

-- The loop of `hash64`.
unfoldable pub hash_bytes : ℕ → Key → ℕ
hash_bytes hash [] = hash
hash_bytes hash (c ∷ rest) = hash_bytes (bit_xor hash c * fnv_prime % 2 ^ 64) rest

unfoldable pub hash64 : Key → ℕ
unfolding hash_bytes
hash64 key = hash_bytes fnv_offset_basis key

pub record Probe : Type 0 where
  pub position : ℕ
  pub delta : ℕ

unfoldable pub probe_for_hash : ℕ → Probe
probe_for_hash hash =
    let delta = hash / 2 ^ 32 % 2 ^ 32 in
    record { position = hash % 2 ^ 32; delta = if delta == 0 then 0x9e3779b9 else delta }

unfoldable pub probe_for : Key → Probe
unfolding probe_for_hash
probe_for key = probe_for_hash (hash64 key)

-- `probe.position += probe.delta`.
abbrev pub next_probe : Probe → Probe
next_probe p = record p { position = (p.position + p.delta) % 2 ^ 32 }

-- `probes_for`, with `std::lround(bits_per_key * ln 2)` as a parameter: it is floating-point code of
-- the C++ library.
unfoldable pub probes_for : (ℕ → ℕ) → ℕ → ℕ
probes_for lround_ln2 bits_per_key =
    let probes = lround_ln2 bits_per_key in
    let probes = if ltb probes 1 then 1 else probes in if ltb 30 probes then 30 else probes

abbrev pub default_bits_per_key : ℕ
default_bits_per_key = 10

abbrev pub header_size : ℕ
header_size = 5

abbrev pub trailer_size : ℕ
trailer_size = 4

abbrev pub min_bits : ℕ
min_bits = 64

abbrev pub max_bits : ℕ
max_bits = 0xfffffff8

pub record BloomBuilder : Type 0 where
  pub bits_per_key : ℕ
  pub hashes : List ℕ

unfoldable pub new_builder : ℕ → BloomBuilder
new_builder bits_per_key = record {
  bits_per_key = if bits_per_key == 0 then default_bits_per_key else bits_per_key;
  hashes = [];
}

unfoldable pub add : BloomBuilder → Key → BloomBuilder
add b key = record b { hashes = b.hashes ++ hash64 key ∷ [] }

-- The number of bytes of the bit array.
unfoldable pub byte_count : BloomBuilder → ℕ
byte_count b =
    let bits = length b.hashes * b.bits_per_key % 2 ^ 64 in
    let bits = if ltb bits min_bits then min_bits else bits in
    let bits = if ltb max_bits bits then max_bits else bits in (bits + 7) / 8

-- `static_cast<std::uint8_t>(1u << (position % 8))`.
abbrev pub bit_mask : ℕ → ℕ
bit_mask position = 2 ^ (position % 8) % 256

-- `array[position / 8] |= mask`, of the array behind the header.
unfoldable pub set_bit : List ℕ → ℕ → List ℕ
set_bit array position =
    set array (position / 8) (bit_or (byte_at array (position / 8)) (bit_mask position))

-- The bits of one hash: the probes left, the modulus, the probe.
unfoldable pub set_probes : ℕ → ℕ → Probe → List ℕ → List ℕ
set_probes zero modulus probe array = array
set_probes (suc n) modulus probe array =
    set_probes n modulus (next_probe probe) (set_bit array (probe.position % modulus))

unfoldable pub set_hashes : ℕ → ℕ → List ℕ → List ℕ → List ℕ
set_hashes probes modulus [] array = array
set_hashes probes modulus (hash ∷ hashes) array =
    set_hashes probes modulus hashes (set_probes probes modulus (probe_for_hash hash) array)

-- `finish`. The loop writes behind the header's five bytes, so it is run on the array alone.
unfoldable pub finish : Zlib → (ℕ → ℕ) → BloomBuilder → List ℕ
finish z lround_ln2 b =
    let bytes = byte_count b in
    let modulus = bytes * 8 % 2 ^ 32 in
    let probes = probes_for lround_ln2 b.bits_per_key in
    let out = set (put_u32 (replicate header_size 0) 0 modulus) 4 probes in
    let out = out ++ set_hashes probes modulus b.hashes (replicate bytes 0) in
    append_u32 out (crc32_of z out)

pub record BloomFilter : Type 0 where
  pub num_bits : ℕ
  pub num_probes : ℕ
  pub bits : List ℕ

unfoldable pub decode : Zlib → List ℕ → Result BloomFilter
decode z block = do
  reject_if (ltb (length block) (header_size + trailer_size)) corruption
  let payload_size = length block - trailer_size
  reject_if (not (get_u32 block payload_size == crc32_of z (take payload_size block))) corruption
  let num_bits = get_u32 block 0
  let num_probes = byte_at block 4
  reject_if ((num_bits == 0) || (num_probes == 0)) corruption
  let bit_bytes = payload_size - header_size
  reject_if (not ((num_bits + 7) / 8 == bit_bytes)) corruption
  ok (record {
    num_bits = num_bits;
    num_probes = num_probes;
    bits = drop header_size (take payload_size block);
  })

-- `(bits[position / 8] & mask) != 0`.
unfoldable pub has_bit : List ℕ → ℕ → Bool
has_bit bits position = not (bit_and (byte_at bits (position / 8)) (bit_mask position) == 0)

unfoldable pub check_probes : ℕ → ℕ → List ℕ → Probe → Bool
check_probes zero num_bits bits probe = true
check_probes (suc n) num_bits bits probe =
    let rest = check_probes n num_bits bits (next_probe probe) in
    if has_bit bits (probe.position % num_bits) then rest else false

unfoldable pub maybe_contains : BloomFilter → Key → Bool
maybe_contains f key = check_probes f.num_probes f.num_bits f.bits (probe_for key)
