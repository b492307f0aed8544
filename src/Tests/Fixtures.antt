-- ===== src/Tests/Fixtures.antt =====
-- A checksum to run the definitions with: the CRC-32 that zlib computes, a bit at a time.
use lsm_tree_storage_engine.Prelude.{
  ℕ, ◌%◌, bit_xor, zero, ◌==◌, refl, ◌/◌, List, suc, ◌≡◌, ◌∷◌, [], if◌then◌else◌,
}
use lsm_tree_storage_engine.Crc.{Zlib}

crc_bits : ℕ → ℕ → ℕ
crc_bits zero c = c
crc_bits (suc n) c = crc_bits n (if c % 2 == 1 then bit_xor (c / 2) 0xedb88320 else c / 2)

crc_bytes : ℕ → List ℕ → ℕ
crc_bytes c [] = c
crc_bytes c (b ∷ bytes) = crc_bytes (crc_bits 8 (bit_xor c b)) bytes

unfoldable pub crc_32 : ℕ → List ℕ → ℕ
unfolding crc_bits crc_bytes
crc_32 c bytes = bit_xor (crc_bytes (bit_xor c 0xffffffff) bytes) 0xffffffff

abbrev pub zlib : Zlib
zlib = record { crc32_init = 0; crc32 = crc_32 }

-- The check value of CRC-32, of the text 123456789.
crc_32_check :
    crc_32 0 (0x31 ∷ 0x32 ∷ 0x33 ∷ 0x34 ∷ 0x35 ∷ 0x36 ∷ 0x37 ∷ 0x38 ∷ 0x39 ∷ []) ≡ 0xcbf43926
unfolding crc_32
crc_32_check = refl

-- "ab" and "xyz".
abbrev pub key_ab : List ℕ
key_ab = 0x61 ∷ 0x62 ∷ []

abbrev pub text_xyz : List ℕ
text_xyz = 0x78 ∷ 0x79 ∷ 0x7a ∷ []
