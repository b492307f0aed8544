-- ===== src/Crc.antt =====
-- `crc32_of` of src/record.cpp, over zlib's `crc32`, which is not in the repository.
use lsm_tree_storage_engine.Prelude.{ℕ, ◌%◌, ◌^◌, List, length, take, ◌<◌, arith}

-- What the engine calls of zlib: `crc32(0, Z_NULL, 0)`, and `crc32(crc, buf, len)`.
pub record Zlib : Type 0 where
  pub crc32_init : ℕ
  pub crc32 : ℕ → List ℕ → ℕ

-- The length is cast to zlib's 32-bit `uInt`, the checksum to `std::uint32_t`.
unfoldable pub crc32_of : Zlib → List ℕ → ℕ
crc32_of z bytes = z.crc32 z.crc32_init (take (length bytes % 2 ^ 32) bytes) % 2 ^ 32

pub crc32_of-lt : (z : Zlib) (bytes : List ℕ) → crc32_of z bytes < 2 ^ 32
unfolding crc32_of
crc32_of-lt z bytes = omega arith
