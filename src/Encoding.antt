-- ===== src/Encoding.antt =====
-- src/encoding.hpp: little-endian integers in a byte vector, and the byte lists that they stand for.
-- A byte is a number below 256, a vector or a span is a list, and `in[at]` reads 0 past the end,
-- where the source has no bytes: every caller bounds `at` first.
pub mod RoundTrip
pub mod Layout
pub mod Cursor
use lsm_tree_storage_engine.Prelude.{
  ℕ, zero, suc, ◌+◌, ◌*◌, ◌/◌, ◌%◌, ◌^◌, ◌<◌, List, [], ◌∷◌, ◌++◌, length, get_or, set, take, drop,
  replicate, bit_or,
}

-- `v >> k`, then the cast to `std::uint8_t`.
abbrev pub byte_of : ℕ → ℕ → ℕ
byte_of v k = v / 2 ^ k % 256

abbrev pub byte_at : List ℕ → ℕ → ℕ
byte_at bytes at = get_or bytes at 0

-- `std::span::subspan(at, size)`.
abbrev pub subspan : List ℕ → ℕ → ℕ → List ℕ
subspan bytes at size = take size (drop at bytes)

-- `std::memcpy(out.data() + at, bytes.data(), bytes.size())`.
abbrev pub copy_to : List ℕ → ℕ → List ℕ → List ℕ
copy_to out at [] = out
copy_to out at (b ∷ bytes) = copy_to (set out at b) (at + 1) bytes

unfoldable pub put_u32 : List ℕ → ℕ → ℕ → List ℕ
put_u32 out at v =
    set (set (set (set out (at + 0) (byte_of v 0)) (at + 1) (byte_of v 8)) (at + 2) (byte_of v 16))
      (at + 3) (byte_of v 24)

-- The loop of `put_u64`: the rounds left, and `i`.
put_u64_loop : ℕ → ℕ → List ℕ → ℕ → ℕ → List ℕ
put_u64_loop zero i out at v = out
put_u64_loop (suc rounds) i out at v =
    put_u64_loop rounds (i + 1) (set out (at + i) (byte_of v (8 * i))) at v

unfoldable pub put_u64 : List ℕ → ℕ → ℕ → List ℕ
unfolding put_u64_loop
put_u64 out at v = put_u64_loop 8 0 out at v

-- `static_cast<std::uint32_t>(b) << k`.
abbrev pub shl_u32 : ℕ → ℕ → ℕ
shl_u32 b k = b * 2 ^ k % 2 ^ 32

unfoldable pub get_u32 : List ℕ → ℕ → ℕ
get_u32 bytes at =
    bit_or
      (bit_or (bit_or (byte_at bytes (at + 0)) (shl_u32 (byte_at bytes (at + 1)) 8))
        (shl_u32 (byte_at bytes (at + 2)) 16))
      (shl_u32 (byte_at bytes (at + 3)) 24)

get_u64_loop : ℕ → ℕ → ℕ → List ℕ → ℕ → ℕ
get_u64_loop zero i v bytes at = v
get_u64_loop (suc rounds) i v bytes at =
    get_u64_loop rounds (i + 1) (bit_or v (byte_at bytes (at + i) * 2 ^ (8 * i) % 2 ^ 64)) bytes at

unfoldable pub get_u64 : List ℕ → ℕ → ℕ
unfolding get_u64_loop
get_u64 bytes at = get_u64_loop 8 0 0 bytes at

-- `append_u32` and `append_u64` of src/sstable.cpp and src/manifest.cpp: `resize`, then put.
unfoldable pub append_u32 : List ℕ → ℕ → List ℕ
append_u32 out v = put_u32 (out ++ replicate 4 0) (length out) v

unfoldable pub append_u64 : List ℕ → ℕ → List ℕ
append_u64 out v = put_u64 (out ++ replicate 8 0) (length out) v

-- What the numbers of a source type can be.
abbrev pub IsByte : ℕ → Type 0
IsByte b = b < 256

abbrev pub IsU32 : ℕ → Type 0
IsU32 v = v < 2 ^ 32

abbrev pub IsU64 : ℕ → Type 0
IsU64 v = v < 2 ^ 64

-- The bytes of an integer, lowest first.
abbrev pub le32 : ℕ → List ℕ
le32 v = byte_of v 0 ∷ byte_of v 8 ∷ byte_of v 16 ∷ byte_of v 24 ∷ []

abbrev pub le64 : ℕ → List ℕ
le64 v =
    byte_of v 0
    ∷ byte_of v 8
    ∷ byte_of v 16
    ∷ byte_of v 24
    ∷ byte_of v 32
    ∷ byte_of v 40
    ∷ byte_of v 48
    ∷ byte_of v 56
    ∷ []
