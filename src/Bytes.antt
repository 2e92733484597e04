-- ===== src/Bytes.antt =====
-- `std::array<std::uint8_t, N>`: Hash256, ShareId, MinerId, NodeId and ChainWork (32 bytes) and
-- Difficulty128 (16 bytes) are lists of numbers, most significant byte first. `IsArray n` says that
-- a list is such an array.
pub mod Order
pub mod Value
use zano_p2pool.Prelude.{
  ℕ, zero, suc, ◌+◌, ◌*◌, ◌/◌, ◌%◌, ◌<◌, ◌≡◌, Bool, true, false, ◌&&◌, List, [], ◌∷◌, All, length,
  replicate, ltb, ◌==◌, if◌then◌else◌,
}

abbrev pub Bytes : Type 0
Bytes = List ℕ

abbrev pub IsByte : ℕ → Type 0
IsByte b = b < 256

abbrev pub IsArray : ℕ → Bytes → Type 0
IsArray n b = (length b ≡ n) × All IsByte b

-- A value-initialised array, `std::array<std::uint8_t, N>{}`.
abbrev pub zeros : ℕ → Bytes
zeros n = replicate n 0

-- `std::all_of(…, byte == 0)`, as in `is_zero_share_id` and `difficulty128_is_zero`.
unfoldable pub is_zero : Bytes → Bool
is_zero [] = true
is_zero (b ∷ bs) = (b == 0) && is_zero bs

-- `operator==` of std::array.
unfoldable pub same : Bytes → Bytes → Bool
same [] [] = true
same (a ∷ xs) (b ∷ ys) = (a == b) && same xs ys
same _ _ = false

-- `operator<` of std::array, and std::lexicographical_compare.
unfoldable pub before : Bytes → Bytes → Bool
before [] [] = false
before [] (b ∷ ys) = true
before (a ∷ xs) [] = false
before (a ∷ xs) (b ∷ ys) = if ltb a b then true else (a == b) && before xs ys

-- The loops `value <<= 8; value |= byte` of `work_to_int`, `bytes_to_uint256`,
-- `big_endian_to_int` and `read_u64_be`.
unfoldable pub value_from : ℕ → Bytes → ℕ
value_from acc [] = acc
value_from acc (b ∷ bs) = value_from (acc * 256 + b) bs

abbrev pub value : Bytes → ℕ
value = value_from 0

-- The loops `out[i] = value & 0xff; value >>= 8` that fill an array from its last byte, and what is
-- left of the value.
unfoldable pub fill : ℕ → ℕ → Bytes → Bytes × ℕ
fill zero v out = (out, v)
fill (suc n) v out = fill n (v / 256) ((v % 256) ∷ out)

-- The `n` bytes that a word is written as: `append_u64_be` at 8.
abbrev pub to_bytes : ℕ → ℕ → Bytes
to_bytes n v = (fill n v []).0
