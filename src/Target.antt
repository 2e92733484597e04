-- ===== src/Target.antt =====
-- src/pow_target.cpp: the proof-of-work target of a difficulty. 256-bit integers are numbers.
pub mod Meets
use zano_p2pool.Prelude.{ℕ, ◌-◌, ◌/◌, ◌^◌, ◌>>=◌, Bool, Result, ok, leb}
use zano_p2pool.Bytes.{Bytes, value, to_bytes}
use zano_p2pool.Decimal.{Text, parse_uint128_decimal}

abbrev pub max256 : ℕ
max256 = 2 ^ 256 - 1

-- The same text as `parse_uint128_decimal`.
unfoldable pub parse_difficulty : Text → Result ℕ
parse_difficulty = parse_uint128_decimal

unfoldable pub bytes_to_uint256 : Bytes → ℕ
bytes_to_uint256 = value

unfoldable pub uint256_to_big_endian_bytes : ℕ → Bytes
uint256_to_big_endian_bytes = to_bytes 32

-- `DifficultyTarget` is its one field `big_endian`.
unfoldable pub difficulty_to_target : Text → Result Bytes
unfolding parse_difficulty uint256_to_big_endian_bytes
difficulty_to_target difficulty_decimal = do
  difficulty ← parse_difficulty difficulty_decimal
  ok (uint256_to_big_endian_bytes (max256 / difficulty))

unfoldable pub hash_meets_target : Bytes → Bytes → Bool
unfolding bytes_to_uint256
hash_meets_target hash target = leb (bytes_to_uint256 hash) (bytes_to_uint256 target)

unfoldable pub hash_meets_difficulty : Bytes → Text → Result Bool
unfolding hash_meets_target difficulty_to_target
hash_meets_difficulty hash difficulty_decimal = do
  target ← difficulty_to_target difficulty_decimal
  ok (hash_meets_target hash target)
