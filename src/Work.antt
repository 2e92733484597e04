-- ===== src/Work.antt =====
-- The work arithmetic of src/share_chain.cpp: 256-bit big-endian sums with an overflow check.
pub mod Sum
use zano_p2pool.Prelude.{
  ℕ, ◌+◌, ◌/◌, ◌%◌, ◌>>=◌, ◌>>◌, Bool, List, [], ◌∷◌, ◌++◌, Result, ok, throw_if, invalid_argument,
  ◌==◌, replicate, get_or,
}
use zano_p2pool.Bytes.{Bytes, zeros}
use zano_p2pool.Share.{difficulty128_is_zero}

-- The 16 bytes of the difficulty at the end of 32.
unfoldable pub share_work : Bytes → Result Bytes
share_work difficulty = do
  throw_if (difficulty128_is_zero difficulty) invalid_argument
  ok (zeros 16 ++ difficulty)

-- The loop runs from the last byte to the first: the sum bytes and the carry out.
unfoldable pub add_bytes : Bytes → Bytes → Bytes × ℕ
add_bytes (l ∷ left) (r ∷ right) =
    let (sum_bytes, carry) = add_bytes left right in
    let sum = l + r + carry in ((sum % 256) ∷ sum_bytes, sum / 256)
add_bytes left right = ([], 0)

-- The Boolean is true if nothing was carried out of the first byte.
unfoldable pub add_chain_work_checked : Bytes → Bytes → Bool × Bytes
unfolding add_bytes
add_chain_work_checked left right =
    let (sum_bytes, carry) = add_bytes left right in (carry == 0, sum_bytes)

abbrev hex_digits : List ℕ
hex_digits =
    b'0' ∷ b'1' ∷ b'2' ∷ b'3' ∷ b'4' ∷ b'5' ∷ b'6' ∷ b'7' ∷ b'8' ∷ b'9' ∷ b'a' ∷ b'b' ∷ b'c' ∷ b'd'
    ∷ b'e' ∷ b'f' ∷ []

-- Two characters for each byte.
unfoldable pub chain_work_hex : Bytes → List ℕ
chain_work_hex [] = []
chain_work_hex (b ∷ work) =
    get_or hex_digits (b / 16) 0 ∷ get_or hex_digits (b % 16) 0 ∷ chain_work_hex work
