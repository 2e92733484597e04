-- ===== src/Decimal.antt =====
-- Difficulties as decimal text, a list of character codes: `parse_uint128_decimal` of
-- src/share.cpp, of which `parse_difficulty` of src/pow_target.cpp is a copy. `uint128_t` and
-- `uint256_t` are numbers; the parser bounds them by 2 ^ 128 before they could wrap.
pub mod Text
use zano_p2pool.Prelude.{
  ℕ, ◌+◌, ◌-◌, ◌*◌, ◌^◌, ◌<◌, ◌≤◌, ◌≡◌, ◌||◌, ◌>>=◌, ◌>>◌, List, [], ◌∷◌, All, Result, ok, throws,
  throw_if, invalid_argument, out_of_range, ltb, ◌==◌,
}

abbrev pub Text : Type 0
Text = List ℕ

abbrev pub max128 : ℕ
max128 = 2 ^ 128 - 1

-- The loop over the characters.
unfoldable pub parse_from : ℕ → Text → Result ℕ
parse_from acc [] = ok acc
parse_from acc (ch ∷ text) = do
  throw_if (ltb ch b'0' || ltb b'9' ch) invalid_argument
  let next = acc * 10 + (ch - b'0')
  throw_if (ltb max128 next) out_of_range
  parse_from next text

unfoldable pub parse_uint128_decimal : Text → Result ℕ
parse_uint128_decimal [] = throws invalid_argument
parse_uint128_decimal (ch ∷ text) = do
  n ← parse_from 0 (ch ∷ text)
  throw_if (n == 0) invalid_argument
  ok n

-- The number that a text of digits stands for.
unfoldable pub decimal_value : ℕ → Text → ℕ
decimal_value acc [] = acc
decimal_value acc (ch ∷ text) = decimal_value (acc * 10 + (ch - b'0')) text

-- `cpp_int::convert_to<std::string>` and `std::to_string` are library code. What is relied on:
-- the text is not empty, holds digits only, and stands for the number.
pub record Printer : Type 0 where
  pub print : ℕ → Text
  pub nonempty : (n : ℕ) → print n ≡ [] → ⊥
  pub digits : (n : ℕ) → All (λ ch. (b'0' ≤ ch) × (ch ≤ b'9')) (print n)
  pub stands_for : (n : ℕ) → decimal_value 0 (print n) ≡ n
