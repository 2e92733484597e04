-- ===== src/Target/Meets.antt =====
-- The hash test of src/pow_target.cpp, with products in place of the rounded target.
use zano_p2pool.Prelude.{ℕ, ◌*◌, ◌/◌, ◌≤◌, ◌<◌, ◌≡◌, ok, arith, leb}
use zano_p2pool.Bytes.{Bytes, value}
use zano_p2pool.Bytes.Value.{value-to_bytes}
use zano_p2pool.Decimal.{Text, parse_uint128_decimal}
use zano_p2pool.Target.{max256, hash_meets_difficulty}

le-div : (h d m : ℕ) → 0 < d → leb h (m / d) ≡ leb (h * d) m
le-div h d m p = grind arith

div-le : (m d : ℕ) → m / d ≤ m
div-le m d = omega arith

-- For a text that parses to a positive difficulty, the comparison of a hash with the rounded
-- target is the test that hash times difficulty is at most 2 ^ 256 - 1.
pub hash_meets_difficulty-product :
    (hash : Bytes) (text : Text) (d : ℕ)
    → parse_uint128_decimal text ≡ ok d
    → 0 < d
    → hash_meets_difficulty hash text ≡ ok (leb (value hash * d) max256)
unfolding hash_meets_difficulty
hash_meets_difficulty-product hash text d h p =
    rw (h, value-to_bytes 32 (max256 / d) (omega (arith, div-le max256 d)), le-div _ d max256 p)
