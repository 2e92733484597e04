-- ===== src/Share/Difficulty.antt =====
-- The difficulties of src/share.cpp as decimal text.
use zano_p2pool.Prelude.{ℕ, ◌<◌, ◌^◌, ◌≡◌, false, ok, arith, subst}
use zano_p2pool.Bytes.{Bytes, IsArray, value}
use zano_p2pool.Bytes.Value.{value_bound, to_bytes-value, is_zero-value}
use zano_p2pool.Decimal.{Printer, parse_uint128_decimal}
use zano_p2pool.Decimal.Text.{parse-print}
use zano_p2pool.Share.{difficulty128_from_decimal, difficulty128_to_decimal, difficulty128_is_zero}

pub value-pos : (d : Bytes) → difficulty128_is_zero d ≡ false → 0 < value d
value-pos d h = ground (arith, is_zero-value d)

pub value-lt_of_array : (n : ℕ) (d : Bytes) → IsArray n d → value d < 256 ^ n
value-lt_of_array n d h = subst (λ k. value d < 256 ^ k) h.0 (value_bound d h.1)

module _ (printer : Printer) where
  -- The text that a share's difficulty is validated by stands for that difficulty.
  pub parse-difficulty :
      (d : Bytes)
      → IsArray 16 d
      → difficulty128_is_zero d ≡ false
      → parse_uint128_decimal (difficulty128_to_decimal printer.print d) ≡ ok (value d)
  unfolding difficulty128_to_decimal
  parse-difficulty d h z =
      parse-print printer (value d) (value-pos d z) (omega (arith, value-lt_of_array 16 d h))

  -- A nonzero difficulty of 16 bytes that is printed as decimal text is read back unchanged.
  pub difficulty_round_trip :
      (d : Bytes)
      → IsArray 16 d
      → difficulty128_is_zero d ≡ false
      → difficulty128_from_decimal (difficulty128_to_decimal printer.print d) ≡ ok d
  unfolding difficulty128_from_decimal
  difficulty_round_trip d h z = rw (parse-difficulty d h z, to_bytes-value 16 d h)
