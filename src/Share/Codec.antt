-- ===== src/Share/Codec.antt =====
-- Lemmas on the readers of src/share.cpp behind what its writers append.
use mathlib.Core.List.{append-nil}
use zano_p2pool.Prelude.{
  ℕ, ◌≡◌, ◌<◌, ◌^◌, [], ◌++◌, ok, arith, length, length-append, take-append, drop-append, le→ltb,
}
use zano_p2pool.Bytes.{Bytes, to_bytes}
use zano_p2pool.Bytes.Value.{value-to_bytes, to_bytes-IsArray}
use zano_p2pool.Share.{read_array, read_u64_be, append_u64_be}

-- An array is read back, whatever follows it.
pub read_array-append :
    (n : ℕ) (xs rest : Bytes) → length xs ≡ n → read_array n (xs ++ rest) ≡ ok (xs, rest)
unfolding read_array
read_array-append n xs rest h = rw (
  le→ltb n (length (xs ++ rest)) (omega (arith, length-append xs rest)),
  take-append n xs rest h,
  drop-append n xs rest h,
)

-- A 64-bit word is read back, whatever follows it.
pub read_u64_be-append :
    (v : ℕ) (rest : Bytes) → v < 2 ^ 64 → read_u64_be (append_u64_be v ++ rest) ≡ ok (v, rest)
unfolding read_u64_be append_u64_be
read_u64_be-append v rest h =
    let size = (to_bytes-IsArray 8 v).0 in
    rw (
      le→ltb 8 (length (to_bytes 8 v ++ rest)) (omega (arith, length-append (to_bytes 8 v) rest)),
      take-append 8 (to_bytes 8 v) rest size,
      drop-append 8 (to_bytes 8 v) rest size,
      value-to_bytes 8 v h,
    )

-- An array is read from itself, and nothing is left.
pub read_array_self : (n : ℕ) (xs : Bytes) → length xs ≡ n → read_array n xs ≡ ok (xs, [])
read_array_self n xs h = rw append-nil at (read_array-append n xs [] h)
