-- ===== src/Hash/Absorb.antt =====
-- The absorbing loop of `cn_fast_hash` of src/crypto_hash.cpp, and the size of the digest.
use Prim.Native.Nat.{bit_or}
use zano_p2pool.Prelude.{
  ltb, Bool-cases, inl, inr, ltb→lt, ltb_false→le, ◌-◌, ◌/◌, get_or, set, ℕ, zero, suc, ◌+◌, ◌*◌,
  ◌≤◌, ◌<◌, ◌≡◌, refl, [], ◌∷◌, ◌++◌, All-append, arith, length, length-append, length-drop,
  length-set, length-replicate, drop, replicate,
}
use zano_p2pool.Bytes.{Bytes, IsByte, IsArray}
use zano_p2pool.Hash.{
  Lanes, absorb, pad, rate, squeeze, xor_words, keccak_f1600, store_le64, cn_fast_hash,
}

-- With as much fuel as bytes the loop leaves less than a block, so `tail[data.size()]` is inside
-- the tail block.
pub absorb_rest :
    (fuel : ℕ) (bytes : Bytes) (s : Lanes)
    → length bytes ≤ fuel
    → length (absorb fuel bytes s).0 < rate
unfolding absorb
absorb_rest zero bytes s h = omega arith
absorb_rest (suc fuel) bytes s h = elim (Bool-cases (ltb (length bytes) rate)) [
  | inl short ↦ rw (short, absorb) (ltb→lt _ _ short)
  | inr more ↦
      rw (more, absorb)
        (absorb_rest fuel (drop rate bytes) (keccak_f1600 (xor_words 17 bytes s))
          (omega (arith, length-drop rate bytes, ltb_false→le (length bytes) rate more)))
]

pub length-pad : (rest : Bytes) → length rest < rate → length (pad rest) ≡ rate
unfolding pad
length-pad rest h =
    let whole = rest ++ replicate (rate - length rest) 0 in
    let tail = set whole (length rest) 0x01 in
    omega (
      arith,
      length-set tail (rate - 1) (bit_or (get_or tail (rate - 1) 0) 0x80),
      length-set whole (length rest) 0x01,
      length-append rest (replicate (rate - length rest) 0),
      length-replicate (rate - length rest) (zero),
    )

store_le64-IsArray : (n v : ℕ) → IsArray n (store_le64 n v)
unfolding store_le64
store_le64-IsArray zero v = (refl, tt)
store_le64-IsArray (suc n) v =
    let ih = store_le64-IsArray n (v / 256) in (omega arith, (omega arith, ih.1))

IsArray-append :
    (n m : ℕ) (xs ys : Bytes) → IsArray n xs → IsArray m ys → IsArray (n + m) (xs ++ ys)
IsArray-append n m xs ys h k = (omega (arith, length-append xs ys), All-append IsByte xs ys h.1 k.1)

squeeze-IsArray : (n : ℕ) (s : Lanes) → IsArray (n * 8) (squeeze n s)
unfolding squeeze
squeeze-IsArray zero s = (refl, tt)
squeeze-IsArray (suc n) [] =
    let r = IsArray-append 8 (n * 8) _ _ (store_le64-IsArray 8 0) (squeeze-IsArray n []) in
    (omega arith, r.1)
squeeze-IsArray (suc n) (x ∷ s) =
    let r = IsArray-append 8 (n * 8) _ _ (store_le64-IsArray 8 x) (squeeze-IsArray n s) in
    (omega arith, r.1)

-- The digest of any message is 32 bytes.
pub cn_fast_hash-IsArray : (bytes : Bytes) → IsArray 32 (cn_fast_hash bytes)
unfolding cn_fast_hash
cn_fast_hash-IsArray bytes =
    let (rest, s) = absorb (length bytes) bytes (replicate 25 0) in
    squeeze-IsArray 4 (keccak_f1600 (xor_words 17 (pad rest) s))
