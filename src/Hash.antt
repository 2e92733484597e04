-- ===== src/Hash.antt =====
-- src/crypto_hash.cpp: the CryptoNote fast hash (Keccak-1600 with 256 output bits, original
-- padding). A 64-bit lane is a number below 2 ^ 64 and the state is the list of its 25 lanes.
pub mod Absorb
use Prim.Native.Nat.{bit_and, bit_or, bit_xor}
use zano_p2pool.Prelude.{
  ℕ, zero, suc, ◌+◌, ◌-◌, ◌*◌, ◌/◌, ◌%◌, ◌^◌, List, [], ◌∷◌, ◌++◌, map, length, take, drop,
  replicate, get_or, set, ltb, ◌==◌, if◌then◌else◌, Bool,
}
use zano_p2pool.Bytes.{Bytes}

abbrev pub Lanes : Type 0
Lanes = List ℕ

abbrev round_constants : List ℕ
round_constants =
    0x0000000000000001 ∷ 0x0000000000008082 ∷ 0x800000000000808a ∷ 0x8000000080008000
    ∷ 0x000000000000808b ∷ 0x0000000080000001 ∷ 0x8000000080008081 ∷ 0x8000000000008009
    ∷ 0x000000000000008a ∷ 0x0000000000000088 ∷ 0x0000000080008009 ∷ 0x000000008000000a
    ∷ 0x000000008000808b ∷ 0x800000000000008b ∷ 0x8000000000008089 ∷ 0x8000000000008003
    ∷ 0x8000000000008002 ∷ 0x8000000000000080 ∷ 0x000000000000800a ∷ 0x800000008000000a
    ∷ 0x8000000080008081 ∷ 0x8000000000008080 ∷ 0x0000000080000001 ∷ 0x8000000080008008 ∷ []

abbrev rotation_constants : List ℕ
rotation_constants =
    1 ∷ 3 ∷ 6 ∷ 10 ∷ 15 ∷ 21 ∷ 28 ∷ 36 ∷ 45 ∷ 55 ∷ 2 ∷ 14 ∷ 27 ∷ 41 ∷ 56 ∷ 8 ∷ 25 ∷ 43 ∷ 62 ∷ 18
    ∷ 39 ∷ 61 ∷ 20 ∷ 44 ∷ []

abbrev pi_lane : List ℕ
pi_lane =
    10 ∷ 7 ∷ 11 ∷ 17 ∷ 18 ∷ 3 ∷ 5 ∷ 16 ∷ 8 ∷ 21 ∷ 24 ∷ 4 ∷ 15 ∷ 23 ∷ 19 ∷ 13 ∷ 12 ∷ 2 ∷ 20 ∷ 14 ∷ 22
    ∷ 9 ∷ 6 ∷ 1 ∷ []

unfoldable pub rotl64 : ℕ → ℕ → ℕ
rotl64 v shift = bit_or ((v * 2 ^ shift) % 2 ^ 64) (v / 2 ^ (64 - shift))

-- The eight bytes from the front, least significant first.
unfoldable pub load_le64 : ℕ → Bytes → ℕ
load_le64 zero bs = 0
load_le64 (suc n) [] = 0
load_le64 (suc n) (b ∷ bs) = b + 256 * load_le64 n bs

unfoldable pub store_le64 : ℕ → ℕ → Bytes
store_le64 zero v = []
store_le64 (suc n) v = (v % 256) ∷ store_le64 n (v / 256)

abbrev column_parity : Lanes → ℕ → ℕ
column_parity s i =
    bit_xor
      (bit_xor (bit_xor (bit_xor (get_or s i 0) (get_or s (i + 5) 0)) (get_or s (i + 10) 0))
        (get_or s (i + 15) 0))
      (get_or s (i + 20) 0)

-- The word that the second loop of a round xors into column `i`.
abbrev column_mix : List ℕ → ℕ → ℕ
column_mix bc i = bit_xor (get_or bc ((i + 4) % 5) 0) (rotl64 (get_or bc ((i + 1) % 5) 0) 1)

unfoldable pub xor_columns : List ℕ → ℕ → Lanes → Lanes
xor_columns t i [] = []
xor_columns t i (x ∷ s) = bit_xor x (get_or t (i % 5) 0) ∷ xor_columns t (i + 1) s

abbrev five : List ℕ
five = 0 ∷ 1 ∷ 2 ∷ 3 ∷ 4 ∷ []

unfoldable pub theta : Lanes → Lanes
theta s = let bc = map (column_parity s) five in xor_columns (map (column_mix bc) five) 0 s

unfoldable pub rho_pi : ℕ → List ℕ → List ℕ → Lanes → Lanes
rho_pi t (j ∷ js) (r ∷ rs) s = rho_pi (get_or s j 0) js rs (set s j (rotl64 t r))
rho_pi t _ _ s = s

-- One row of five lanes; `~` is taken on 64 bits.
unfoldable pub chi_row : List ℕ → List ℕ
chi_row bc =
    map
      (λ i.
        bit_xor (get_or bc i 0)
          (bit_and (2 ^ 64 - 1 - get_or bc ((i + 1) % 5) 0) (get_or bc ((i + 2) % 5) 0)))
      five

unfoldable pub chi : ℕ → Lanes → Lanes
chi zero s = s
chi (suc rows) s = chi_row (take 5 s) ++ chi rows (drop 5 s)

unfoldable pub iota : ℕ → Lanes → Lanes
iota c [] = []
iota c (x ∷ s) = bit_xor x c ∷ s

unfoldable pub keccak_round : ℕ → Lanes → Lanes
keccak_round c s =
    let mixed = theta s in
    iota c (chi 5 (rho_pi (get_or mixed 1 0) pi_lane rotation_constants mixed))

unfoldable pub keccak_rounds : List ℕ → Lanes → Lanes
keccak_rounds [] s = s
keccak_rounds (c ∷ cs) s = keccak_rounds cs (keccak_round c s)

unfoldable pub keccak_f1600 : Lanes → Lanes
unfolding keccak_rounds keccak_round theta rho_pi chi chi_row iota xor_columns rotl64
keccak_f1600 = keccak_rounds round_constants

abbrev pub rate : ℕ
rate = 136

-- `state[i] ^= load_le64(p + 8 * i)` for the first `n` lanes.
unfoldable pub xor_words : ℕ → Bytes → Lanes → Lanes
xor_words zero bs s = s
xor_words (suc n) bs [] = []
xor_words (suc n) bs (x ∷ s) = bit_xor x (load_le64 8 bs) ∷ xor_words n (drop 8 bs) s

-- `while (data.size() >= kRate)`: the state and the data that is left.
unfoldable pub absorb : ℕ → Bytes → Lanes → Bytes × Lanes
absorb zero bytes s = (bytes, s)
absorb (suc fuel) bytes s =
    let next = absorb fuel (drop rate bytes) (keccak_f1600 (xor_words 17 bytes s)) in
    if ltb (length bytes) rate then (bytes, s) else next

-- The last block: the data that is left, 0x01, zeros, and 0x80 in the last byte.
unfoldable pub pad : Bytes → Bytes
pad rest =
    let tail = set (rest ++ replicate (rate - length rest) 0) (length rest) 0x01 in
    set tail (rate - 1) (bit_or (get_or tail (rate - 1) 0) 0x80)

unfoldable pub squeeze : ℕ → Lanes → Bytes
squeeze zero s = []
squeeze (suc n) [] = store_le64 8 0 ++ squeeze n []
squeeze (suc n) (x ∷ s) = store_le64 8 x ++ squeeze n s

unfoldable pub cn_fast_hash : Bytes → Bytes
unfolding keccak_f1600 xor_words absorb pad squeeze load_le64 store_le64
cn_fast_hash bytes =
    let (rest, s) = absorb (length bytes) bytes (replicate 25 0) in
    squeeze 4 (keccak_f1600 (xor_words 17 (pad rest) s))
