-- ===== src/Tests/HashTests.antt =====
-- The hash of the empty string, which is the known one, and of a share.
use zano_p2pool.Prelude.{◌≡◌, refl, [], ◌∷◌, false}
use zano_p2pool.Bytes.{is_zero}
use zano_p2pool.Hash.{
  cn_fast_hash, keccak_f1600, keccak_rounds, keccak_round, theta, rho_pi, chi, chi_row, iota,
  xor_columns, rotl64, xor_words, absorb, pad, squeeze, load_le64, store_le64,
}
use zano_p2pool.Share.{serialize_share, check_payout, common_fields, append_u64_be}
use zano_p2pool.Tests.ShareTests.{written}

hash_of_empty :
    cn_fast_hash []
    ≡ 0xc5 ∷ 0xd2 ∷ 0x46 ∷ 0x01 ∷ 0x86 ∷ 0xf7 ∷ 0x23 ∷ 0x3c ∷ 0x92 ∷ 0x7e ∷ 0x7d ∷ 0xb2 ∷ 0xdc
      ∷ 0xc7 ∷ 0x03 ∷ 0xc0 ∷ 0xe5 ∷ 0x00 ∷ 0xb6 ∷ 0x53 ∷ 0xca ∷ 0x82 ∷ 0x27 ∷ 0x3b ∷ 0x7b ∷ 0xfa
      ∷ 0xd8 ∷ 0x04 ∷ 0x5d ∷ 0x85 ∷ 0xa4 ∷ 0x70 ∷ []
unfolding cn_fast_hash keccak_f1600 keccak_rounds keccak_round theta rho_pi chi chi_row iota
    xor_columns rotl64 xor_words absorb pad squeeze load_le64 store_le64
hash_of_empty = refl

pub hash_of_share-nonzero : is_zero (cn_fast_hash written) ≡ false
unfolding cn_fast_hash keccak_f1600 keccak_rounds keccak_round theta rho_pi chi chi_row iota
    xor_columns rotl64 xor_words absorb pad squeeze load_le64 store_le64 is_zero serialize_share
    check_payout common_fields append_u64_be zano_p2pool.Bytes.fill
hash_of_share-nonzero = refl
