-- ===== src/Params.antt =====
-- include/zano_p2pool/sidechain_params.hpp: the consensus parameters of a sidechain, their
-- canonical encoding with all its checks, and the identity derived from it. The enumeration
-- `SidechainParentNetwork` has its two values only, so the checks for another value are void.
use zano_p2pool.Prelude.{
  ℕ, ◌>>=◌, ◌>>◌, ◌||◌, Bool, [], ◌∷◌, ◌++◌, Result, ok, throw_if, invalid_argument, ltb, leb, ◌==◌,
  not,
}
use zano_p2pool.Bytes.{Bytes, is_zero, same, zeros}
use zano_p2pool.Hash.{cn_fast_hash}
use zano_p2pool.Share.{PayoutPublicKeys, append_u64_be, share_version_2}

abbrev pub share_max_future_seconds : ℕ
share_max_future_seconds = 60

abbrev pub share_max_parent_backstep_seconds : ℕ
share_max_parent_backstep_seconds = 60

abbrev pub sidechain_parameter_version : ℕ
sidechain_parameter_version = 4

-- "ZP2SIDV4".
abbrev pub sidechain_id_domain : Bytes
sidechain_id_domain = b'Z' ∷ b'P' ∷ b'2' ∷ b'S' ∷ b'I' ∷ b'D' ∷ b'V' ∷ b'4' ∷ []

abbrev pub operator_fee_basis_point_denominator : ℕ
operator_fee_basis_point_denominator = 10000

abbrev pub canonical_operator_fee_basis_points : ℕ
canonical_operator_fee_basis_points = 100

abbrev pub canonical_pplns_window_shares : ℕ
canonical_pplns_window_shares = 31

abbrev pub canonical_operator_fee_payout : PayoutPublicKeys
canonical_operator_fee_payout = record {
  spend_public_key =
      0x0a ∷ 0x7e ∷ 0x53 ∷ 0xf7 ∷ 0x00 ∷ 0xf4 ∷ 0x6f ∷ 0x2e ∷ 0x5d ∷ 0x28 ∷ 0x3a ∷ 0xaa ∷ 0xcb
      ∷ 0xfc ∷ 0x6e ∷ 0x69 ∷ 0xc9 ∷ 0x53 ∷ 0x2a ∷ 0x56 ∷ 0x28 ∷ 0xc9 ∷ 0xfd ∷ 0xf8 ∷ 0x07 ∷ 0xf2
      ∷ 0x58 ∷ 0xe0 ∷ 0xcb ∷ 0xba ∷ 0x0c ∷ 0xe1 ∷ [];
  view_public_key =
      0xdd ∷ 0x5d ∷ 0xd9 ∷ 0x0b ∷ 0x2c ∷ 0xc8 ∷ 0xc1 ∷ 0x97 ∷ 0xea ∷ 0x29 ∷ 0x7e ∷ 0x06 ∷ 0x56
      ∷ 0x19 ∷ 0x29 ∷ 0xc0 ∷ 0x42 ∷ 0x2b ∷ 0xfe ∷ 0x9b ∷ 0xff ∷ 0x49 ∷ 0x5c ∷ 0x5d ∷ 0x62 ∷ 0x72
      ∷ 0xc2 ∷ 0x37 ∷ 0x3f ∷ 0x5f ∷ 0x12 ∷ 0x9e ∷ [];
}

pub data SidechainParentNetwork : Type 0 where
  testnet mainnet : SidechainParentNetwork

abbrev pub network_tag : SidechainParentNetwork → ℕ
network_tag testnet = 1
network_tag mainnet = 2

pub record SidechainParameters : Type 0 where
  pub parameter_version : ℕ
  pub parent_network : SidechainParentNetwork
  pub minimum_share_version : ℕ
  pub maximum_share_version : ℕ
  pub max_future_seconds : ℕ
  pub max_parent_backstep_seconds : ℕ
  pub target_share_seconds : ℕ
  pub minimum_share_difficulty : ℕ
  pub difficulty_window_shares : ℕ
  pub pplns_window_shares : ℕ
  pub pplns_max_network_difficulty_multiplier : ℕ
  pub operator_fee_basis_points : ℕ
  pub operator_fee_payout : PayoutPublicKeys

unfoldable pub canonical_sidechain_parameters : SidechainParentNetwork → SidechainParameters
canonical_sidechain_parameters network = record {
  parameter_version = sidechain_parameter_version;
  parent_network = network;
  minimum_share_version = share_version_2;
  maximum_share_version = share_version_2;
  max_future_seconds = share_max_future_seconds;
  max_parent_backstep_seconds = share_max_parent_backstep_seconds;
  target_share_seconds = 10;
  minimum_share_difficulty = 100_000_000;
  difficulty_window_shares = 2160;
  pplns_window_shares = canonical_pplns_window_shares;
  pplns_max_network_difficulty_multiplier = 2;
  operator_fee_basis_points = canonical_operator_fee_basis_points;
  operator_fee_payout = canonical_operator_fee_payout;
}

-- The ten checks of the encoder, in its order.
unfoldable pub check_sidechain_parameters : SidechainParameters → Result (Unit {0})
check_sidechain_parameters p = do
  throw_if (not (p.parameter_version == sidechain_parameter_version)) invalid_argument
  throw_if ((p.minimum_share_version == 0) || ltb p.maximum_share_version p.minimum_share_version)
      invalid_argument
  throw_if (p.target_share_seconds == 0) invalid_argument
  throw_if (p.minimum_share_difficulty == 0) invalid_argument
  throw_if (ltb p.difficulty_window_shares 2) invalid_argument
  throw_if ((p.pplns_window_shares == 0) || ltb canonical_pplns_window_shares p.pplns_window_shares)
      invalid_argument
  throw_if (p.pplns_max_network_difficulty_multiplier == 0) invalid_argument
  throw_if
      ((p.operator_fee_basis_points == 0)
        || leb operator_fee_basis_point_denominator p.operator_fee_basis_points)
      invalid_argument
  throw_if
      (same p.operator_fee_payout.spend_public_key (zeros 32)
        || same p.operator_fee_payout.view_public_key (zeros 32))
      invalid_argument

unfoldable pub serialize_sidechain_parameters : SidechainParameters → Result Bytes
unfolding check_sidechain_parameters
serialize_sidechain_parameters p = do
  check_sidechain_parameters p
  ok (
      sidechain_id_domain
      ++ (network_tag p.parent_network
          ∷ p.minimum_share_version
          ∷ p.maximum_share_version
          ∷ (append_u64_be p.max_future_seconds
              ++ (append_u64_be p.max_parent_backstep_seconds
                  ++ (append_u64_be p.target_share_seconds
                      ++ (append_u64_be p.minimum_share_difficulty
                          ++ (append_u64_be p.difficulty_window_shares
                              ++ (append_u64_be p.pplns_window_shares
                                  ++ (append_u64_be p.pplns_max_network_difficulty_multiplier
                                      ++ (append_u64_be p.operator_fee_basis_points
                                          ++ (p.operator_fee_payout.spend_public_key
                                              ++ p.operator_fee_payout.view_public_key)))))))))))

unfoldable pub sidechain_id : SidechainParameters → Result Bytes
sidechain_id p = do bytes ← serialize_sidechain_parameters p; ok (cn_fast_hash bytes)

abbrev pub is_zero_sidechain_id : Bytes → Bool
is_zero_sidechain_id = is_zero
