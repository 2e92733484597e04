-- ===== src/Share.antt =====
-- include/zano_p2pool/share.hpp and src/share.cpp: the share, its canonical encoding and its
-- identity. A span that is read at a moving offset is the list of the bytes from that offset on.
pub mod Codec
pub mod RoundTrip
pub mod Canonical
pub mod Reading
pub mod Difficulty
use zano_p2pool.Prelude.{
  ℕ, suc, ◌+◌, ◌≡◌, ◌<◌, ◌^◌, ◌>>=◌, ◌>>◌, not, ◌&&◌, ◌||◌, Bool, true, false, Option, none, some,
  List, [], ◌∷◌, ◌++◌, Result, ok, throws, throw_if, invalid_argument, runtime_error, logic_error,
  length, take, drop, ltb, ◌==◌, if◌then◌else◌,
}
use zano_p2pool.Bytes.{Bytes, same, is_zero, value, to_bytes, IsArray}
use zano_p2pool.Hash.{cn_fast_hash}
use zano_p2pool.Decimal.{Text, parse_uint128_decimal}

pub record PayoutPublicKeys : Type 0 where
  pub spend_public_key : Bytes
  pub view_public_key : Bytes

abbrev pub share_version_1 : ℕ
share_version_1 = 1

abbrev pub share_version_2 : ℕ
share_version_2 = 2

abbrev pub share_v1_serialized_size : ℕ
share_v1_serialized_size = 165

abbrev pub share_v2_serialized_size : ℕ
share_v2_serialized_size = share_v1_serialized_size + 64

pub record Share : Type 0 where
  pub version : ℕ
  pub parent_id : Bytes
  pub share_height : ℕ
  pub timestamp : ℕ
  pub zano_height : ℕ
  pub mining_header_hash : Bytes
  pub nonce : ℕ
  pub share_difficulty : Bytes
  pub network_difficulty : Bytes
  pub miner_id : Bytes
  pub payout : Option PayoutPublicKeys

-- "ZP2S" and "ZP2P\0".
abbrev pub share_magic : Bytes
share_magic = b'Z' ∷ b'P' ∷ b'2' ∷ b'S' ∷ []

abbrev pub payout_miner_domain : Bytes
payout_miner_domain = b'Z' ∷ b'P' ∷ b'2' ∷ b'P' ∷ 0 ∷ []

unfoldable pub append_u64_be : ℕ → Bytes
append_u64_be v = to_bytes 8 v

-- The array or word that is read, and the bytes behind it.
unfoldable pub read_array : ℕ → Bytes → Result (Bytes × Bytes)
read_array n bytes =
    if ltb (length bytes) n then throws runtime_error else ok (take n bytes, drop n bytes)

unfoldable pub read_u64_be : Bytes → Result (ℕ × Bytes)
read_u64_be bytes =
    if ltb (length bytes) 8 then throws runtime_error else ok (value (take 8 bytes), drop 8 bytes)

unfoldable pub difficulty128_from_decimal : Text → Result Bytes
difficulty128_from_decimal decimal = do n ← parse_uint128_decimal decimal; ok (to_bytes 16 n)

-- The printer is `cpp_int::convert_to<std::string>`.
unfoldable pub difficulty128_to_decimal : (ℕ → Text) → Bytes → Text
difficulty128_to_decimal print difficulty = print (value difficulty)

abbrev pub difficulty128_is_zero : Bytes → Bool
difficulty128_is_zero = is_zero

abbrev pub is_zero_share_id : Bytes → Bool
is_zero_share_id = is_zero

unfoldable pub miner_id_from_payout : PayoutPublicKeys → Bytes
miner_id_from_payout payout =
    cn_fast_hash (payout_miner_domain ++ (payout.spend_public_key ++ payout.view_public_key))

abbrev pub has_value {ℓ} : {A : Type ℓ} → Option A → Bool
has_value none = false
has_value (some a) = true

-- The checks at the head of `serialize_share`.
unfoldable pub check_payout : Share → Option PayoutPublicKeys → Result (Unit {0})
check_payout share none = throw_if (share.version == share_version_2) invalid_argument
check_payout share (some payout) = do
  throw_if (share.version == share_version_1) invalid_argument
  throw_if
      ((share.version == share_version_2)
        && not (same share.miner_id (miner_id_from_payout payout)))
      invalid_argument

-- The fields of both versions, followed by `rest`.
unfoldable pub common_fields : Share → Bytes → Bytes
common_fields share rest =
    share_magic
    ++ (share.version
        ∷ (share.parent_id
            ++ (append_u64_be share.share_height
                ++ (append_u64_be share.timestamp
                    ++ (append_u64_be share.zano_height
                        ++ (share.mining_header_hash
                            ++ (append_u64_be share.nonce
                                ++ (share.share_difficulty
                                    ++ (share.network_difficulty
                                        ++ (share.miner_id ++ rest))))))))))

abbrev pub payout_bytes : Option PayoutPublicKeys → Bytes
payout_bytes none = []
payout_bytes (some payout) = payout.spend_public_key ++ payout.view_public_key

abbrev pub expected_size : ℕ → ℕ
expected_size version =
    if version == share_version_1 then share_v1_serialized_size else share_v2_serialized_size

unfoldable pub serialize_share : Share → Result Bytes
unfolding check_payout
serialize_share share = do
  throw_if (not (share.version == share_version_1) && not (share.version == share_version_2))
      invalid_argument
  check_payout share share.payout
  let bytes =
      common_fields share
        (if share.version == share_version_2 then payout_bytes share.payout else [])
  throw_if (not (length bytes == expected_size share.version)) logic_error
  ok bytes

-- The keys of a version 2 share, with what follows them.
unfoldable pub read_payout : Bytes → Bytes → Result (PayoutPublicKeys × Bytes)
read_payout miner_id bytes = do
  (spend, bytes1) ← read_array 32 bytes
  (view, bytes2) ← read_array 32 bytes1
  let payout : PayoutPublicKeys = record { spend_public_key = spend; view_public_key = view }
  throw_if (not (same miner_id (miner_id_from_payout payout))) runtime_error
  ok (payout, bytes2)

-- From the byte behind the version on: the share without keys, and the bytes behind it.
unfoldable pub read_fields : ℕ → Bytes → Result (Share × Bytes)
read_fields version bytes = do
  (parent_id, bytes1) ← read_array 32 bytes
  (share_height, bytes2) ← read_u64_be bytes1
  (timestamp, bytes3) ← read_u64_be bytes2
  (zano_height, bytes4) ← read_u64_be bytes3
  (mining_header_hash, bytes5) ← read_array 32 bytes4
  (nonce, bytes6) ← read_u64_be bytes5
  (share_difficulty, bytes7) ← read_array 16 bytes6
  (network_difficulty, bytes8) ← read_array 16 bytes7
  (miner_id, bytes9) ← read_array 32 bytes8
  ok (
    record {
      version = version;
      parent_id = parent_id;
      share_height = share_height;
      timestamp = timestamp;
      zano_height = zano_height;
      mining_header_hash = mining_header_hash;
      nonce = nonce;
      share_difficulty = share_difficulty;
      network_difficulty = network_difficulty;
      miner_id = miner_id;
      payout = none;
    },
    bytes9,
  )

-- `offset != bytes.size()`.
abbrev pub require_end : Bytes → Share → Result Share
require_end [] share = ok share
require_end (b ∷ bytes) share = throws logic_error

unfoldable pub read_keys : Share → Bytes → Result Share
read_keys share bytes = do
  (payout, rest) ← read_payout share.miner_id bytes
  require_end rest (record share { payout = some payout })

-- The rest of `deserialize_share` once the version byte is read.
unfoldable pub deserialize_body : ℕ → ℕ → Bytes → Result Share
deserialize_body size version bytes = do
  throw_if (not (version == share_version_1) && not (version == share_version_2)) runtime_error
  throw_if (not (size == expected_size version)) runtime_error
  (share, rest) ← read_fields version bytes
  if version == share_version_2 then read_keys share rest else require_end rest share

-- `bytes[offset++]`, in bounds since there are five bytes.
abbrev pub deserialize_version : ℕ → Bytes → Result Share
deserialize_version size [] = throws runtime_error
deserialize_version size (version ∷ bytes) = deserialize_body size version bytes

unfoldable pub deserialize_share : Bytes → Result Share
deserialize_share bytes = do
  throw_if (ltb (length bytes) 5) runtime_error
  (magic, rest) ← read_array 4 bytes
  throw_if (not (same magic share_magic)) runtime_error
  deserialize_version (length bytes) rest

unfoldable pub share_id : Share → Result Bytes
share_id share = do bytes ← serialize_share share; ok (cn_fast_hash bytes)

-- The ranges of the fields of a C++ `Share`.
pub record IsShare (s : Share) : Type 0 where
  pub version_range : s.version < 256
  pub parent_array : IsArray 32 s.parent_id
  pub height_range : s.share_height < 2 ^ 64
  pub timestamp_range : s.timestamp < 2 ^ 64
  pub zano_height_range : s.zano_height < 2 ^ 64
  pub header_array : IsArray 32 s.mining_header_hash
  pub nonce_range : s.nonce < 2 ^ 64
  pub share_difficulty_array : IsArray 16 s.share_difficulty
  pub network_difficulty_array : IsArray 16 s.network_difficulty
  pub miner_array : IsArray 32 s.miner_id
  pub keys_arrays :
      (p : PayoutPublicKeys)
      → s.payout ≡ some p
      → IsArray 32 p.spend_public_key × IsArray 32 p.view_public_key
