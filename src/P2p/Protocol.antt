-- ===== src/P2p/Protocol.antt =====
-- include/zano_p2pool/p2p_protocol.hpp and src/p2p_protocol.cpp: the envelope of every message, and
-- the handshake. A network is the byte of its enum, which may hold any byte; the checks of the
-- source tell which are supported.
use zano_p2pool.Prelude.{
  ℕ, ◌+◌, ◌*◌, Bool, not, ◌&&◌, ◌||◌, [], ◌∷◌, ◌++◌, ◌>>=◌, ◌>>◌, Result, ok, throws, throw_if,
  runtime_error, invalid_argument, if◌then◌else◌, ltb, ◌==◌, length, take, drop, get_or,
}
use zano_p2pool.Bytes.{Bytes, same, value, to_bytes, is_zero}
use zano_p2pool.Share.{append_u64_be, is_zero_share_id}
use zano_p2pool.Params.{
  sidechain_id, canonical_sidechain_parameters, testnet, mainnet, is_zero_sidechain_id,
}
use zano_p2pool.P2p.MessageType
use zano_p2pool.P2p.MessageType.{p2p_message_type_supported}

-- "ZP2P"
abbrev pub p2p_magic : Bytes
p2p_magic = b'Z' ∷ b'P' ∷ b'2' ∷ b'P' ∷ []

abbrev pub p2p_protocol_version : ℕ
p2p_protocol_version = 2

abbrev pub p2p_envelope_header_size : ℕ
p2p_envelope_header_size = 12

abbrev pub p2p_max_payload_size : ℕ
p2p_max_payload_size = 64 * 1024

abbrev pub p2p_handshake_payload_size : ℕ
p2p_handshake_payload_size = 115

-- `P2pNetwork`
abbrev pub network_testnet : ℕ
network_testnet = 1

abbrev pub network_mainnet : ℕ
network_mainnet = 2

abbrev pub is_supported_network : ℕ → Bool
is_supported_network value = (value == network_testnet) || (value == network_mainnet)

pub record P2pEnvelope : Type 0 where
  pub version : ℕ
  pub message_type : ℕ
  pub flags : ℕ
  pub payload : Bytes

-- A value-initialised envelope with this type and payload.
abbrev pub envelope_of : ℕ → Bytes → P2pEnvelope
envelope_of message_type payload = record {
  version = p2p_protocol_version;
  message_type = message_type;
  flags = 0;
  payload = payload;
}

pub record P2pHandshake : Type 0 where
  pub network : ℕ
  pub node_id : Bytes
  pub capabilities : ℕ
  pub listen_port : ℕ
  pub best_share_id : Bytes
  pub best_share_height : ℕ
  pub sidechain : Bytes

-- `read_u16_be`, `read_u32_be` and `read_u64_be`: a word of `n` bytes at an offset.
unfoldable pub read_be : ℕ → Bytes → ℕ → Result ℕ
read_be n bytes offset =
    if ltb (length bytes) (offset + n)
    then throws runtime_error
    else ok (value (take n (drop offset bytes)))

abbrev pub is_zero_node_id : Bytes → Bool
is_zero_node_id = is_zero

unfoldable pub require_valid_handshake : P2pHandshake → Result (Unit {0})
require_valid_handshake handshake = do
  throw_if (not (is_supported_network handshake.network)) runtime_error
  throw_if (is_zero_node_id handshake.node_id) runtime_error
  throw_if (is_zero_share_id handshake.best_share_id && not (handshake.best_share_height == 0))
      runtime_error

unfoldable pub canonical_p2p_sidechain_id : ℕ → Result Bytes
canonical_p2p_sidechain_id network =
    if network == network_testnet
    then sidechain_id (canonical_sidechain_parameters testnet)
    else if network == network_mainnet
    then sidechain_id (canonical_sidechain_parameters mainnet)
    else throws invalid_argument

unfoldable pub resolved_p2p_sidechain_id : P2pHandshake → Result Bytes
resolved_p2p_sidechain_id handshake =
    if not (is_zero_sidechain_id handshake.sidechain)
    then ok handshake.sidechain
    else canonical_p2p_sidechain_id handshake.network

-- The magic, the version, the type, the flags and the size, in front of the payload.
unfoldable pub envelope_bytes : P2pEnvelope → Bytes
envelope_bytes envelope =
    p2p_magic
    ++ (envelope.version
        ∷ envelope.message_type
        ∷ (to_bytes 2 envelope.flags ++ (to_bytes 4 (length envelope.payload) ++ envelope.payload)))

unfoldable pub serialize_p2p_envelope : P2pEnvelope → Result Bytes
serialize_p2p_envelope envelope = do
  throw_if (not (envelope.version == p2p_protocol_version)) runtime_error
  throw_if (not (p2p_message_type_supported envelope.message_type)) runtime_error
  throw_if (not (envelope.flags == 0)) runtime_error
  throw_if (ltb p2p_max_payload_size (length envelope.payload)) runtime_error
  ok (envelope_bytes envelope)

unfoldable pub deserialize_p2p_envelope : Bytes → Result P2pEnvelope
deserialize_p2p_envelope bytes = do
  throw_if (ltb (length bytes) p2p_envelope_header_size) runtime_error
  throw_if (not (same p2p_magic (take 4 bytes))) runtime_error
  throw_if (not (get_or bytes 4 0 == p2p_protocol_version)) runtime_error
  throw_if (not (p2p_message_type_supported (get_or bytes 5 0))) runtime_error
  flags ← read_be 2 bytes 6
  throw_if (not (flags == 0)) runtime_error
  payload_size ← read_be 4 bytes 8
  throw_if (ltb p2p_max_payload_size payload_size) runtime_error
  throw_if (not (length bytes == p2p_envelope_header_size + payload_size)) runtime_error
  ok (record {
    version = get_or bytes 4 0;
    message_type = get_or bytes 5 0;
    flags = flags;
    payload = drop p2p_envelope_header_size bytes;
  })

-- The fields of a handshake, with the resolved sidechain.
unfoldable pub handshake_bytes : P2pHandshake → Bytes → Bytes
handshake_bytes handshake effective =
    handshake.network
    ∷ (effective
        ++ (handshake.node_id
            ++ (append_u64_be handshake.capabilities
                ++ (to_bytes 2 handshake.listen_port
                    ++ (handshake.best_share_id ++ append_u64_be handshake.best_share_height)))))

unfoldable pub serialize_p2p_handshake_payload : P2pHandshake → Result Bytes
serialize_p2p_handshake_payload handshake = do
  require_valid_handshake handshake
  effective ← resolved_p2p_sidechain_id handshake
  throw_if (not (length (handshake_bytes handshake effective) == p2p_handshake_payload_size))
      runtime_error
  ok (handshake_bytes handshake effective)

unfoldable pub deserialize_p2p_handshake_payload : Bytes → Result P2pHandshake
deserialize_p2p_handshake_payload bytes = do
  throw_if (not (length bytes == p2p_handshake_payload_size)) runtime_error
  throw_if (not (is_supported_network (get_or bytes 0 0))) runtime_error
  throw_if (is_zero_sidechain_id (take 32 (drop 1 bytes))) runtime_error
  capabilities ← read_be 8 bytes 65
  listen_port ← read_be 2 bytes 73
  best_share_height ← read_be 8 bytes 107
  let handshake : P2pHandshake = record {
    network = get_or bytes 0 0;
    node_id = take 32 (drop 33 bytes);
    capabilities = capabilities;
    listen_port = listen_port;
    best_share_id = take 32 (drop 75 bytes);
    best_share_height = best_share_height;
    sidechain = take 32 (drop 1 bytes);
  }
  require_valid_handshake handshake
  ok handshake

unfoldable pub make_p2p_handshake_envelope : P2pHandshake → Result P2pEnvelope
make_p2p_handshake_envelope handshake = do
  payload ← serialize_p2p_handshake_payload handshake
  ok (envelope_of MessageType.handshake payload)

-- The three checks that every parser of a message begins with, `require_envelope_type`.
unfoldable pub require_envelope_type : P2pEnvelope → ℕ → Result (Unit {0})
require_envelope_type envelope expected = do
  throw_if (not (envelope.version == p2p_protocol_version)) runtime_error
  throw_if (not (envelope.message_type == expected)) runtime_error
  throw_if (not (envelope.flags == 0)) runtime_error

unfoldable pub parse_p2p_handshake_envelope : P2pEnvelope → Result P2pHandshake
parse_p2p_handshake_envelope envelope = do
  require_envelope_type envelope MessageType.handshake
  deserialize_p2p_handshake_payload envelope.payload

pub data P2pHandshakeStatus : Type 0 where
  accept wrong_network wrong_sidechain self_connection : P2pHandshakeStatus

unfoldable pub validate_p2p_handshake : P2pHandshake → ℕ → Bytes → Bytes → P2pHandshakeStatus
validate_p2p_handshake peer expected_network expected_sidechain local_node_id =
    if not (peer.network == expected_network)
    then wrong_network
    else if not (same peer.sidechain expected_sidechain)
    then wrong_sidechain
    else if same peer.node_id local_node_id
    then self_connection
    else accept

-- The overload for the canonical sidechain of the network.
unfoldable pub validate_canonical_handshake : P2pHandshake → ℕ → Bytes → Result P2pHandshakeStatus
validate_canonical_handshake peer expected_network local_node_id = do
  expected ← canonical_p2p_sidechain_id expected_network
  ok (validate_p2p_handshake peer expected_network expected local_node_id)
