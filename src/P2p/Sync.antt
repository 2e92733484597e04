-- ===== src/P2p/Sync.antt =====
-- include/zano_p2pool/p2p_sync.hpp and src/p2p_sync.cpp: a node asks a peer for a share by its id,
-- and takes the answer in as any share from a peer.
pub mod Answers
pub mod Answering
use zano_p2pool.Prelude.{
  ℕ, Bool, true, false, not, ◌+◌, ◌-◌, ◌&&◌, Option, none, some, [], ◌∷◌, ◌++◌, ◌>>=◌, ◌>>◌, Result,
  ok, throws, throw_if, runtime_error, if◌then◌else◌, ltb, ◌==◌, length, take, drop, get_or,
}
use zano_p2pool.Bytes.{Bytes, same}
use zano_p2pool.Platform.{Platform, ProgPowZContextMode}
use zano_p2pool.Share.{Share, serialize_share, deserialize_share, share_id, is_zero_share_id}
use zano_p2pool.Chain.{ShareChain, ConnectedShare, find_share}
use zano_p2pool.P2p.MessageType
use zano_p2pool.P2p.Capability.{share_sync, lacks}
use zano_p2pool.P2p.Protocol.{P2pEnvelope, P2pHandshake, envelope_of, require_envelope_type}
use zano_p2pool.P2p.Registry.{P2pTrustedWorkRegistry}
use zano_p2pool.P2p.Receiver.{P2pShareReceiveResult, is_share_size, receive_share}

abbrev pub p2p_share_request_payload_size : ℕ
p2p_share_request_payload_size = 32

abbrev pub p2p_share_response_header_size : ℕ
p2p_share_response_header_size = 33

-- `P2pShareResponseCode`
abbrev pub code_found : ℕ
code_found = 1

abbrev pub code_not_found : ℕ
code_not_found = 2

-- `share.has_value()` exactly when the code is `Found`.
pub record P2pShareResponse : Type 0 where
  pub code : ℕ
  pub requested_id : Bytes
  pub share : Option Share

unfoldable pub make_p2p_share_request_envelope : Bytes → Result P2pEnvelope
make_p2p_share_request_envelope requested_id = do
  throw_if (is_zero_share_id requested_id) runtime_error
  ok (envelope_of MessageType.share_request requested_id)

unfoldable pub parse_p2p_share_request_envelope : P2pEnvelope → Result Bytes
parse_p2p_share_request_envelope envelope = do
  require_envelope_type envelope MessageType.share_request
  throw_if (not (length envelope.payload == p2p_share_request_payload_size)) runtime_error
  throw_if (is_zero_share_id envelope.payload) runtime_error
  ok envelope.payload

unfoldable pub make_found_envelope : Bytes → Share → Result P2pEnvelope
make_found_envelope requested_id share = do
  id ← share_id share
  throw_if (not (same id requested_id)) runtime_error
  serialized ← serialize_share share
  ok (envelope_of MessageType.share_response (code_found ∷ (requested_id ++ serialized)))

unfoldable pub make_p2p_share_response_envelope : Bytes → Option Share → Result P2pEnvelope
unfolding make_found_envelope
make_p2p_share_response_envelope requested_id share = do
  throw_if (is_zero_share_id requested_id) runtime_error
  elim share [
    | none ↦ ok (envelope_of MessageType.share_response (code_not_found ∷ requested_id))
    | some found ↦ make_found_envelope requested_id found
  ]

-- Behind the test for the code `Found`.
unfoldable pub parse_found : Bytes → Bytes → Result P2pShareResponse
parse_found requested_id serialized = do
  throw_if (not (is_share_size (length serialized))) runtime_error
  share ← deserialize_share serialized
  id ← share_id share
  throw_if (not (same id requested_id)) runtime_error
  ok (record { code = code_found; requested_id = requested_id; share = some share })

unfoldable pub parse_response_payload : Bytes → Result P2pShareResponse
unfolding parse_found
parse_response_payload payload = do
  throw_if (ltb (length payload) p2p_share_response_header_size) runtime_error
  let requested_id = take 32 (drop 1 payload)
  throw_if (is_zero_share_id requested_id) runtime_error
  if get_or payload 0 0 == code_not_found
      then (throw_if (not (length payload == p2p_share_response_header_size)) runtime_error
          >> ok (record { code = code_not_found; requested_id = requested_id; share = none }))
      else if not (get_or payload 0 0 == code_found)
      then throws runtime_error
      else parse_found requested_id (drop p2p_share_response_header_size payload)

unfoldable pub parse_p2p_share_response_envelope : P2pEnvelope → Result P2pShareResponse
unfolding parse_response_payload
parse_p2p_share_response_envelope envelope = do
  require_envelope_type envelope MessageType.share_response
  parse_response_payload envelope.payload

-- `connected == nullptr ? nullptr : &connected->share`
abbrev pub connected_share_of : Option ConnectedShare → Option Share
connected_share_of none = none
connected_share_of (some connected) = some connected.share

unfoldable pub answer_p2p_share_request :
    P2pHandshake → P2pEnvelope → ShareChain → Result P2pEnvelope
answer_p2p_share_request peer request chain = do
  throw_if (lacks peer.capabilities share_sync) runtime_error
  requested_id ← parse_p2p_share_request_envelope request
  make_p2p_share_response_envelope requested_id (connected_share_of (find_share chain requested_id))

pub data P2pShareSyncReceiveStatus : Type 0 where
  share_processed not_found sync_capability_missing : P2pShareSyncReceiveStatus

pub record P2pShareSyncReceiveResult : Type 0 where
  pub status : P2pShareSyncReceiveStatus
  pub requested_id : Bytes
  pub share_result : Option P2pShareReceiveResult

module _ (platform : Platform) where
  -- Behind the test for the capability.
  unfoldable pub receive_response :
      ShareChain
      → P2pTrustedWorkRegistry
      → P2pHandshake
      → P2pShareResponse
      → ℕ
      → ProgPowZContextMode
      → Result (P2pShareSyncReceiveResult × ShareChain)
  receive_response chain trusted_work peer response now mode = elim response.share [
    | none ↦ ok (
      record { status = not_found; requested_id = response.requested_id; share_result = none },
      chain,
    )
    | some share ↦ do
      (r, new) ← receive_share platform chain trusted_work peer share share_sync now mode
      ok (
        record {
          status = share_processed;
          requested_id = response.requested_id;
          share_result = some r;
        },
        new,
      )
  ]

  unfoldable pub receive_p2p_share_response :
      ShareChain
      → P2pTrustedWorkRegistry
      → P2pHandshake
      → P2pEnvelope
      → ℕ
      → ProgPowZContextMode
      → Result (P2pShareSyncReceiveResult × ShareChain)
  unfolding receive_response
  receive_p2p_share_response chain trusted_work peer response_envelope now mode = do
    response ← parse_p2p_share_response_envelope response_envelope
    if lacks peer.capabilities share_sync
        then ok (
          record {
            status = sync_capability_missing;
            requested_id = response.requested_id;
            share_result = none;
          },
          chain,
        )
        else receive_response chain trusted_work peer response now mode
