-- ===== src/P2p/Receiver.antt =====
-- `P2pShareReceiver` of include/zano_p2pool/p2p_share.hpp and src/p2p_share.cpp: shares from peers,
-- by gossip or as answers to requests, go the same way into the chain.
pub mod Admission
use zano_p2pool.Prelude.{
  ℕ, Bool, true, false, not, ◌&&◌, ◌||◌, Option, none, some, ◌>>=◌, ◌>>◌, Result, ok, throw_if,
  runtime_error, if◌then◌else◌, ◌==◌, length,
}
use zano_p2pool.Bytes.{Bytes}
use zano_p2pool.Platform.{Platform, ProgPowZContextMode}
use zano_p2pool.Share.{
  Share, serialize_share, deserialize_share, share_id, share_v1_serialized_size,
  share_v2_serialized_size, has_value,
}
use zano_p2pool.Chain.{
  ShareChain, ConnectedShare, AddShareResult, ShareDisposition, connected_share, orphan_share,
  duplicate, rejected, accepted, find_share, is_orphan,
}
use zano_p2pool.Chain.Connect.{without_change}
use zano_p2pool.Chain.Submit.{submit_share}
use zano_p2pool.P2p.MessageType
use zano_p2pool.P2p.Capability.{has_all, share_gossip}
use zano_p2pool.P2p.Protocol.{P2pEnvelope, P2pHandshake, envelope_of, require_envelope_type}
use zano_p2pool.P2p.Registry.{P2pTrustedWorkRegistry, find_context}

unfoldable pub make_p2p_share_announce_envelope : Share → Result P2pEnvelope
make_p2p_share_announce_envelope share = do
  payload ← serialize_share share
  ok (envelope_of MessageType.share_announce payload)

abbrev pub is_share_size : ℕ → Bool
is_share_size size = (size == share_v1_serialized_size) || (size == share_v2_serialized_size)

unfoldable pub parse_p2p_share_announce_envelope : P2pEnvelope → Result Share
parse_p2p_share_announce_envelope envelope = do
  require_envelope_type envelope MessageType.share_announce
  throw_if (not (is_share_size (length envelope.payload))) runtime_error
  deserialize_share envelope.payload

pub data P2pShareReceiveStatus : Type 0 where
  received_connected received_orphan received_duplicate received_rejected unknown_work_context
        lacks_capability :
      P2pShareReceiveStatus

pub record P2pShareReceiveResult : Type 0 where
  pub status : P2pShareReceiveStatus
  pub chain_result : AddShareResult
  pub missing_parent_id : Option Bytes

-- A result that names no parent.
abbrev pub received : P2pShareReceiveStatus → AddShareResult → P2pShareReceiveResult
received status r = record { status = status; chain_result = r; missing_parent_id = none }

-- A result about a share that the chain has not judged.
abbrev pub not_judged : P2pShareReceiveStatus → ShareDisposition → Bytes → P2pShareReceiveResult
not_judged status disposition id = received status (without_change disposition accepted id)

-- The switch on the disposition.
abbrev pub status_of : ShareDisposition → P2pShareReceiveStatus
status_of connected_share = received_connected
status_of orphan_share = received_orphan
status_of duplicate = received_duplicate
status_of rejected = received_rejected

abbrev pub missing_parent : ShareDisposition → Share → Option Bytes
missing_parent orphan_share share = some share.parent_id
missing_parent _ share = none

unfoldable pub judged : Share → AddShareResult → P2pShareReceiveResult
judged share r = record {
  status = status_of r.disposition;
  chain_result = r;
  missing_parent_id = missing_parent r.disposition share;
}

-- A share that is connected: on a chain with a policy, only validated ancestry is a duplicate.
unfoldable pub known_share : ShareChain → ConnectedShare → Bytes → P2pShareReceiveResult
known_share chain connected id =
    if has_value chain.difficulty_policy && not connected.validated_ancestry
    then not_judged unknown_work_context rejected id
    else not_judged received_duplicate duplicate id

module _ (platform : Platform) where
  -- Behind the test for known shares.
  unfoldable pub receive_unknown :
      ShareChain
      → P2pTrustedWorkRegistry
      → Share
      → Bytes
      → ℕ
      → ProgPowZContextMode
      → Result (P2pShareReceiveResult × ShareChain)
  receive_unknown chain trusted_work share id now mode =
      elim (find_context trusted_work share.zano_height share.mining_header_hash share.parent_id) [
        | none ↦ ok (not_judged unknown_work_context rejected id, chain)
        | some trusted ↦ do
          (r, new) ← submit_share platform chain share trusted now mode
          ok (judged share r, new)
      ]

  unfoldable pub receive_share :
      ShareChain
      → P2pTrustedWorkRegistry
      → P2pHandshake
      → Share
      → ℕ
      → ℕ
      → ProgPowZContextMode
      → Result (P2pShareReceiveResult × ShareChain)
  unfolding receive_unknown
  receive_share chain trusted_work peer share required_capability now mode = do
    id ← share_id share
    if (required_capability == 0) || not (has_all peer.capabilities required_capability)
        then ok (not_judged lacks_capability rejected id, chain)
        else (elim (find_share chain id) [
          | some connected ↦ ok (known_share chain connected id, chain)
          | none ↦
              if is_orphan chain id
              then ok (not_judged received_duplicate duplicate id, chain)
              else receive_unknown chain trusted_work share id now mode
        ])

  unfoldable pub receive :
      ShareChain
      → P2pTrustedWorkRegistry
      → P2pHandshake
      → P2pEnvelope
      → ℕ
      → ProgPowZContextMode
      → Result (P2pShareReceiveResult × ShareChain)
  unfolding receive_share
  receive chain trusted_work peer envelope now mode = do
    share ← parse_p2p_share_announce_envelope envelope
    receive_share chain trusted_work peer share share_gossip now mode
