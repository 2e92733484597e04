-- ===== src/P2p/Tip.antt =====
-- src/p2p_tip.cpp: announcements of the best tip, and what a node asks for on hearing one.
pub mod Asking
use zano_p2pool.Prelude.{
  ℕ, Bool, true, false, not, ◌&&◌, ◌||◌, Option, none, some, ◌++◌, ◌>>=◌, ◌>>◌, Result, ok,
  throw_if, runtime_error, if◌then◌else◌, ◌==◌, length, take,
}
use zano_p2pool.Bytes.{Bytes, zeros}
use zano_p2pool.Share.{append_u64_be, is_zero_share_id}
use zano_p2pool.Chain.{ShareChain, ConnectedShare, best_tip, find_share, find_orphan_share}
use zano_p2pool.P2p.MessageType
use zano_p2pool.P2p.Capability.{share_sync, lacks}
use zano_p2pool.P2p.Protocol.{
  P2pEnvelope, P2pHandshake, envelope_of, require_envelope_type, read_be,
}

abbrev pub p2p_tip_hint_payload_size : ℕ
p2p_tip_hint_payload_size = 40

pub record P2pTipHint : Type 0 where
  pub share_id : Bytes
  pub share_height : ℕ

unfoldable pub require_valid_tip_hint : P2pTipHint → Result (Unit {0})
require_valid_tip_hint hint =
    throw_if (is_zero_share_id hint.share_id && not (hint.share_height == 0)) runtime_error

abbrev pub hint_of : Option ConnectedShare → P2pTipHint
hint_of none = record { share_id = zeros 32; share_height = 0 }
hint_of (some tip) = record { share_id = tip.id; share_height = tip.share.share_height }

unfoldable pub p2p_tip_hint_from_chain : ShareChain → P2pTipHint
p2p_tip_hint_from_chain chain = hint_of (best_tip chain)

unfoldable pub p2p_tip_hint_from_handshake : P2pHandshake → Result P2pTipHint
unfolding require_valid_tip_hint
p2p_tip_hint_from_handshake handshake = do
  let hint : P2pTipHint = record {
    share_id = handshake.best_share_id;
    share_height = handshake.best_share_height;
  }
  require_valid_tip_hint hint
  ok hint

unfoldable pub make_p2p_tip_announce_envelope : P2pTipHint → Result P2pEnvelope
unfolding require_valid_tip_hint
make_p2p_tip_announce_envelope hint = do
  require_valid_tip_hint hint
  ok (envelope_of MessageType.tip_announce (hint.share_id ++ append_u64_be hint.share_height))

-- The overload for the tip of a chain.
unfoldable pub make_p2p_chain_tip_envelope : ShareChain → Result P2pEnvelope
make_p2p_chain_tip_envelope chain = make_p2p_tip_announce_envelope (p2p_tip_hint_from_chain chain)

unfoldable pub parse_p2p_tip_announce_envelope : P2pEnvelope → Result P2pTipHint
unfolding require_valid_tip_hint
parse_p2p_tip_announce_envelope envelope = do
  require_envelope_type envelope MessageType.tip_announce
  throw_if (not (length envelope.payload == p2p_tip_hint_payload_size)) runtime_error
  share_height ← read_be 8 envelope.payload 32
  let hint : P2pTipHint = record {
    share_id = take 32 envelope.payload;
    share_height = share_height;
  }
  require_valid_tip_hint hint
  ok hint

pub data P2pTipSyncStatus : Type 0 where
  no_remote_tip known_connected_tip request_advertised_tip request_missing_parent height_mismatch
        capability_missing :
      P2pTipSyncStatus

pub record P2pTipSyncDecision : Type 0 where
  pub status : P2pTipSyncStatus
  pub requested_id : Option Bytes

abbrev pub decide : P2pTipSyncStatus → Option Bytes → P2pTipSyncDecision
decide status requested = record { status = status; requested_id = requested }

-- Behind the test for a zero id: the tip is connected, an orphan, or not known.
unfoldable pub plan_for_tip : P2pTipHint → ShareChain → P2pTipSyncDecision
plan_for_tip hint chain = elim (find_share chain hint.share_id) [
  | some connected ↦
      if not (connected.share.share_height == hint.share_height)
      then decide height_mismatch none
      else decide known_connected_tip none
  | none ↦ elim (find_orphan_share chain hint.share_id) [
    | some orphan ↦
        if not (orphan.share_height == hint.share_height) || is_zero_share_id orphan.parent_id
        then decide height_mismatch none
        else decide request_missing_parent (some orphan.parent_id)
    | none ↦ decide request_advertised_tip (some hint.share_id)
  ]
]

unfoldable pub plan_p2p_tip_sync : P2pHandshake → P2pTipHint → ShareChain → P2pTipSyncDecision
unfolding plan_for_tip
plan_p2p_tip_sync peer hint chain =
    if lacks peer.capabilities share_sync
    then decide capability_missing none
    else if is_zero_share_id hint.share_id
    then (if not (hint.share_height == 0)
        then decide height_mismatch none
        else decide no_remote_tip none)
    else plan_for_tip hint chain
