-- ===== src/Tests/P2pTests.antt =====
-- Messages between peers, and the registry of trusted work, on concrete inputs.
use zano_p2pool.Prelude.{
  ◌⊎◌, ◌≡◌, refl, subst, some-injective, All, All-append, none, some, ok, true, false, [], ◌∷◌,
  ◌++◌, arith,
}
use zano_p2pool.Bytes.{Bytes, IsByte, zeros, is_zero, same, before, fill}
use zano_p2pool.Bytes.Order.{same_refl}
use zano_p2pool.Hash.{cn_fast_hash}
use zano_p2pool.Hash.Absorb.{cn_fast_hash-IsArray}
use zano_p2pool.OrderedMap.{find, insert, contains}
use zano_p2pool.Platform.{light}
use zano_p2pool.Share.{Share, IsShare, serialize_share, deserialize_share, share_id}
use zano_p2pool.Share.Reading.{serialize-deserialize}
use zano_p2pool.Chain.{ShareChain, empty_chain, rejected}
use zano_p2pool.Chain.Connect.{without_change}
use zano_p2pool.Chain.Submit
use zano_p2pool.P2p.MessageType
use zano_p2pool.P2p.Capability.{lacks, share_gossip, share_sync}
use zano_p2pool.P2p.Protocol.{
  P2pEnvelope, P2pHandshake, envelope_of, envelope_bytes, serialize_p2p_envelope,
  deserialize_p2p_envelope, handshake_bytes, serialize_p2p_handshake_payload,
  deserialize_p2p_handshake_payload, require_valid_handshake, resolved_p2p_sidechain_id,
}
use zano_p2pool.P2p.Framing.{deserialize-serialize_envelope}
use zano_p2pool.P2p.Greeting.{IsHandshake, deserialize-serialize_handshake}
use zano_p2pool.P2p.Tip.{
  P2pTipHint, make_p2p_tip_announce_envelope, parse_p2p_tip_announce_envelope, plan_p2p_tip_sync,
}
use zano_p2pool.P2p.Tip.Asking.{IsWanted, plan_p2p_tip_sync-IsWanted}
use zano_p2pool.P2p.WorkKey.{work_key}
use zano_p2pool.P2p.Registry.{
  erase_zano_height, erase_zano_heights_above, erase_zano_parent_mismatch, TrustedEntry,
  P2pTrustedWorkRegistry, remember, remember_with_parent, erase_where, at_other_parent,
}
use zano_p2pool.P2p.Registry.Trust.{
  AreTrusted, Remembers, Stands, StandsWith, remember-Remembers, remember_with_parent-Remembers,
}
use zano_p2pool.P2p.Registry.Erasure.{Erases, AtOtherHeight, UpToHeight, NoMismatch, erasures-Erase}
use zano_p2pool.P2p.Receiver.{P2pShareReceiveResult, not_judged, lacks_capability, receive}
use zano_p2pool.P2p.Receiver.Admission.{Received, receive-Received}
use zano_p2pool.P2p.Sync.{
  P2pShareSyncReceiveResult, make_p2p_share_response_envelope, parse_p2p_share_response_envelope,
  receive_p2p_share_response, not_found,
}
use zano_p2pool.P2p.Sync.Answers.{response_for, parse-make_response}
use zano_p2pool.P2p.Sync.Answering.{Takes, receive_p2p_share_response-Takes}
use zano_p2pool.Tests.Printing.{platform}
use zano_p2pool.Tests.Samples.{
  array, header, value_or, is_ok, ok_value_or, all_bytes-All, root_share, root_share-IsShare,
  context, empty_chain-IsValid, empty_chain-Apart,
}
use zano_p2pool.Tests.ShareTests.{written, was_written}
use zano_p2pool.Tests.HashTests.{hash_of_share-nonzero}

serialize-deserialize_example : IsShare root_share × (serialize_share root_share ≡ ok written)
unfolding zano_p2pool.Share.serialize_share zano_p2pool.Share.check_payout
    zano_p2pool.Share.common_fields zano_p2pool.Share.append_u64_be fill deserialize_share
    zano_p2pool.Share.deserialize_body zano_p2pool.Share.read_array zano_p2pool.Share.read_fields
    zano_p2pool.Share.read_u64_be same zano_p2pool.Bytes.value_from
serialize-deserialize_example =
    serialize-deserialize written root_share (all_bytes-All written refl) refl

abbrev announcement : P2pEnvelope
announcement = envelope_of MessageType.share_announce written

deserialize-serialize_envelope_example :
    deserialize_p2p_envelope (value_or [] (serialize_p2p_envelope announcement)) ≡ ok announcement
unfolding serialize_p2p_envelope zano_p2pool.P2p.MessageType.p2p_message_type_supported
    zano_p2pool.Share.serialize_share zano_p2pool.Share.check_payout zano_p2pool.Share.common_fields
    zano_p2pool.Share.append_u64_be fill
deserialize-serialize_envelope_example =
    deserialize-serialize_envelope announcement (value_or [] (serialize_p2p_envelope announcement))
      (ok_value_or [] (serialize_p2p_envelope announcement) refl)

abbrev peer : P2pHandshake
peer = record {
  network = 1;
  node_id = header;
  capabilities = 15;
  listen_port = 4000;
  best_share_id = header;
  best_share_height = 3;
  sidechain = header;
}

peer-IsHandshake : IsHandshake peer
peer-IsHandshake = record {
  node_array = array 32 header refl refl;
  capabilities_range = omega arith;
  port_range = omega arith;
  best_array = array 32 header refl refl;
  height_range = omega arith;
  sidechain_array = array 32 header refl refl;
}

deserialize-serialize_handshake_example :
    deserialize_p2p_handshake_payload (value_or [] (serialize_p2p_handshake_payload peer)) ≡ ok peer
unfolding serialize_p2p_handshake_payload resolved_p2p_sidechain_id is_zero require_valid_handshake
    handshake_bytes zano_p2pool.Share.append_u64_be fill
deserialize-serialize_handshake_example =
    deserialize-serialize_handshake peer header (value_or [] (serialize_p2p_handshake_payload peer))
      peer-IsHandshake refl refl (ok_value_or [] (serialize_p2p_handshake_payload peer) refl)

abbrev hint : P2pTipHint
hint = record { share_id = header; share_height = 3 }

plan_p2p_tip_sync-IsWanted_example :
    (lacks peer.capabilities share_sync ≡ false)
    × (is_zero header ≡ false)
    × IsWanted empty_chain hint header
unfolding plan_p2p_tip_sync zano_p2pool.P2p.Tip.plan_for_tip is_zero empty_chain find
    zano_p2pool.Chain.find_share zano_p2pool.Chain.find_orphan_share
plan_p2p_tip_sync-IsWanted_example = plan_p2p_tip_sync-IsWanted peer hint empty_chain header refl

empty_registry-AreTrusted : AreTrusted []
unfolding find
empty_registry-AreTrusted key entry h = absurd (ground (arith, h))

abbrev remembered : P2pTrustedWorkRegistry
remembered = value_or [] (remember [] context (zeros 32))

was_remembered : remember [] context (zeros 32) ≡ ok remembered
unfolding remember zano_p2pool.P2p.Registry.require_difficulty is_zero find insert
was_remembered = refl

remember-Remembers_example : Remembers [] remembered × Stands remembered context (zeros 32)
remember-Remembers_example =
    remember-Remembers [] context (zeros 32) remembered empty_registry-AreTrusted was_remembered

abbrev confirmed : P2pTrustedWorkRegistry
confirmed = value_or [] (remember_with_parent remembered context (zeros 32) header)

was_confirmed : remember_with_parent remembered context (zeros 32) header ≡ ok confirmed
unfolding remember_with_parent zano_p2pool.P2p.Registry.require_difficulty
    zano_p2pool.P2p.Registry.confirm_parent remember is_zero find insert same
was_confirmed = refl

remember_with_parent-Remembers_example :
    Remembers remembered confirmed × StandsWith confirmed context (zeros 32) header
remember_with_parent-Remembers_example =
    remember_with_parent-Remembers remembered context (zeros 32) header confirmed
      remember-Remembers_example.0.trusted was_confirmed

erasures-Erase_example :
    Erases
      (AtOtherHeight 60000)
      confirmed
      (erase_zano_height confirmed 60000).0
      (erase_zano_height confirmed 60000).1
    × Erases
        (UpToHeight 60000)
        confirmed
        (erase_zano_heights_above confirmed 60000).0
        (erase_zano_heights_above confirmed 60000).1
    × Erases
        (NoMismatch 60000 (zeros 32))
        confirmed
        (erase_zano_parent_mismatch confirmed 60000 (zeros 32)).0
        (erase_zano_parent_mismatch confirmed 60000 (zeros 32)).1
unfolding remember_with_parent zano_p2pool.P2p.Registry.require_difficulty
    zano_p2pool.P2p.Registry.confirm_parent remember is_zero find insert same
erasures-Erase_example = erasures-Erase confirmed 60000 (zeros 32) (tt, tt)

abbrev received_share : P2pShareReceiveResult × ShareChain
received_share =
    value_or (not_judged lacks_capability rejected [], empty_chain)
      (receive platform empty_chain remembered peer announcement 1000 light)

was_received : is_ok (receive platform empty_chain remembered peer announcement 1000 light) ≡ true
unfolding zano_p2pool.Chain.Submit.submit_share zano_p2pool.Share.share_id
    zano_p2pool.Share.serialize_share zano_p2pool.Share.common_fields
    zano_p2pool.Share.append_u64_be zano_p2pool.Bytes.fill zano_p2pool.OrderedMap.contains
    empty_chain zano_p2pool.Chain.Submit.own_reject_reason
    zano_p2pool.Chain.Rules.structural_reject_reason zano_p2pool.Bytes.is_zero
    zano_p2pool.Bytes.before zano_p2pool.Chain.Rules.trusted_context_reject_reason
    zano_p2pool.Bytes.same zano_p2pool.Chain.Rules.absolute_timestamp_reject_reason
    zano_p2pool.Chain.Submit.connected_parent_reject_reason
    zano_p2pool.Chain.Rules.expected_difficulty_reject_reason
    zano_p2pool.Validation.validate_candidate zano_p2pool.Bytes.value_from
    zano_p2pool.Chain.Connect.add_prevalidated_share zano_p2pool.Chain.Connect.connect_and_promote
    zano_p2pool.Chain.Connect.connect_checked zano_p2pool.Chain.Connect.connect_share
    zano_p2pool.Chain.Connect.insert_connected zano_p2pool.Chain.Connect.link_reject_reason
    zano_p2pool.Chain.Connect.parent_of zano_p2pool.Chain.Connect.promote_children
    zano_p2pool.Chain.Connect.updated_tip zano_p2pool.Chain.Submit.checked_validation
    zano_p2pool.Chain.Submit.proof_check zano_p2pool.Chain.Submit.submit_checked
    zano_p2pool.Decimal.parse_from zano_p2pool.Decimal.parse_uint128_decimal
    zano_p2pool.OrderedMap.erase zano_p2pool.OrderedMap.find zano_p2pool.OrderedMap.insert
    zano_p2pool.Share.check_payout zano_p2pool.Share.difficulty128_to_decimal
    zano_p2pool.Target.bytes_to_uint256 zano_p2pool.Target.difficulty_to_target
    zano_p2pool.Target.hash_meets_difficulty zano_p2pool.Target.hash_meets_target
    zano_p2pool.Target.parse_difficulty zano_p2pool.Target.uint256_to_big_endian_bytes
    zano_p2pool.Validation.progpowz_epoch zano_p2pool.Validation.progpowz_hash
    zano_p2pool.Work.share_work receive remember zano_p2pool.P2p.Registry.require_difficulty
    zano_p2pool.P2p.Receiver.parse_p2p_share_announce_envelope
    zano_p2pool.P2p.Protocol.require_envelope_type deserialize_share
    zano_p2pool.Share.deserialize_body zano_p2pool.Share.read_array zano_p2pool.Share.read_fields
    zano_p2pool.Share.read_u64_be zano_p2pool.P2p.Receiver.receive_share
    zano_p2pool.P2p.Receiver.receive_unknown zano_p2pool.P2p.Registry.find_context
    zano_p2pool.Chain.find_share zano_p2pool.Chain.is_orphan zano_p2pool.P2p.Receiver.judged
was_received = refl

receive-Received_example :
    (share : Share) × (deserialize_share written ≡ ok share)
    × Received platform light empty_chain remembered peer share_gossip share 1000 received_share.0
        received_share.1
unfolding zano_p2pool.Share.serialize_share zano_p2pool.Share.check_payout
    zano_p2pool.Share.common_fields zano_p2pool.Share.append_u64_be fill deserialize_share
    zano_p2pool.Share.deserialize_body zano_p2pool.Share.read_array zano_p2pool.Share.read_fields
    zano_p2pool.Share.read_u64_be same zano_p2pool.Bytes.value_from
receive-Received_example =
    receive-Received platform empty_chain remembered peer announcement 1000 light received_share.0
      received_share.1 empty_chain-IsValid empty_chain-Apart (all_bytes-All written refl)
      (ok_value_or _ _ was_received)

-- The root share, as the answer to a request for it.
abbrev root_id : Bytes
root_id = cn_fast_hash written

abbrev answer : P2pEnvelope
answer = envelope_of MessageType.share_response (1 ∷ (root_id ++ written))

was_answered : make_p2p_share_response_envelope root_id (some root_share) ≡ ok answer
unfolding make_p2p_share_response_envelope zano_p2pool.P2p.Sync.make_found_envelope share_id
was_answered =
    rw
      (
        make_p2p_share_response_envelope,
        zano_p2pool.P2p.Sync.make_found_envelope,
        share_id,
        ok_value_or [] (serialize_share root_share) was_written,
        hash_of_share-nonzero,
        same_refl root_id,
      )
      refl

parse-make_response_example :
    parse_p2p_share_response_envelope answer ≡ ok (response_for root_id (some root_share))
parse-make_response_example =
    parse-make_response root_id (some root_share) answer (cn_fast_hash-IsArray written).0
      (λ s h. subst IsShare (some-injective h) root_share-IsShare) was_answered

abbrev synced : P2pShareSyncReceiveResult × ShareChain
synced =
    value_or (record { status = not_found; requested_id = []; share_result = none }, empty_chain)
      (receive_p2p_share_response platform empty_chain remembered peer answer 1000 light)

was_synced :
    is_ok (receive_p2p_share_response platform empty_chain remembered peer answer 1000 light) ≡ true
unfolding zano_p2pool.Chain.Submit.submit_share zano_p2pool.Share.share_id
    zano_p2pool.Share.serialize_share zano_p2pool.Share.common_fields
    zano_p2pool.Share.append_u64_be zano_p2pool.Bytes.fill zano_p2pool.OrderedMap.contains
    empty_chain zano_p2pool.Chain.Submit.own_reject_reason
    zano_p2pool.Chain.Rules.structural_reject_reason zano_p2pool.Bytes.is_zero
    zano_p2pool.Bytes.before zano_p2pool.Chain.Rules.trusted_context_reject_reason
    zano_p2pool.Bytes.same zano_p2pool.Chain.Rules.absolute_timestamp_reject_reason
    zano_p2pool.Chain.Submit.connected_parent_reject_reason
    zano_p2pool.Chain.Rules.expected_difficulty_reject_reason
    zano_p2pool.Validation.validate_candidate zano_p2pool.Bytes.value_from
    zano_p2pool.Chain.Connect.add_prevalidated_share zano_p2pool.Chain.Connect.connect_and_promote
    zano_p2pool.Chain.Connect.connect_checked zano_p2pool.Chain.Connect.connect_share
    zano_p2pool.Chain.Connect.insert_connected zano_p2pool.Chain.Connect.link_reject_reason
    zano_p2pool.Chain.Connect.parent_of zano_p2pool.Chain.Connect.promote_children
    zano_p2pool.Chain.Connect.updated_tip zano_p2pool.Chain.Submit.checked_validation
    zano_p2pool.Chain.Submit.proof_check zano_p2pool.Chain.Submit.submit_checked
    zano_p2pool.Decimal.parse_from zano_p2pool.Decimal.parse_uint128_decimal
    zano_p2pool.OrderedMap.erase zano_p2pool.OrderedMap.find zano_p2pool.OrderedMap.insert
    zano_p2pool.Share.check_payout zano_p2pool.Share.difficulty128_to_decimal
    zano_p2pool.Target.bytes_to_uint256 zano_p2pool.Target.difficulty_to_target
    zano_p2pool.Target.hash_meets_difficulty zano_p2pool.Target.hash_meets_target
    zano_p2pool.Target.parse_difficulty zano_p2pool.Target.uint256_to_big_endian_bytes
    zano_p2pool.Validation.progpowz_epoch zano_p2pool.Validation.progpowz_hash
    zano_p2pool.Work.share_work receive_p2p_share_response zano_p2pool.P2p.Sync.receive_response
    remember zano_p2pool.P2p.Registry.require_difficulty
    zano_p2pool.P2p.Receiver.parse_p2p_share_announce_envelope
    zano_p2pool.P2p.Protocol.require_envelope_type deserialize_share
    zano_p2pool.Share.deserialize_body zano_p2pool.Share.read_array zano_p2pool.Share.read_fields
    zano_p2pool.Share.read_u64_be zano_p2pool.P2p.Receiver.receive_share
    zano_p2pool.P2p.Receiver.receive_unknown zano_p2pool.P2p.Registry.find_context
    zano_p2pool.Chain.find_share zano_p2pool.Chain.is_orphan zano_p2pool.P2p.Receiver.judged
was_synced = rw (receive_p2p_share_response, parse-make_response_example) refl

answer-bytes : All IsByte answer.payload
unfolding serialize_share zano_p2pool.Share.common_fields zano_p2pool.Share.append_u64_be fill
answer-bytes = (
  omega arith,
  All-append IsByte root_id written (cn_fast_hash-IsArray written).1 (all_bytes-All written refl),
)

receive_p2p_share_response-Takes_example :
    (synced.1 ≡ empty_chain)
    ⊎ Takes platform light empty_chain remembered peer answer 1000 synced.0 synced.1
receive_p2p_share_response-Takes_example =
    receive_p2p_share_response-Takes platform empty_chain remembered peer answer 1000 light synced.0
      synced.1 empty_chain-IsValid empty_chain-Apart answer-bytes (ok_value_or _ _ was_synced)
