-- ===== src/P2p/Sync/Answering.antt =====
-- What an answer from a peer can do to the chain (src/p2p_sync.cpp). No answer is matched to a request:
-- its id is the one that the answer itself names.
use zano_p2pool.Prelude.{
  sym, ==_iff, false, ℕ, ◌≡◌, refl, ◌∙◌, ap, subst, ◌⊎◌, inl, inr, not, Bool-cases, Option-cases,
  some, ok, arith, All, All-drop, ◌==◌, ltb, bind-ok, guard-ok, ok-injective, some-injective,
  length, drop, take, get_or,
}
use zano_p2pool.Bytes.{Bytes, IsByte, same}
use zano_p2pool.Bytes.Order.{same_iff}
use zano_p2pool.Platform.{Platform, ProgPowZContextMode}
use zano_p2pool.Share.{Share, IsShare, share_id, deserialize_share, is_zero_share_id}
use zano_p2pool.Share.Reading.{serialize-deserialize}
use zano_p2pool.Chain.{ShareChain}
use zano_p2pool.Chain.Invariant.{IsValid, Apart}
use zano_p2pool.P2p.Capability.{lacks, share_sync}
use zano_p2pool.P2p.Protocol.{P2pHandshake, P2pEnvelope, require_envelope_type}
use zano_p2pool.P2p.Registry.{P2pTrustedWorkRegistry}
use zano_p2pool.P2p.Receiver.{P2pShareReceiveResult, is_share_size, receive_share}
use zano_p2pool.P2p.Receiver.Admission.{IsAuthorised, receive_share-Received}
use zano_p2pool.P2p.MessageType
use zano_p2pool.P2p.Sync.{
  code_found, share_processed, P2pShareResponse, P2pShareSyncReceiveResult, parse_found,
  parse_response_payload, parse_p2p_share_response_envelope, receive_response,
  receive_p2p_share_response,
}

require_envelope_type-ok :
    (envelope : P2pEnvelope) (wanted : ℕ) (u : Unit {0})
    → require_envelope_type envelope wanted ≡ ok u
    → envelope.message_type ≡ wanted
unfolding require_envelope_type
require_envelope_type-ok envelope wanted u h = ground (arith, h)

-- The payload says that the share was found, names the id behind that, and holds the share behind
-- the id.
pub record Carries (payload id : Bytes) (share : Share) : Type 0 where
  pub says_found : get_or payload 0 0 ≡ code_found
  pub names : take 32 (drop 1 payload) ≡ id
  pub holds_share : deserialize_share (drop 33 payload) ≡ ok share
  pub ranges : IsShare share
  pub own_id : share_id share ≡ ok id

-- The share of a response is the one that the payload carries.
abbrev pub Answers : Bytes → P2pShareResponse → Type 0
Answers payload response =
    (s : Share) → response.share ≡ some s → Carries payload response.requested_id s

parse_found-Carries :
    (payload : Bytes) (response : P2pShareResponse)
    → All IsByte payload
    → get_or payload 0 0 ≡ code_found
    → parse_found (take 32 (drop 1 payload)) (drop 33 payload) ≡ ok response
    → Answers payload response
unfolding parse_found
parse_found-Carries payload response bytes found h =
    let id = take 32 (drop 1 payload) in
    let b = drop 33 payload in
    let (size, h1) = guard-ok (not (is_share_size (length b))) _ _ h in
    let (share, read, h2) = bind-ok (deserialize_share b) _ h1 in
    let (own, o, h3) = bind-ok (share_id share) _ h2 in
    let (agrees, h4) = guard-ok (not (same own id)) _ _ h3 in
    let same_id : own ≡ id = (same_iff own id).0 (ground (arith, agrees)) in
    subst (Answers payload) (ok-injective h4) (λ s e.
      subst (Carries payload id) (some-injective e) (record {
        says_found = found;
        names = refl;
        holds_share = read;
        ranges = (serialize-deserialize b share (All-drop IsByte 33 payload bytes) read).0;
        own_id = o ∙ ap (λ k. ok k) same_id;
      }))

parse_response_payload-Answers :
    (payload : Bytes) (response : P2pShareResponse)
    → All IsByte payload
    → parse_response_payload payload ≡ ok response
    → Answers payload response
unfolding parse_response_payload
parse_response_payload-Answers payload response bytes h =
    let id = take 32 (drop 1 payload) in
    let (long, h1) = guard-ok (ltb (length payload) 33) _ _ h in
    let (nonzero, h2) = guard-ok (is_zero_share_id id) _ _ h1 in
    elim (Bool-cases (get_or payload 0 0 == 2)) [
      | inl nothing ↦
          let (size, h3) = guard-ok (not (length payload == 33)) _ _ (rw nothing at h2) in
          subst (Answers payload) (ok-injective h3) (λ s e. absurd cc)
      | inr something ↦ elim (Bool-cases (get_or payload 0 0 == 1)) [
        | inr other ↦ absurd (ground (arith, nonzero, long, something, other))
        | inl found ↦
            parse_found-Carries payload response bytes ((==_iff (get_or payload 0 0) 1).0 found)
              (rw (something, found) at h2)
      ]
    ]

-- A peer that may sync has sent the share in a response that names it, and the share is authorised.
pub record Takes (platform : Platform) (mode : ProgPowZContextMode) (chain : ShareChain)
    (trusted_work : P2pTrustedWorkRegistry) (peer : P2pHandshake) (envelope : P2pEnvelope) (now : ℕ)
    (result : P2pShareSyncReceiveResult) (new : ShareChain) : Type 0 where
  pub able : lacks peer.capabilities share_sync ≡ false
  pub own_type : envelope.message_type ≡ MessageType.share_response
  pub share : Share
  pub carried : Carries envelope.payload result.requested_id share
  pub processed : result.status ≡ share_processed
  pub judgement : P2pShareReceiveResult
  pub reported : result.share_result ≡ some judgement
  pub authorised : IsAuthorised platform mode chain trusted_work share now judgement new

receive_response-Takes :
    (platform : Platform) (chain : ShareChain) (trusted_work : P2pTrustedWorkRegistry)
    (peer : P2pHandshake) (envelope : P2pEnvelope) (response : P2pShareResponse) (now : ℕ)
    (mode : ProgPowZContextMode) (result : P2pShareSyncReceiveResult) (new : ShareChain)
    → IsValid chain
    → Apart chain
    → lacks peer.capabilities share_sync ≡ false
    → envelope.message_type ≡ MessageType.share_response
    → Answers envelope.payload response
    → receive_response platform chain trusted_work peer response now mode ≡ ok (result, new)
    → (new ≡ chain) ⊎ Takes platform mode chain trusted_work peer envelope now result new
unfolding receive_response
receive_response-Takes platform chain trusted_work peer envelope response now mode result new v
      apart able own_type answers h =
    elim (Option-cases response.share) [
      | inl nothing ↦ inl (ground (arith, nothing))
      | inr (share, found) ↦
          let carried = answers share found in
          let ((r, next), judged, k) =
            bind-ok (receive_share platform chain trusted_work peer share share_sync now mode) _
              (rw (receive_response, found) at h) in
          elim (receive_share-Received platform chain trusted_work peer share share_sync now mode r
            next v apart carried.ranges judged) [
              | inl e ↦ inl (sym (ap (λ p. p.1) (ok-injective k)) ∙ e)
              | inr (_, authorised) ↦ inr (
                  subst (λ p. Takes platform mode chain trusted_work peer envelope now p.0 p.1)
                    (ok-injective k)
                    (record {
                      able = able;
                      own_type = own_type;
                      share = share;
                      carried = carried;
                      processed = refl;
                      judgement = r;
                      reported = refl;
                      authorised = authorised;
                    }))
            ]
    ]

-- When `receive_p2p_share_response` returns on a valid chain with unconnected orphans and a
-- payload of bytes, the chain is as before, or the peer has the sync capability, the envelope is
-- a response whose payload says found, names an id and holds behind it a share with that id, the
-- result reports that id and how the share was judged, the registry holds the work of the share
-- for its parent, and the share is proven against that work and was added.
pub receive_p2p_share_response-Takes :
    (platform : Platform) (chain : ShareChain) (trusted_work : P2pTrustedWorkRegistry)
    (peer : P2pHandshake) (envelope : P2pEnvelope) (now : ℕ) (mode : ProgPowZContextMode)
    (result : P2pShareSyncReceiveResult) (new : ShareChain)
    → IsValid chain
    → Apart chain
    → All IsByte envelope.payload
    → receive_p2p_share_response platform chain trusted_work peer envelope now mode
      ≡ ok (result, new)
    → (new ≡ chain) ⊎ Takes platform mode chain trusted_work peer envelope now result new
unfolding receive_p2p_share_response parse_p2p_share_response_envelope
receive_p2p_share_response-Takes platform chain trusted_work peer envelope now mode result new v
      apart bytes h =
    let (response, parsed, k) = bind-ok (parse_p2p_share_response_envelope envelope) _ h in
    let (u, typed, read) = bind-ok (require_envelope_type envelope _) _ parsed in
    let answers = parse_response_payload-Answers envelope.payload response bytes read in
    elim (Bool-cases (lacks peer.capabilities share_sync)) [
      | inl lacking ↦ inl (ground (arith, lacking))
      | inr able ↦
          receive_response-Takes platform chain trusted_work peer envelope response now mode result
            new v apart able (require_envelope_type-ok envelope MessageType.share_response u typed)
            answers (rw able at k)
    ]
