-- ===== src/P2p/Receiver/Admission.antt =====
-- What a share from a peer can do to the chain.
use zano_p2pool.Prelude.{
  ℕ, ◌≡◌, refl, sym, ◌∙◌, ap, subst, ◌⊎◌, inl, inr, true, not, ◌||◌, Bool-cases, Option-cases, none,
  some, ok, arith, All, ◌==◌, bind-ok, guard-ok, ok-injective, length,
}
use zano_p2pool.Bytes.{Bytes, IsByte}
use zano_p2pool.OrderedMap.{bytes_key, find}
use zano_p2pool.Platform.{Platform, ProgPowZContextMode}
use zano_p2pool.Share.{Share, IsShare, share_id, deserialize_share}
use zano_p2pool.Share.Reading.{serialize-deserialize}
use zano_p2pool.Chain.{
  ShareChain, AddShareResult, ShareDisposition, ShareWorkContext, find_share, is_orphan,
  connected_share, orphan_share, duplicate, rejected,
}
use zano_p2pool.Chain.Invariant.{IsValid, Apart}
use zano_p2pool.Chain.Submit.{submit_share}
use zano_p2pool.Chain.Submission.{IsProven, submit_share-Submitted}
use zano_p2pool.Chain.Dispositions.{
  Adds, AddOutcome, was_duplicate, was_rejected, was_orphan, was_connected,
}
use zano_p2pool.P2p.Capability.{has_all, share_gossip}
use zano_p2pool.P2p.Protocol.{P2pHandshake, P2pEnvelope, require_envelope_type}
use zano_p2pool.P2p.Registry.{P2pTrustedWorkRegistry, find_context}
use zano_p2pool.P2p.Receiver.{
  P2pShareReceiveResult, receive_share, receive_unknown, receive, judged, missing_parent,
  is_share_size, parse_p2p_share_announce_envelope,
}

-- The node knows the work of the share from its own source, the share is proven against it, and
-- was added; a parent that is to be asked for is its own, and is not
-- connected.
pub record IsAuthorised (platform : Platform) (mode : ProgPowZContextMode) (chain : ShareChain)
    (trusted_work : P2pTrustedWorkRegistry) (share : Share) (now : ℕ) (r : P2pShareReceiveResult)
    (new : ShareChain) : Type 0 where
  pub context : ShareWorkContext
  pub known_work :
      find_context trusted_work share.zano_height share.mining_header_hash share.parent_id
      ≡ some context
  pub proven : IsProven platform mode share context now
  pub added : Adds chain share r.chain_result new
  pub asks :
      (parent_id : Bytes)
      → r.missing_parent_id ≡ some parent_id
      → (parent_id ≡ share.parent_id) × (find parent_id new.connected ≡ none)

-- The chain is as before, or the peer has the capability and the share is authorised.
abbrev pub Received :
    Platform
    → ProgPowZContextMode
    → ShareChain
    → P2pTrustedWorkRegistry
    → P2pHandshake
    → ℕ
    → Share
    → ℕ
    → P2pShareReceiveResult
    → ShareChain
    → Type 0
Received platform mode chain trusted_work peer required share now r new =
    (new ≡ chain)
    ⊎ ((has_all peer.capabilities required ≡ true)
        × IsAuthorised platform mode chain trusted_work share now r new)

missing_parent-some :
    (d : ShareDisposition) (share : Share) (parent_id : Bytes)
    → missing_parent d share ≡ some parent_id
    → (parent_id ≡ share.parent_id) × (d ≡ orphan_share)
missing_parent-some connected_share share parent_id h = cc
missing_parent-some orphan_share share parent_id h = (cc, refl)
missing_parent-some duplicate share parent_id h = cc
missing_parent-some rejected share parent_id h = cc

-- An outcome that asks for a parent is that of an orphan.
AddOutcome-missing :
    (chain : ShareChain) (share : Share) (r : AddShareResult) (new : ShareChain)
    → AddOutcome chain share r new
    → r.disposition ≡ orphan_share
    → (find share.parent_id new.connected ≡ none)
AddOutcome-missing chain share r new (was_duplicate d _ _) h = absurd cc
AddOutcome-missing chain share r new (was_rejected d _ _) h = absurd cc
AddOutcome-missing chain share r new (was_connected c d _ _) h = absurd cc
AddOutcome-missing chain share r new (was_orphan o d gone there own same_chain) h =
    ap (find share.parent_id) same_chain ∙ gone

judged-missing :
    (chain : ShareChain) (share : Share) (r : AddShareResult) (new : ShareChain) (parent_id : Bytes)
    → Adds chain share r new
    → (judged share r).missing_parent_id ≡ some parent_id
    → (parent_id ≡ share.parent_id) × (find parent_id new.connected ≡ none)
unfolding judged
judged-missing chain share r new parent_id added h =
    let (own, orphan) = missing_parent-some r.disposition share parent_id h in
    (
      own,
      subst (λ k. find k new.connected ≡ none) (sym own)
          (AddOutcome-missing chain share r new added.outcome orphan),
    )

receive_unknown-Received :
    (platform : Platform) (chain : ShareChain) (trusted_work : P2pTrustedWorkRegistry)
    (share : Share) (id : Bytes) (now : ℕ) (mode : ProgPowZContextMode) (r : P2pShareReceiveResult)
    (new : ShareChain)
    → IsValid chain
    → Apart chain
    → IsShare share
    → receive_unknown platform chain trusted_work share id now mode ≡ ok (r, new)
    → (new ≡ chain) ⊎ IsAuthorised platform mode chain trusted_work share now r new
unfolding receive_unknown judged
receive_unknown-Received platform chain trusted_work share id now mode r new v apart ranges h =
    elim (Option-cases
      (find_context trusted_work share.zano_height share.mining_header_hash share.parent_id)) [
        | inl unknown ↦ inl (ground (arith, unknown))
        | inr (context, known) ↦
            let ((s, next), submitted, k) =
              bind-ok (submit_share platform chain share context now mode) _
                (rw (receive_unknown, known) at h) in
            let result = ok-injective k in
            let same_next : next ≡ new = ap (λ p. p.1) result in
            let same_result : judged share s ≡ r = ap (λ p. p.0) result in
            elim (submit_share-Submitted platform chain share context now mode s next v apart ranges
              submitted) [
                | inl e ↦ inl (sym same_next ∙ e)
                | inr (proven, added) ↦ inr (
                    subst (λ n. IsAuthorised platform mode chain trusted_work share now r n)
                      same_next
                      (subst (λ q. IsAuthorised platform mode chain trusted_work share now q next)
                        same_result
                        (record {
                          context = context;
                          known_work = known;
                          proven = proven;
                          added = added;
                          asks = λ p. judged-missing chain share s next p added;
                        })))
              ]
      ]

-- What becomes of a share of proper field widths, by gossip or as an answer.
pub receive_share-Received :
    (platform : Platform) (chain : ShareChain) (trusted_work : P2pTrustedWorkRegistry)
    (peer : P2pHandshake) (share : Share) (required now : ℕ) (mode : ProgPowZContextMode)
    (r : P2pShareReceiveResult) (new : ShareChain)
    → IsValid chain
    → Apart chain
    → IsShare share
    → receive_share platform chain trusted_work peer share required now mode ≡ ok (r, new)
    → Received platform mode chain trusted_work peer required share now r new
unfolding receive_share
receive_share-Received platform chain trusted_work peer share required now mode r new v apart ranges
      h =
    let (id, e, k) = bind-ok (share_id share) _ h in
    elim (Bool-cases ((required == 0) || not (has_all peer.capabilities required))) [
      | inl lacking ↦ inl (ground (arith, lacking))
      | inr able ↦ elim (Option-cases (find_share chain id)) [
        | inr (connected, there) ↦ inl (ground (arith, able, there))
        | inl absent ↦ elim (Bool-cases (is_orphan chain id)) [
          | inl waiting ↦ inl (ground (arith, able, absent, waiting))
          | inr unknown ↦
              elim (receive_unknown-Received platform chain trusted_work share id now mode r new v
                apart ranges (rw (able, absent, unknown) at k)) [
                  | inl same_chain ↦ inl same_chain
                  | inr authorised ↦ inr (ground (arith, able), authorised)
                ]
        ]
      ]
    ]

-- When `receive` returns on a valid chain with unconnected orphans and a payload of bytes, the
-- payload is a share, and the chain is as before, or the peer has the gossip capability, the
-- registry holds the work of the share for its parent, the share is proven against that work and
-- was added as `add_prevalidated_share` says; a parent to ask for is the share's own and is not
-- connected.
pub receive-Received :
    (platform : Platform) (chain : ShareChain) (trusted_work : P2pTrustedWorkRegistry)
    (peer : P2pHandshake) (envelope : P2pEnvelope) (now : ℕ) (mode : ProgPowZContextMode)
    (r : P2pShareReceiveResult) (new : ShareChain)
    → IsValid chain
    → Apart chain
    → All IsByte envelope.payload
    → receive platform chain trusted_work peer envelope now mode ≡ ok (r, new)
    → (share : Share) × (deserialize_share envelope.payload ≡ ok share)
      × Received platform mode chain trusted_work peer share_gossip share now r new
unfolding receive parse_p2p_share_announce_envelope
receive-Received platform chain trusted_work peer envelope now mode r new v apart bytes h =
    let (share, parsed, k) = bind-ok (parse_p2p_share_announce_envelope envelope) _ h in
    let (u, own_type, k1) = bind-ok (require_envelope_type envelope _) _ parsed in
    let (size, read) = guard-ok (not (is_share_size (length envelope.payload))) _ _ k1 in
    let ranges = (serialize-deserialize envelope.payload share bytes read).0 in
    (
      share,
      read,
      receive_share-Received platform chain trusted_work peer share share_gossip now mode r new v
          apart ranges k,
    )
