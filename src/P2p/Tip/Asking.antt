-- ===== src/P2p/Tip/Asking.antt =====
-- Announcements of a tip: what is read back, and what a node asks for.
use zano_p2pool.Prelude.{
  ◌≡◌, ◌<◌, ◌^◌, refl, sym, subst, ◌⊎◌, inl, inr, false, not, ◌||◌, Bool-cases, Option-cases, none,
  some, [], ◌++◌, ok, arith, ◌==◌, ==_iff, bind-ok, ok-injective, length, length-append,
  take-append,
}
use mathlib.Core.List.{append-nil}
use zano_p2pool.Bytes.{Bytes, to_bytes}
use zano_p2pool.Bytes.Value.{to_bytes-IsArray}
use zano_p2pool.Share.{Share, is_zero_share_id, append_u64_be}
use zano_p2pool.Chain.{ShareChain, find_share, find_orphan_share}
use zano_p2pool.P2p.Capability.{lacks, share_sync}
use zano_p2pool.P2p.Protocol.{P2pEnvelope, P2pHandshake, require_envelope_type, read_be}
use zano_p2pool.P2p.Framing.{read_be-append}
use zano_p2pool.P2p.Tip.{
  P2pTipHint, require_valid_tip_hint, make_p2p_tip_announce_envelope,
  parse_p2p_tip_announce_envelope, plan_for_tip, plan_p2p_tip_sync,
}

hint_payload :
    (hint : P2pTipHint)
    → length hint.share_id ≡ 32
    → hint.share_height < 2 ^ 64
    → (length (hint.share_id ++ append_u64_be hint.share_height) ≡ 40)
      × (read_be 8 (hint.share_id ++ append_u64_be hint.share_height) 32 ≡ ok hint.share_height)
unfolding append_u64_be
hint_payload hint size range = (
  omega (
    arith,
    length-append hint.share_id (to_bytes 8 hint.share_height),
    (to_bytes-IsArray 8 hint.share_height).0,
  ),
  subst (λ b. read_be 8 (hint.share_id ++ b) 32 ≡ ok hint.share_height)
      (append-nil (to_bytes 8 hint.share_height))
      (subst
        (λ n.
          read_be 8 (hint.share_id ++ (to_bytes 8 hint.share_height ++ [])) n
          ≡ ok hint.share_height)
        size (read_be-append 8 hint.share_height hint.share_id [] range)),
)

-- A tip with an id of 32 bytes and a 64-bit height that can be announced is read back from its
-- announcement.
pub parse-make_tip_announce :
    (hint : P2pTipHint) (e : P2pEnvelope)
    → length hint.share_id ≡ 32
    → hint.share_height < 2 ^ 64
    → make_p2p_tip_announce_envelope hint ≡ ok e
    → parse_p2p_tip_announce_envelope e ≡ ok hint
unfolding make_p2p_tip_announce_envelope parse_p2p_tip_announce_envelope require_envelope_type
parse-make_tip_announce hint e size range h =
    let (u, valid, k) = bind-ok (require_valid_tip_hint hint) _ h in
    let (whole, height) = hint_payload hint size range in
    subst (λ f. parse_p2p_tip_announce_envelope f ≡ ok hint) (ok-injective k)
      (rw
        (
          parse_p2p_tip_announce_envelope,
          whole,
          height,
          take-append 32 hint.share_id (append_u64_be hint.share_height) size,
          valid,
        )
        refl)

-- The announced tip is not known, or it waits for the parent that is asked for.
abbrev pub IsWanted : ShareChain → P2pTipHint → Bytes → Type 0
IsWanted chain hint id =
    (find_share chain hint.share_id ≡ none)
    × (((id ≡ hint.share_id) × (find_orphan_share chain id ≡ none))
        ⊎ ((orphan : Share) × (find_orphan_share chain hint.share_id ≡ some orphan)
            × (orphan.share_height ≡ hint.share_height)
            × (id ≡ orphan.parent_id)))

plan_for_tip-IsWanted :
    (hint : P2pTipHint) (chain : ShareChain) (id : Bytes)
    → is_zero_share_id hint.share_id ≡ false
    → (plan_for_tip hint chain).requested_id ≡ some id
    → (is_zero_share_id id ≡ false) × IsWanted chain hint id
unfolding plan_for_tip
plan_for_tip-IsWanted hint chain id nonzero h =
    elim (Option-cases (find_share chain hint.share_id)) [
      | inr (connected, e) ↦ elim (Bool-cases (connected.share.share_height == hint.share_height)) [
        | inl f ↦ absurd (ground (arith, e, f))
        | inr f ↦ absurd (ground (arith, e, f))
      ]
      | inl e ↦ elim (Option-cases (find_orphan_share chain hint.share_id)) [
        | inl gone ↦
            let own : hint.share_id ≡ id = ground (arith, e, gone) in
            (
              subst (λ k. is_zero_share_id k ≡ false) own nonzero,
              (e, inl (sym own, subst (λ k. find_orphan_share chain k ≡ none) own gone)),
            )
        | inr (orphan, there) ↦
            elim (Bool-cases (
              not (orphan.share_height == hint.share_height)
              || is_zero_share_id orphan.parent_id)) [
                | inl f ↦ absurd (ground (arith, e, there, f))
                | inr f ↦
                    let own : orphan.parent_id ≡ id = ground (arith, e, there, f) in
                    (
                      subst (λ k. is_zero_share_id k ≡ false) own (ground (arith, f)),
                      (
                        e,
                        inr (
                          orphan,
                          there,
                          (==_iff orphan.share_height hint.share_height).0 (ground (arith, f)),
                          sym own,
                        ),
                      ),
                    )
              ]
      ]
    ]

-- If a node plans to ask a peer for an id, then the peer can sync shares, the id is not zero,
-- the announced tip is not connected, and the id is that of the tip, which is not an orphan, or
-- that of the parent of the tip, which is an orphan of the announced height.
pub plan_p2p_tip_sync-IsWanted :
    (peer : P2pHandshake) (hint : P2pTipHint) (chain : ShareChain) (id : Bytes)
    → (plan_p2p_tip_sync peer hint chain).requested_id ≡ some id
    → (lacks peer.capabilities share_sync ≡ false)
      × (is_zero_share_id id ≡ false)
      × IsWanted chain hint id
unfolding plan_p2p_tip_sync
plan_p2p_tip_sync-IsWanted peer hint chain id h =
    elim (Bool-cases (lacks peer.capabilities share_sync)) [
      | inl lacking ↦ absurd (ground (arith, lacking))
      | inr able ↦ elim (Bool-cases (is_zero_share_id hint.share_id)) [
        | inr nonzero ↦
            let wanted = plan_for_tip-IsWanted hint chain id nonzero (rw (able, nonzero) at h) in
            (able, wanted.0, wanted.1)
        | inl zero_id ↦ elim (Bool-cases (hint.share_height == 0)) [
          | inl f ↦ absurd (ground (arith, able, zero_id, f))
          | inr f ↦ absurd (ground (arith, able, zero_id, f))
        ]
      ]
    ]
