-- ===== src/Chain/Submit.antt =====
-- `submit_share` and `revalidate_connected_share` of src/share_chain.cpp: a share with a trusted
-- work context, from a peer or from a miner, and the second chance of a share that was connected
-- without one.
use zano_p2pool.Prelude.{ℕ, true, ◌||◌, not, none, some, ◌>>=◌, Result, ok, if◌then◌else◌}
use zano_p2pool.Bytes.{Bytes}
use zano_p2pool.OrderedMap.{bytes_key, find, contains, insert}
use zano_p2pool.Share.{Share, share_id, is_zero_share_id, difficulty128_to_decimal, has_value}
use zano_p2pool.Platform.{Platform, ProgPowZContextMode}
use zano_p2pool.Validation.{CandidateValidation, is_invalid, progpowz_available, validate_candidate}
use zano_p2pool.Chain.{
  ShareChain, ConnectedShare, AddShareResult, ShareWorkContext, ShareRejectReason, accepted,
  is_accepted, pow_backend_unavailable, invalid_pow, unexpected_share_difficulty,
  parent_height_mismatch, duplicate, rejected,
}
use zano_p2pool.Chain.Rules.{
  structural_reject_reason, trusted_context_reject_reason, absolute_timestamp_reject_reason,
  expected_difficulty_reject_reason,
}
use zano_p2pool.Chain.Connect.{without_change, link_reject_reason, add_prevalidated_share}

-- The first of two reasons that is one.
abbrev pub first_reason : ShareRejectReason → ShareRejectReason → ShareRejectReason
first_reason a b = if is_accepted a then b else a

-- The three checks that need no other share.
unfoldable pub own_reject_reason : ShareChain → Share → ShareWorkContext → ℕ → ShareRejectReason
own_reject_reason chain share context now = first_reason (structural_reject_reason chain share) (
    first_reason (trusted_context_reject_reason share context)
      (absolute_timestamp_reject_reason share now))

-- The end of both functions: a reason to refuse the share, or its validation.
pub data ProofCheck : Type 0 where
  failed : ShareRejectReason → ProofCheck
  passed : CandidateValidation → ProofCheck

unfoldable pub checked_validation : CandidateValidation → ProofCheck
checked_validation v =
    if not v.meets_share_difficulty || is_invalid v.classification
    then failed invalid_pow
    else passed v

-- A connected parent is judged before the proof of work; one that is not there is not.
unfoldable pub connected_parent_reject_reason : ShareChain → Share → ShareRejectReason
connected_parent_reject_reason chain share =
    if is_zero_share_id share.parent_id
    then accepted
    else (elim (find share.parent_id chain.connected) [
      | none ↦ accepted
      | some parent ↦ link_reject_reason share parent
    ])

pub data RevalidateShareStatus : Type 0 where
  validated already_validated not_connected parent_unvalidated revalidation_rejected :
      RevalidateShareStatus

pub record RevalidateShareResult : Type 0 where
  pub status : RevalidateShareStatus
  pub reject_reason : ShareRejectReason
  pub id : Bytes

abbrev pub revalidation : RevalidateShareStatus → ShareRejectReason → Bytes → RevalidateShareResult
revalidation status reason id = record { status = status; reject_reason = reason; id = id }

-- Whether the walk may go on, or what is returned at the parent.
pub data ParentCheck : Type 0 where
  parent_fine : ParentCheck
  parent_stops : RevalidateShareStatus → ShareRejectReason → ParentCheck

abbrev pub stop_unless_accepted : ShareRejectReason → ParentCheck
stop_unless_accepted reason =
    if is_accepted reason then parent_fine else parent_stops revalidation_rejected reason

unfoldable pub revalidation_parent_check : ShareChain → Share → ParentCheck
revalidation_parent_check chain share =
    if is_zero_share_id share.parent_id
    then parent_fine
    else (elim (find share.parent_id chain.connected) [
      | none ↦ parent_stops revalidation_rejected parent_height_mismatch
      | some parent ↦
          if not parent.validated_ancestry
          then parent_stops parent_unvalidated accepted
          else stop_unless_accepted (link_reject_reason share parent)
    ])

-- The validation is installed in the connected entry.
unfoldable pub install_validation : ShareChain → ConnectedShare → CandidateValidation → ShareChain
install_validation chain c v = record chain {
  connected =
      insert c.id (record c { pow_validation = some v; validated_ancestry = true }) chain.connected;
}

module _ (platform : Platform) where
  unfoldable pub proof_check :
      ShareChain → Share → ShareWorkContext → ProgPowZContextMode → Result ProofCheck
  proof_check chain share context mode = do
    reason ← expected_difficulty_reject_reason chain share
    if not (is_accepted reason)
        then ok (failed reason)
        else if not (progpowz_available platform)
        then ok (failed pow_backend_unavailable)
        else (do
          v ←
              validate_candidate platform context.zano_height context.mining_header_hash share.nonce
                (difficulty128_to_decimal platform.printer.print share.share_difficulty)
                (difficulty128_to_decimal platform.printer.print context.network_difficulty) mode
          ok (checked_validation v))

  unfoldable pub submit_checked :
      ShareChain → Share → Bytes → ProofCheck → Result (AddShareResult × ShareChain)
  submit_checked chain share id (failed reason) = ok (without_change rejected reason id, chain)
  submit_checked chain share id (passed v) =
      add_prevalidated_share chain share (some v) (has_value chain.difficulty_policy)

  unfoldable pub submit_share :
      ShareChain
      → Share
      → ShareWorkContext
      → ℕ
      → ProgPowZContextMode
      → Result (AddShareResult × ShareChain)
  unfolding proof_check
  submit_share chain share context now mode = do
    id ← share_id share
    if contains id chain.connected || contains id chain.orphans
        then ok (without_change duplicate accepted id, chain)
        else if not (is_accepted (own_reject_reason chain share context now))
        then ok (without_change rejected (own_reject_reason chain share context now) id, chain)
        else if not (is_accepted (connected_parent_reject_reason chain share))
        then ok (without_change rejected (connected_parent_reject_reason chain share) id, chain)
        else (proof_check chain share context mode >>= λ check. submit_checked chain share id check)

  unfoldable pub revalidate_checked :
      ShareChain → ConnectedShare → Bytes → ProofCheck → RevalidateShareResult × ShareChain
  revalidate_checked chain c id (failed reason) =
      (revalidation revalidation_rejected reason id, chain)
  revalidate_checked chain c id (passed v) =
      (revalidation validated accepted id, install_validation chain c v)

  -- Behind the tests on the entry and on the policy.
  unfoldable pub revalidate_entry :
      ShareChain
      → ConnectedShare
      → Bytes
      → ShareWorkContext
      → ℕ
      → ProgPowZContextMode
      → Result (RevalidateShareResult × ShareChain)
  unfolding proof_check
  revalidate_entry chain c id context now mode =
      if not (is_accepted (own_reject_reason chain c.share context now))
      then ok (
        revalidation revalidation_rejected (own_reject_reason chain c.share context now) id,
        chain,
      )
      else (elim (revalidation_parent_check chain c.share) [
        | parent_stops status reason ↦ ok (revalidation status reason id, chain)
        | parent_fine ↦ proof_check chain c.share context mode >>= λ check.
            ok (revalidate_checked chain c id check)
      ])

  unfoldable pub revalidate_connected_share :
      ShareChain
      → Bytes
      → ShareWorkContext
      → ℕ
      → ProgPowZContextMode
      → Result (RevalidateShareResult × ShareChain)
  unfolding revalidate_entry
  revalidate_connected_share chain id context now mode = elim (find id chain.connected) [
    | none ↦ ok (revalidation not_connected accepted id, chain)
    | some c ↦
        if c.validated_ancestry
        then ok (revalidation already_validated accepted id, chain)
        else if not (has_value chain.difficulty_policy)
        then ok (revalidation revalidation_rejected unexpected_share_difficulty id, chain)
        else revalidate_entry chain c id context now mode
  ]
