-- ===== src/Stratum/Submission.antt =====
-- include/zano_p2pool/stratum_submission.hpp and src/stratum_submission.cpp: a nonce that a miner
-- sends becomes a share, and the share goes to the chain. A set of pairs is a list, since only
-- membership is asked of it. An exception of the source leaves the nonce recorded, which is not
-- followed here.
pub mod Routing
use zano_p2pool.Prelude.{
  ℕ, ◌+◌, ◌%◌, ◌^◌, ◌>>=◌, Bool, true, false, ◌&&◌, ◌||◌, not, Option, none, some, List, [], ◌∷◌,
  ◌++◌, Result, ok, if◌then◌else◌, ◌==◌,
}
use zano_p2pool.Bytes.{Bytes, zeros}
use zano_p2pool.Hash.{cn_fast_hash}
use zano_p2pool.OrderedMap.{nat_key, OrderedMap, find, insert}
use zano_p2pool.Platform.{Platform, ProgPowZContextMode}
use zano_p2pool.Share.{
  Share, PayoutPublicKeys, share_id, miner_id_from_payout, share_version_1, share_version_2,
}
use zano_p2pool.Validation.{CandidateClassification, block, share, invalid}
use zano_p2pool.Chain.{
  ShareChain, ConnectedShare, AddShareResult, ShareRejectReason, accepted, ShareDisposition,
  connected_share, orphan_share, duplicate, rejected, best_tip, find_share,
}
use zano_p2pool.Chain.Submit.{submit_share}
use zano_p2pool.Stratum.Session.{
  StratumSession, StratumSessionRegistry, StratumIssuedWork, StratumWorkMatch, current_match,
  stale_match, unknown_match, StratumShareParentBinding, find_session, match_submission,
}

pub record StratumSubmission : Type 0 where
  pub nonce : ℕ
  pub header_hash : Bytes
  pub mix_hash : Bytes
  pub worker : Bytes

pub data StratumSubmissionDisposition : Type 0 where
  accepted_share block_candidate stale_work duplicate_nonce unknown_work rejected_share :
      StratumSubmissionDisposition

pub record StratumSubmissionResult : Type 0 where
  pub disposition : StratumSubmissionDisposition
  pub reject_reason : ShareRejectReason
  pub share_id : Bytes
  pub job_version : ℕ

abbrev pub NonceSet : Type 0
NonceSet = List (ℕ × ℕ)

-- `submitted_nonces_`
abbrev pub SubmittedNonces : Type 0
SubmittedNonces = OrderedMap ℕ NonceSet

abbrev pub holds : NonceSet → ℕ → ℕ → Bool
holds [] job_version nonce = false
holds ((version, n) ∷ seen) job_version nonce =
    if (version == job_version) && (n == nonce) then true else holds seen job_version nonce

abbrev pub seen_of : Option NonceSet → NonceSet
seen_of none = []
seen_of (some seen) = seen

unfoldable pub was_submitted : SubmittedNonces → ℕ → ℕ → ℕ → Bool
was_submitted nonces session_id job_version nonce =
    holds (seen_of (find session_id nonces)) job_version nonce

-- "ZP2M\0"
abbrev pub legacy_miner_domain : Bytes
legacy_miner_domain = b'Z' ∷ b'P' ∷ b'2' ∷ b'M' ∷ 0 ∷ []

abbrev pub miner_id_of : Bytes → Option PayoutPublicKeys → Bytes
miner_id_of username none = cn_fast_hash (legacy_miner_domain ++ username)
miner_id_of username (some payout) = miner_id_from_payout payout

unfoldable pub miner_id_for_session : StratumSession → Bytes
miner_id_for_session session = miner_id_of session.username session.payout

-- The parent of the share: the binding of the job, or the tip, or none.
abbrev pub share_parent : Option StratumShareParentBinding → Option ConnectedShare → Bytes × ℕ
share_parent (some binding) tip = (binding.parent_id, binding.share_height)
share_parent none none = (zeros 32, 0)
share_parent none (some tip) = (tip.id, (tip.share.share_height + 1) % 2 ^ 64)

abbrev pub version_for : Option PayoutPublicKeys → ℕ
version_for none = share_version_1
version_for (some payout) = share_version_2

-- The share that `submit` fills.
unfoldable pub submitted_share :
    StratumSession → StratumIssuedWork → Option ConnectedShare → ℕ → ℕ → Share
submitted_share session issued tip nonce now = record {
  version = version_for session.payout;
  parent_id = (share_parent issued.parent_binding tip).0;
  share_height = (share_parent issued.parent_binding tip).1;
  timestamp = now;
  zano_height = issued.trusted_context.zano_height;
  mining_header_hash = issued.trusted_context.mining_header_hash;
  nonce = nonce;
  share_difficulty = issued.share_difficulty;
  network_difficulty = issued.trusted_context.network_difficulty;
  miner_id = miner_id_for_session session;
  payout = session.payout;
}

abbrev pub outcome :
    StratumSubmissionDisposition → ShareRejectReason → Bytes → ℕ → StratumSubmissionResult
outcome disposition reason id version = record {
  disposition = disposition;
  reject_reason = reason;
  share_id = id;
  job_version = version;
}

abbrev pub is_taken : ShareDisposition → Bool
is_taken connected_share = true
is_taken orphan_share = true
is_taken duplicate = false
is_taken rejected = false

abbrev pub class_outcome : CandidateClassification → StratumSubmissionDisposition
class_outcome block = block_candidate
class_outcome share = accepted_share
class_outcome invalid = accepted_share

-- What is answered once the chain has judged the share.
unfoldable pub judged_outcome :
    AddShareResult → Option ConnectedShare → Bytes → ℕ → StratumSubmissionResult
judged_outcome r found id version =
    if not (is_taken r.disposition)
    then outcome rejected_share r.reject_reason id version
    else (elim found [
      | none ↦ outcome rejected_share accepted id version
      | some connected ↦ elim connected.pow_validation [
        | none ↦ outcome rejected_share accepted id version
        | some v ↦ outcome (class_outcome v.classification) accepted id version
      ]
    ])

abbrev pub stale_version : Option StratumIssuedWork → ℕ
stale_version none = 0
stale_version (some work) = work.job_version

-- The router's own state and the chain, with the answer.
abbrev pub Routed : Type 0
Routed = StratumSubmissionResult × SubmittedNonces × ShareChain

module _ (platform : Platform) where
  -- Behind the test for a repeated nonce.
  unfoldable pub submit_fresh :
      SubmittedNonces
      → ShareChain
      → ℕ
      → StratumSession
      → StratumIssuedWork
      → ℕ
      → ℕ
      → ProgPowZContextMode
      → Result Routed
  submit_fresh nonces chain session_id session issued nonce now mode = do
    let own = submitted_share session issued (best_tip chain) nonce now
    id ← share_id own
    (r, new) ← submit_share platform chain own issued.trusted_context now mode
    ok (
      judged_outcome r (find_share new id) id issued.job_version,
      insert session_id ((issued.job_version, nonce) ∷ seen_of (find session_id nonces)) nonces,
      new,
    )

  -- Behind the match with the current work.
  unfoldable pub submit_current :
      SubmittedNonces
      → ShareChain
      → ℕ
      → StratumSession
      → StratumIssuedWork
      → ℕ
      → ℕ
      → ProgPowZContextMode
      → Result Routed
  unfolding submit_fresh was_submitted
  submit_current nonces chain session_id session issued nonce now mode =
      if was_submitted nonces session_id issued.job_version nonce
      then ok (
        outcome duplicate_nonce accepted (zeros 32) issued.job_version,
        insert session_id (seen_of (find session_id nonces)) nonces,
        chain,
      )
      else submit_fresh nonces chain session_id session issued nonce now mode

  unfoldable pub submit_matched :
      SubmittedNonces
      → ShareChain
      → ℕ
      → StratumSession
      → StratumIssuedWork
      → StratumWorkMatch
      → ℕ
      → ℕ
      → ProgPowZContextMode
      → Result Routed
  unfolding submit_current
  submit_matched nonces chain session_id session issued current_match nonce now mode =
      submit_current nonces chain session_id session issued nonce now mode
  submit_matched nonces chain session_id session issued stale_match nonce now mode =
      ok (
        outcome stale_work accepted (zeros 32) (stale_version session.previous_work),
        nonces,
        chain,
      )
  submit_matched nonces chain session_id session issued unknown_match nonce now mode =
      ok (outcome unknown_work accepted (zeros 32) 0, nonces, chain)

  unfoldable pub submit_in :
      StratumSessionRegistry
      → SubmittedNonces
      → ShareChain
      → ℕ
      → StratumSession
      → StratumSubmission
      → ℕ
      → ProgPowZContextMode
      → Result Routed
  unfolding submit_matched
  submit_in sessions nonces chain session_id session submission now mode =
      if not session.logged_in
      then ok (outcome unknown_work accepted (zeros 32) 0, nonces, chain)
      else (elim session.current_work [
        | none ↦ ok (outcome unknown_work accepted (zeros 32) 0, nonces, chain)
        | some issued ↦ do
          found ← match_submission sessions session_id submission.header_hash
          submit_matched nonces chain session_id session issued found submission.nonce now mode
      ])

  unfoldable pub submit :
      StratumSessionRegistry
      → SubmittedNonces
      → ShareChain
      → ℕ
      → StratumSubmission
      → ℕ
      → ProgPowZContextMode
      → Result Routed
  unfolding submit_in
  submit sessions nonces chain session_id submission now mode =
      elim (find_session sessions session_id) [
        | none ↦ ok (outcome unknown_work accepted (zeros 32) 0, nonces, chain)
        | some session ↦ submit_in sessions nonces chain session_id session submission now mode
      ]
