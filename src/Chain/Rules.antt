-- ===== src/Chain/Rules.antt =====
-- The reject rules of src/share_chain.cpp, and the branch-relative expected difficulty.
use zano_p2pool.Prelude.{
  ℕ, zero, suc, ◌-◌, Bool, false, ◌&&◌, ◌||◌, not, Option, none, some, List, [], ◌∷◌, ◌>>=◌, Result,
  ok, throws, logic_error, invalid_argument, if◌then◌else◌, ltb, ◌==◌,
}
use zano_p2pool.Bytes.{Bytes, same, before, zeros}
use zano_p2pool.OrderedMap.{bytes_key, find, contains}
use zano_p2pool.Share.{Share, is_zero_share_id, difficulty128_is_zero}
use zano_p2pool.Params.{
  SidechainParameters, sidechain_id, serialize_sidechain_parameters, share_max_future_seconds,
  share_max_parent_backstep_seconds,
}
use zano_p2pool.SidechainDifficulty.{SidechainDifficultySample, calculate_next_sidechain_difficulty}
use zano_p2pool.Chain.{
  ShareChain, ConnectedShare, DifficultyPolicy, ShareWorkContext, ShareRejectReason, accepted,
  unexpected_share_version, zero_share_difficulty, zero_network_difficulty,
  share_difficulty_above_network, unexpected_share_difficulty, invalid_root_height,
  invalid_non_root_height, timestamp_too_far_future, timestamp_before_parent_tolerance,
  zano_height_mismatch, mining_header_mismatch, network_difficulty_mismatch, best_tip,
}

-- The constructor from consensus parameters.
unfoldable pub configured_chain : SidechainParameters → Result ShareChain
configured_chain p = do
  serialized ← serialize_sidechain_parameters p
  parameter_id ← sidechain_id p
  ok (record {
    connected = [];
    orphans = [];
    orphans_by_parent = [];
    best_tip_id = none;
    parameter_id = some parameter_id;
    difficulty_policy = some (record {
      minimum_share_version = p.minimum_share_version;
      maximum_share_version = p.maximum_share_version;
      target_share_seconds = p.target_share_seconds;
      minimum_share_difficulty = p.minimum_share_difficulty;
      difficulty_window_shares = p.difficulty_window_shares;
    });
  })

unfoldable pub matches_sidechain_parameters : ShareChain → SidechainParameters → Result Bool
matches_sidechain_parameters chain p = elim chain.parameter_id [
  | none ↦ ok false
  | some id ↦ sidechain_id p >>= λ other. ok (same id other)
]

abbrev pub sample_of : ConnectedShare → SidechainDifficultySample
sample_of c = record { timestamp = c.share.timestamp; cumulative_work = c.cumulative_work }

-- The samples from `current` back, at most `room` of them, newest first.
unfoldable pub branch_samples :
    ℕ → ShareChain → ConnectedShare → Result (List SidechainDifficultySample)
branch_samples zero chain current = ok []
branch_samples (suc room) chain current =
    if is_zero_share_id current.share.parent_id
    then ok (sample_of current ∷ [])
    else (elim (find current.share.parent_id chain.connected) [
      | none ↦ throws logic_error
      | some parent ↦
          branch_samples room chain parent >>= λ samples. ok (sample_of current ∷ samples)
    ])

-- The history of a child of `parent_id`.
unfoldable pub difficulty_history : ShareChain → ℕ → Bytes → Result (List SidechainDifficultySample)
unfolding branch_samples
difficulty_history chain window parent_id =
    if is_zero_share_id parent_id then ok [] else (elim (find parent_id chain.connected) [
      | none ↦ throws invalid_argument
      | some current ↦ branch_samples window chain current
    ])

unfoldable pub policy_child_difficulty :
    ShareChain → DifficultyPolicy → Bytes → Bytes → Result Bytes
policy_child_difficulty chain policy parent_id network_difficulty = do
  history ← difficulty_history chain policy.difficulty_window_shares parent_id
  calculate_next_sidechain_difficulty history policy.target_share_seconds
      policy.minimum_share_difficulty policy.difficulty_window_shares network_difficulty

unfoldable pub expected_child_share_difficulty : ShareChain → Bytes → Bytes → Result Bytes
unfolding policy_child_difficulty
expected_child_share_difficulty chain parent_id network_difficulty = elim chain.difficulty_policy [
  | none ↦ throws logic_error
  | some policy ↦ policy_child_difficulty chain policy parent_id network_difficulty
]

abbrev pub tip_id : Option ConnectedShare → Bytes
tip_id none = zeros 32
tip_id (some tip) = tip.id

unfoldable pub expected_next_share_difficulty : ShareChain → Bytes → Result Bytes
expected_next_share_difficulty chain network_difficulty =
    expected_child_share_difficulty chain (tip_id (best_tip chain)) network_difficulty

abbrev pub version_outside : Option DifficultyPolicy → ℕ → Bool
version_outside none version = false
version_outside (some policy) version =
    ltb version policy.minimum_share_version || ltb policy.maximum_share_version version

unfoldable pub structural_reject_reason : ShareChain → Share → ShareRejectReason
structural_reject_reason chain share =
    if version_outside chain.difficulty_policy share.version
    then unexpected_share_version
    else if difficulty128_is_zero share.share_difficulty
    then zero_share_difficulty
    else if difficulty128_is_zero share.network_difficulty
    then zero_network_difficulty
    else if before share.network_difficulty share.share_difficulty
    then share_difficulty_above_network
    else if is_zero_share_id share.parent_id
    then (if share.share_height == 0 then accepted else invalid_root_height)
    else (if share.share_height == 0 then invalid_non_root_height else accepted)

unfoldable pub trusted_context_reject_reason : Share → ShareWorkContext → ShareRejectReason
trusted_context_reject_reason share context =
    if not (share.zano_height == context.zano_height)
    then zano_height_mismatch
    else if not (same share.mining_header_hash context.mining_header_hash)
    then mining_header_mismatch
    else if not (same share.network_difficulty context.network_difficulty)
    then network_difficulty_mismatch
    else accepted

unfoldable pub absolute_timestamp_reject_reason : Share → ℕ → ShareRejectReason
absolute_timestamp_reject_reason share now =
    if ltb now share.timestamp && ltb share_max_future_seconds (share.timestamp - now)
    then timestamp_too_far_future
    else accepted

unfoldable pub parent_timestamp_reject_reason : Share → Share → ShareRejectReason
parent_timestamp_reject_reason share parent =
    if not (ltb share.timestamp parent.timestamp)
    then accepted
    else if ltb share_max_parent_backstep_seconds (parent.timestamp - share.timestamp)
    then timestamp_before_parent_tolerance
    else accepted

-- An orphan is not judged before its parent is there.
unfoldable pub expected_difficulty_reject_reason : ShareChain → Share → Result ShareRejectReason
expected_difficulty_reject_reason chain share = elim chain.difficulty_policy [
  | none ↦ ok accepted
  | some policy ↦
      if not (is_zero_share_id share.parent_id) && not (contains share.parent_id chain.connected)
      then ok accepted
      else (expected_child_share_difficulty chain share.parent_id share.network_difficulty
          >>= λ expected. ok (
              if same share.share_difficulty expected
              then accepted
              else unexpected_share_difficulty))
]
