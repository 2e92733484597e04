-- ===== src/Chain.antt =====
-- include/zano_p2pool/share_chain.hpp and the queries of src/share_chain.cpp: the share chain of one
-- node. `connected_`, `orphans_` and `orphans_by_parent_` are ordered maps keyed by share id.
-- The rules by which a share is refused are in Rules, the admission of shares in Connect, and the
-- entry points with a trusted work context in Submit.
pub mod Rules
pub mod Connect
pub mod Submit
pub mod TipOrder
pub mod Invariant
pub mod Insertion
pub mod Linking
pub mod Promotion
pub mod Dispositions
pub mod Admission
pub mod Submission
pub mod Installing
pub mod Revalidation
pub mod Pending
pub mod Fuel
pub mod Ancestry
pub mod Prune
pub mod Replay
pub mod Snapshot
use zano_p2pool.Prelude.{
  ℕ, zero, suc, Bool, true, false, ◌&&◌, not, Option, none, some, List, [], ◌∷◌, ◌>>=◌, Result, ok,
  throws, logic_error, length, if◌then◌else◌, ltb, ◌==◌,
}
use zano_p2pool.Bytes.{Bytes, same, before, is_zero}
use zano_p2pool.OrderedMap.{bytes_key, OrderedMap, find, contains, keys}
use zano_p2pool.Share.{Share, is_zero_share_id}
use zano_p2pool.Validation.{CandidateValidation}

pub record ShareWorkContext : Type 0 where
  pub zano_height : ℕ
  pub mining_header_hash : Bytes
  pub network_difficulty : Bytes

pub data ShareDisposition : Type 0 where
  connected_share orphan_share duplicate rejected : ShareDisposition

pub data ShareRejectReason : Type 0 where
  accepted unexpected_share_version zero_share_difficulty zero_network_difficulty
        share_difficulty_above_network unexpected_share_difficulty invalid_root_height
        invalid_non_root_height parent_height_mismatch timestamp_too_far_future
        timestamp_before_parent_tolerance zano_height_mismatch mining_header_mismatch
        network_difficulty_mismatch pow_backend_unavailable invalid_pow cumulative_work_overflow :
      ShareRejectReason

-- `reason == ShareRejectReason::None`.
abbrev pub is_accepted : ShareRejectReason → Bool
is_accepted accepted = true
is_accepted _ = false

pub record ConnectedShare : Type 0 where
  pub share : Share
  pub id : Bytes
  pub cumulative_work : Bytes
  pub pow_validation : Option CandidateValidation
  pub validated_ancestry : Bool

pub record OrphanShare : Type 0 where
  pub share : Share
  pub id : Bytes
  pub pow_validation : Option CandidateValidation
  pub enforce_sidechain_difficulty : Bool

pub record DifficultyPolicy : Type 0 where
  pub minimum_share_version : ℕ
  pub maximum_share_version : ℕ
  pub target_share_seconds : ℕ
  pub minimum_share_difficulty : ℕ
  pub difficulty_window_shares : ℕ

pub record ShareChain : Type 0 where
  pub connected : OrderedMap Bytes ConnectedShare
  pub orphans : OrderedMap Bytes OrphanShare
  pub orphans_by_parent : OrderedMap Bytes (List Bytes)
  pub best_tip_id : Option Bytes
  pub difficulty_policy : Option DifficultyPolicy
  pub parameter_id : Option Bytes

pub record AddShareResult : Type 0 where
  pub disposition : ShareDisposition
  pub reject_reason : ShareRejectReason
  pub id : Bytes
  pub promoted_orphans : ℕ
  pub best_tip_changed : Bool

-- The default constructor.
unfoldable pub empty_chain : ShareChain
empty_chain = record {
  connected = [];
  orphans = [];
  orphans_by_parent = [];
  best_tip_id = none;
  difficulty_policy = none;
  parameter_id = none;
}

unfoldable pub find_share : ShareChain → Bytes → Option ConnectedShare
find_share chain id = find id chain.connected

unfoldable pub find_orphan_share : ShareChain → Bytes → Option Share
find_orphan_share chain id = elim (find id chain.orphans) [
  | none ↦ none
  | some orphan ↦ some orphan.share
]

unfoldable pub best_tip : ShareChain → Option ConnectedShare
best_tip chain = elim chain.best_tip_id [ none ↦ none | some id ↦ find id chain.connected ]

unfoldable pub contains_share : ShareChain → Bytes → Bool
contains_share chain id = contains id chain.connected

unfoldable pub is_orphan : ShareChain → Bytes → Bool
is_orphan chain id = contains id chain.orphans

-- The walk of `is_on_best_chain` from `current` on.
unfoldable pub on_branch : ℕ → ShareChain → Bytes → Option ConnectedShare → Bool
on_branch fuel chain id none = false
on_branch zero chain id (some current) = false
on_branch (suc fuel) chain id (some current) =
    let rest = on_branch fuel chain id (find current.share.parent_id chain.connected) in
    if same current.id id
    then true
    else if is_zero_share_id current.share.parent_id
    then false
    else rest

-- Heights fall by one from a share to its parent.
abbrev pub branch_fuel : Option ConnectedShare → ℕ
branch_fuel none = 0
branch_fuel (some current) = suc current.share.share_height

unfoldable pub is_on_best_chain : ShareChain → Bytes → Bool
is_on_best_chain chain id = on_branch (branch_fuel (best_tip chain)) chain id (best_tip chain)

unfoldable pub is_stale : ShareChain → Bytes → Bool
is_stale chain id = contains_share chain id && not (is_on_best_chain chain id)

unfoldable pub connected_size : ShareChain → ℕ
connected_size chain = length chain.connected

unfoldable pub orphan_size : ShareChain → ℕ
orphan_size chain = length chain.orphans

unfoldable pub connected_share_ids : ShareChain → List Bytes
connected_share_ids chain = keys chain.connected

-- More work, then greater height, then the smaller id.
unfoldable pub better_tip : ConnectedShare → ConnectedShare → Bool
better_tip candidate current =
    if not (same candidate.cumulative_work current.cumulative_work)
    then before current.cumulative_work candidate.cumulative_work
    else if not (candidate.share.share_height == current.share.share_height)
    then ltb current.share.share_height candidate.share.share_height
    else before candidate.id current.id
