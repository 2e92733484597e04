-- ===== src/Chain/Replay.antt =====
-- `restore_replay_validation` of src/share_chain.cpp: the validation state of connected shares is
-- put back from records. std::set is a map to the unit type.
pub mod Checks
pub mod Applying
pub mod Restoring
use zano_p2pool.Prelude.{
  ℕ, ◌+◌, ◌>>=◌, ◌>>◌, Bool, true, false, ◌&&◌, ◌||◌, not, Option, none, some, List, [], ◌∷◌, ◌++◌,
  Result, ok, throws, throw_if, logic_error, runtime_error, out_of_range, if◌then◌else◌, ltb, ◌==◌,
}
use zano_p2pool.Bytes.{Bytes, same, before}
use zano_p2pool.OrderedMap.{bytes_key, OrderedMap, find, contains, insert}
use zano_p2pool.Sorting.{sort_by}
use zano_p2pool.Share.{Share, share_id, is_zero_share_id, has_value}
use zano_p2pool.SidechainDifficulty.{max64}
use zano_p2pool.Validation.{CandidateValidation, CandidateClassification, invalid, share, block}
use zano_p2pool.Chain.{ShareChain, ConnectedShare, OrphanShare, is_accepted}
use zano_p2pool.Chain.Rules.{
  structural_reject_reason, parent_timestamp_reject_reason, expected_difficulty_reject_reason,
}
use zano_p2pool.Chain.Submit.{install_validation}
use zano_p2pool.Chain.Prune.{height_of}

pub record ReplayValidationRecord : Type 0 where
  pub share_id : Bytes
  pub validation : CandidateValidation

abbrev pub same_class : CandidateClassification → CandidateClassification → Bool
same_class invalid invalid = true
same_class share share = true
same_class block block = true
same_class _ _ = false

unfoldable pub replay_validation_consistent : CandidateValidation → Bool
replay_validation_consistent v = v.meets_share_difficulty && (elim v.classification [
  | share ↦ not v.meets_network_difficulty
  | block ↦ v.meets_network_difficulty
  | invalid ↦ false
])

abbrev pub same_flag : Bool → Bool → Bool
same_flag true b = b
same_flag false b = not b

unfoldable pub replay_validation_equal : CandidateValidation → CandidateValidation → Bool
replay_validation_equal left right =
    same left.pow.final_hash right.pow.final_hash
    && (same left.pow.mix_hash right.pow.mix_hash
        && (same_flag left.meets_share_difficulty right.meets_share_difficulty
            && (same_flag left.meets_network_difficulty right.meets_network_difficulty
                && same_class left.classification right.classification)))

-- `pow_validation.has_value() && replay_validation_consistent(*pow_validation)`
abbrev pub has_consistent : Option CandidateValidation → Bool
has_consistent none = false
has_consistent (some v) = replay_validation_consistent v

abbrev pub is_validated : Option ConnectedShare → Bool
is_validated none = false
is_validated (some c) = c.validated_ancestry

-- A root, or the parent is connected with validated ancestry.
abbrev pub parent_is_validated : ShareChain → ConnectedShare → Bool
parent_is_validated chain c =
    is_zero_share_id c.share.parent_id || is_validated (find c.share.parent_id chain.connected)

-- Smaller height first, then the smaller id.
abbrev pub before_at : ℕ → Bytes → ℕ → Bytes → Bool
before_at left_height left_id right_height right_id =
    if not (left_height == right_height)
    then ltb left_height right_height
    else before left_id right_id

abbrev pub IdSet : Type 0
IdSet = OrderedMap Bytes (Unit {0})

-- The ids of the shares that are validated already.
unfoldable pub existing_validated : OrderedMap Bytes ConnectedShare → IdSet → Result IdSet
existing_validated [] ids = ok ids
existing_validated ((id, c) ∷ rest) ids =
    if not c.validated_ancestry then existing_validated rest ids else (do
      throw_if (not (has_consistent c.pow_validation)) logic_error
      own ← share_id c.share
      throw_if (not (same own id)) logic_error
      existing_validated rest (insert id tt ids))

unfoldable pub check_ancestry : ShareChain → OrderedMap Bytes ConnectedShare → Result (Unit {0})
check_ancestry chain [] = ok tt
check_ancestry chain ((id, c) ∷ rest) = do
  throw_if (c.validated_ancestry && not (parent_is_validated chain c)) logic_error
  check_ancestry chain rest

-- The first pass over the records.
unfoldable pub resolve : ShareChain → IdSet → List ReplayValidationRecord → Result (Unit {0})
resolve chain seen [] = ok tt
resolve chain seen (r ∷ records) = do
  throw_if (is_zero_share_id r.share_id) runtime_error
  throw_if (contains r.share_id seen) runtime_error
  throw_if (not (replay_validation_consistent r.validation)) runtime_error
  elim (find r.share_id chain.connected) [
    | none ↦ throws runtime_error
    | some c ↦ do
      own ← share_id c.share
      throw_if (not (same own r.share_id)) logic_error
      resolve chain (insert r.share_id tt seen) records
  ]

-- Every record is connected by now, so `connected_.at` finds it.
unfoldable pub ordered_records :
    ShareChain → List ReplayValidationRecord → List ReplayValidationRecord
ordered_records chain records =
    sort_by
      (λ l r.
        before_at (height_of (find l.share_id chain.connected)) l.share_id
          (height_of (find r.share_id chain.connected)) r.share_id)
      records

unfoldable pub check_restored_parent : ShareChain → IdSet → Share → Result (Unit {0})
check_restored_parent chain validated own =
    if is_zero_share_id own.parent_id then ok tt else (elim (find own.parent_id chain.connected) [
      | none ↦ throws runtime_error
      | some parent ↦ do
        throw_if (not (contains own.parent_id validated)) runtime_error
        throw_if
            ((parent.share.share_height == max64)
              || not (own.share_height == parent.share.share_height + 1))
            runtime_error
        throw_if (not (is_accepted (parent_timestamp_reject_reason own parent.share))) runtime_error
    ])

-- The checks of a share that is not validated yet.
unfoldable pub check_restored : ShareChain → IdSet → Share → Result (Unit {0})
unfolding check_restored_parent
check_restored chain validated own = do
  throw_if (not (is_accepted (structural_reject_reason chain own))) runtime_error
  check_restored_parent chain validated own
  reason ← expected_difficulty_reject_reason chain own
  throw_if (not (is_accepted reason)) runtime_error

abbrev pub agrees : Option CandidateValidation → CandidateValidation → Bool
agrees none validation = false
agrees (some v) validation = replay_validation_equal v validation

-- Every check of one record, before any change.
unfoldable pub preflight : ShareChain → IdSet → ReplayValidationRecord → Result (Unit {0})
unfolding check_restored
preflight chain validated r = elim (find r.share_id chain.connected) [
  | none ↦ throws out_of_range
  | some c ↦
      if c.validated_ancestry
      then throw_if (not (agrees c.pow_validation r.validation)) runtime_error
      else check_restored chain validated c.share
]

unfoldable pub preflight_all : ShareChain → IdSet → List ReplayValidationRecord → Result (Unit {0})
preflight_all chain validated [] = ok tt
preflight_all chain validated (r ∷ records) = do
  preflight chain validated r
  preflight_all chain (insert r.share_id tt validated) records

-- The loop that applies the records: the number of restored shares, and the chain.
unfoldable pub apply_records : ShareChain → List ReplayValidationRecord → Result (ℕ × ShareChain)
apply_records chain [] = ok (0, chain)
apply_records chain (r ∷ records) = elim (find r.share_id chain.connected) [
  | none ↦ throws out_of_range
  | some c ↦ if c.validated_ancestry then apply_records chain records else (do
    (restored, new) ← apply_records (install_validation chain c r.validation) records
    ok (restored + 1, new))
]

-- Behind the test for no records.
unfoldable pub restore_records : ShareChain → List ReplayValidationRecord → Result (ℕ × ShareChain)
restore_records chain records = do
  throw_if (not (has_value chain.difficulty_policy)) logic_error
  validated ← existing_validated chain.connected []
  check_ancestry chain chain.connected
  resolve chain [] records
  preflight_all chain validated (ordered_records chain records)
  apply_records chain (ordered_records chain records)

unfoldable pub restore_replay_validation :
    ShareChain → List ReplayValidationRecord → Result (ℕ × ShareChain)
restore_replay_validation chain [] = ok (0, chain)
restore_replay_validation chain (r ∷ records) = restore_records chain (r ∷ records)
