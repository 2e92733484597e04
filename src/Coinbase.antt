-- ===== src/Coinbase.antt =====
-- src/pplns_coinbase.cpp: the outputs of the coinbase transaction, from a payout window, the block
-- reward and the operator's fee. Amounts are numbers; the guards against overflow of 64 bits stand
-- where the source has them.
pub mod Fee
pub mod Destinations
pub mod Plan
use zano_p2pool.Prelude.{
  ℕ, ◌+◌, ◌-◌, ◌*◌, ◌/◌, ◌%◌, Bool, true, false, ◌&&◌, ◌||◌, not, Option, none, some, List, [], ◌∷◌,
  ◌++◌, ◌>>=◌, ◌>>◌, Result, ok, if◌then◌else◌, ltb, ◌==◌, length,
}
use zano_p2pool.Bytes.{Bytes, same}
use zano_p2pool.Share.{PayoutPublicKeys, miner_id_from_payout}
use zano_p2pool.SidechainDifficulty.{max64}
use zano_p2pool.Params.{
  SidechainParameters, operator_fee_basis_point_denominator, serialize_sidechain_parameters,
}
use zano_p2pool.Pplns.{PplnsWindow, PplnsPayout, same_payout}
use zano_p2pool.Reward.{allocate_pplns_reward}

abbrev pub zano_hf6_max_coinbase_outputs : ℕ
zano_hf6_max_coinbase_outputs = 32

-- None where the source returns false.
unfoldable pub calculate_basis_point_share : ℕ → ℕ → Option ℕ
calculate_basis_point_share amount basis_points =
    let whole = amount / operator_fee_basis_point_denominator in
    let remainder = amount % operator_fee_basis_point_denominator in
    let remainder_fee = (remainder * basis_points) / operator_fee_basis_point_denominator in
    if not (ltb basis_points operator_fee_basis_point_denominator)
    then none
    else if not (basis_points == 0) && ltb (max64 / basis_points) whole
    then none
    else if ltb (max64 - whole * basis_points) remainder_fee
    then none
    else some (whole * basis_points + remainder_fee)

pub data PplnsCoinbasePlanStatus : Type 0 where
  ready empty_window incomplete_window missing_payout_identity too_many_recipients zero_payout
        reward_sum_mismatch :
      PplnsCoinbasePlanStatus

pub record PplnsCoinbaseDestination : Type 0 where
  pub miner_id : Bytes
  pub payout : PayoutPublicKeys
  pub amount : ℕ

pub record PplnsCoinbasePlan : Type 0 where
  pub status : PplnsCoinbasePlanStatus
  pub reward_atomic : ℕ
  pub destinations : List PplnsCoinbaseDestination

-- The destinations so far and their sum, or the status of the early return.
pub data Filled : Type 0 where
  stopped : PplnsCoinbasePlanStatus → Filled
  filled : ℕ → List PplnsCoinbaseDestination → Filled

abbrev pub prepend : PplnsCoinbaseDestination → Filled → Filled
prepend d (stopped status) = stopped status
prepend d (filled total destinations) = filled total (d ∷ destinations)

-- The loop over the payouts, with the sum of those before.
unfoldable pub fill_destinations : ℕ → List PplnsPayout → Filled
fill_destinations total [] = filled total []
fill_destinations total (p ∷ payouts) =
    let rest = fill_destinations (total + p.amount) payouts in
    elim p.payout [
      | none ↦ stopped missing_payout_identity
      | some keys ↦
          if not (same p.miner_id (miner_id_from_payout keys))
          then stopped missing_payout_identity
          else if p.amount == 0
          then stopped zero_payout
          else if ltb (max64 - total) p.amount
          then stopped reward_sum_mismatch
          else prepend (record { miner_id = p.miner_id; payout = keys; amount = p.amount }) rest
    ]

-- `find_if`: the amount of the first destination with these keys.
unfoldable pub amount_to : PayoutPublicKeys → List PplnsCoinbaseDestination → Option ℕ
amount_to keys [] = none
amount_to keys (d ∷ destinations) =
    if same_payout d.payout keys then some d.amount else amount_to keys destinations

-- `operator_destination->amount += operator_fee`
unfoldable pub add_to :
    ℕ → PayoutPublicKeys → List PplnsCoinbaseDestination → List PplnsCoinbaseDestination
add_to fee keys [] = []
add_to fee keys (d ∷ destinations) =
    if same_payout d.payout keys
    then record d { amount = d.amount + fee } ∷ destinations
    else d ∷ add_to fee keys destinations

-- The operator's output: an addition to the operator's own payout, or one more destination.
unfoldable pub place_operator_fee :
    ℕ → PayoutPublicKeys → ℕ → List PplnsCoinbaseDestination → Filled
place_operator_fee fee keys total destinations =
    if fee == 0 then filled total destinations else (elim (amount_to keys destinations) [
      | some amount ↦
          if ltb (max64 - amount) fee
          then stopped reward_sum_mismatch
          else filled total (add_to fee keys destinations)
      | none ↦
          if not (ltb (length destinations) zano_hf6_max_coinbase_outputs)
          then stopped too_many_recipients
          else filled total (
              destinations
              ++ (record { miner_id = miner_id_from_payout keys; payout = keys; amount = fee }
                  ∷ []))
    ])

abbrev pub failed_plan : ℕ → PplnsCoinbasePlanStatus → PplnsCoinbasePlan
failed_plan reward status = record { status = status; reward_atomic = reward; destinations = [] }

-- The end: the sum with the fee is compared with the reward.
abbrev pub finish_plan : ℕ → ℕ → Filled → PplnsCoinbasePlan
finish_plan reward fee (stopped status) = failed_plan reward status
finish_plan reward fee (filled total destinations) =
    if ltb (max64 - total) fee
    then failed_plan reward reward_sum_mismatch
    else if not (total + fee == reward)
    then failed_plan reward reward_sum_mismatch
    else record { status = ready; reward_atomic = reward; destinations = destinations }

-- Behind the loop.
abbrev pub add_operator_fee : ℕ → ℕ → PayoutPublicKeys → Filled → PplnsCoinbasePlan
add_operator_fee reward fee keys (stopped status) = failed_plan reward status
add_operator_fee reward fee keys (filled total destinations) =
    if not (total == reward - fee)
    then failed_plan reward reward_sum_mismatch
    else finish_plan reward fee (place_operator_fee fee keys total destinations)

-- Behind the allocation.
unfoldable pub plan_payouts : ℕ → ℕ → SidechainParameters → List PplnsPayout → PplnsCoinbasePlan
unfolding place_operator_fee
plan_payouts reward fee params [] = failed_plan reward empty_window
plan_payouts reward fee params (p ∷ payouts) =
    let recipients = length (p ∷ payouts) in
    if ltb (zano_hf6_max_coinbase_outputs - 1) recipients
      || ltb params.pplns_window_shares recipients
    then failed_plan reward too_many_recipients
    else add_operator_fee reward fee params.operator_fee_payout (fill_destinations 0 (p ∷ payouts))

abbrev pub is_nil {ℓ} : {A : Type ℓ} → List A → Bool
is_nil [] = true
is_nil (x ∷ xs) = false

-- Behind the fee: none stands for a fee that does not fit.
unfoldable pub plan_with_fee :
    PplnsWindow → ℕ → SidechainParameters → Option ℕ → Result PplnsCoinbasePlan
plan_with_fee window reward params none = ok (failed_plan reward zero_payout)
plan_with_fee window reward params (some fee) =
    if not (ltb fee reward)
    then ok (failed_plan reward zero_payout)
    else (allocate_pplns_reward window (reward - fee) >>= λ payouts.
        ok (plan_payouts reward fee params payouts))

unfoldable pub make_pplns_coinbase_plan :
    PplnsWindow → ℕ → SidechainParameters → Result PplnsCoinbasePlan
unfolding plan_with_fee
make_pplns_coinbase_plan window reward params = do
  serialized ← serialize_sidechain_parameters params
  if is_nil window.miners
      then ok (failed_plan reward empty_window)
      else if not window.complete
      then ok (failed_plan reward incomplete_window)
      else plan_with_fee window reward params
          (calculate_basis_point_share reward params.operator_fee_basis_points)
