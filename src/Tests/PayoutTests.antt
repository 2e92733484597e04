-- ===== src/Tests/PayoutTests.antt =====
-- Payout windows, rewards and coinbase plans, on concrete inputs.
use zano_p2pool.Prelude.{
  ltb, ltb→lt, ◌≡◌, ◌*◌, ◌/◌, refl, ok, none, some, true, List, [], ◌∷◌, ◌++◌, arith,
}
use zano_p2pool.Bytes.{zeros, value, value_from, fill, same, before, is_zero}
use zano_p2pool.OrderedMap.{bytes_key, find, insert}
use zano_p2pool.OrderedMap.Sorted.{sum_of}
use zano_p2pool.Work.{share_work}
use zano_p2pool.Params.{
  SidechainParameters, canonical_sidechain_parameters, testnet, serialize_sidechain_parameters,
}
use zano_p2pool.SidechainDifficulty.{oldest_from, calculate_next_sidechain_difficulty}
use zano_p2pool.SidechainDifficulty.Bounds.{Within, calculate_Within}
use zano_p2pool.Pplns.{
  PplnsWindow, PplnsPayout, Credited, build_pplns_window_at_parent, walk_window, include_share,
  credit_share, merge_payout_identity, require_validated_payout_ancestry, int_to_work, miner_rows,
  empty_window,
}
use zano_p2pool.Pplns.Window.{Balances, build_pplns_window-Balances}
use zano_p2pool.Reward.{
  aggregate_rows, aggregate_row, merge_row_payout, total_credited, allocate_pplns_reward,
}
use zano_p2pool.Reward.Exact.{total_amount, allocate-exact}
use zano_p2pool.Coinbase.{
  calculate_basis_point_share, make_pplns_coinbase_plan, PplnsCoinbasePlan, failed_plan, ready,
  empty_window as nothing_to_pay,
}
use zano_p2pool.Coinbase.Fee.{calculate_basis_point_share-floor}
use zano_p2pool.Coinbase.Plan.{IsPlan, make_pplns_coinbase_plan-IsPlan}
use zano_p2pool.Reward.Payout.{window-allocate}
use zano_p2pool.Share.{PayoutPublicKeys, miner_id_from_payout}
use zano_p2pool.Bytes.Order.{same_refl}
use zano_p2pool.Tests.Samples.{array, header, ten, value_or, is_ok, ok_value_or}
use zano_p2pool.Tests.ChainTests.{root_chain, root_entry}
use zano_p2pool.Chain.{ShareChain}

calculate_basis_point_share-floor_example :
    calculate_basis_point_share 12345678 100 ≡ some ((12345678 * 100) / 10000)
calculate_basis_point_share-floor_example =
    calculate_basis_point_share-floor 12345678 100 (omega arith) (omega arith)

-- The root share with its validated ancestry.
abbrev validated_chain : ShareChain
validated_chain = record root_chain {
  connected = (header, record root_entry { validated_ancestry = true }) ∷ [];
}

-- The work of the root share.
abbrev root_window : PplnsWindow
root_window =
    value_or empty_window
      (build_pplns_window_at_parent validated_chain header (zeros 31 ++ (1 ∷ [])))

was_built :
    is_ok (build_pplns_window_at_parent validated_chain header (zeros 31 ++ (1 ∷ []))) ≡ true
unfolding build_pplns_window_at_parent value_from is_zero find same walk_window include_share
    require_validated_payout_ancestry share_work credit_share insert merge_payout_identity
    int_to_work miner_rows fill before
was_built = refl

build_pplns_window-Balances_example : Balances (zeros 31 ++ (1 ∷ [])) root_window
build_pplns_window-Balances_example =
    build_pplns_window-Balances validated_chain header (zeros 31 ++ (1 ∷ [])) root_window
      (ok_value_or _ _ was_built)

abbrev two_miners : PplnsWindow
two_miners = record {
  requested_work = zeros 31 ++ (3 ∷ []);
  covered_work = zeros 31 ++ (3 ∷ []);
  included_shares = 2;
  complete = true;
  miners =
      record { miner_id = zeros 32; work = zeros 31 ++ (1 ∷ []); payout = none }
      ∷ record { miner_id = header; work = zeros 31 ++ (2 ∷ []); payout = none }
      ∷ [];
}

abbrev two_credited : Credited
two_credited =
    (zeros 32, record { work = 1; payout = none })
    ∷ (header, record { work = 2; payout = none })
    ∷ []

allocate-exact_example :
    (payouts : List PplnsPayout) × (allocate_pplns_reward two_miners 100 ≡ ok payouts)
    × (total_amount payouts ≡ 100)
unfolding aggregate_rows aggregate_row merge_row_payout find insert same before value_from
    total_credited sum_of
allocate-exact_example = allocate-exact two_miners 100 two_credited refl (omega arith) (omega arith)

abbrev params : SidechainParameters
params = canonical_sidechain_parameters testnet

abbrev keys : PayoutPublicKeys
keys = record { spend_public_key = header; view_public_key = header }

-- One miner, whose payout keys are known.
abbrev paid_window : PplnsWindow
paid_window = record {
  requested_work = zeros 31 ++ (3 ∷ []);
  covered_work = zeros 31 ++ (3 ∷ []);
  included_shares = 1;
  complete = true;
  miners =
      record {
        miner_id = miner_id_from_payout keys;
        work = zeros 31 ++ (3 ∷ []);
        payout = some keys;
      }
      ∷ [];
}

abbrev plan : PplnsCoinbasePlan
plan =
    value_or (failed_plan 100 nothing_to_pay) (make_pplns_coinbase_plan paid_window 100000 params)

was_planned : is_ok (make_pplns_coinbase_plan paid_window 100000 params) ≡ true
unfolding make_pplns_coinbase_plan serialize_sidechain_parameters canonical_sidechain_parameters
    same calculate_basis_point_share allocate_pplns_reward aggregate_row value_from merge_row_payout
    insert before total_credited sum_of find int_to_work
was_planned = rw (same_refl (miner_id_from_payout keys)) refl

was_ready : plan.status ≡ ready
unfolding make_pplns_coinbase_plan serialize_sidechain_parameters canonical_sidechain_parameters
    same calculate_basis_point_share allocate_pplns_reward aggregate_row value_from merge_row_payout
    insert before total_credited sum_of find int_to_work zano_p2pool.Coinbase.plan_payouts
    zano_p2pool.Coinbase.fill_destinations zano_p2pool.Coinbase.place_operator_fee
    zano_p2pool.Coinbase.amount_to
was_ready = rw (same_refl (miner_id_from_payout keys), same_refl (miner_id_from_payout keys)) refl

make_pplns_coinbase_plan-IsPlan_example : IsPlan 100000 plan
make_pplns_coinbase_plan-IsPlan_example =
    make_pplns_coinbase_plan-IsPlan paid_window 100000 params plan (ok_value_or _ _ was_planned)

calculate_Within_example : Within 1 10 (
    calculate_next_sidechain_difficulty
      (record { timestamp = 1030; cumulative_work = zeros 31 ++ (9 ∷ []) }
        ∷ record { timestamp = 1000; cumulative_work = zeros 31 ++ (5 ∷ []) }
        ∷ [])
      10
      1
      2160
      ten)
unfolding is_zero value_from oldest_from
calculate_Within_example =
    calculate_Within
      (record { timestamp = 1030; cumulative_work = zeros 31 ++ (9 ∷ []) }
        ∷ record { timestamp = 1000; cumulative_work = zeros 31 ++ (5 ∷ []) }
        ∷ [])
      10 1 2160 ten (omega arith) (omega arith) (omega arith) (array 16 ten refl refl) refl
      (omega arith, (omega arith, tt))

was_covered : ltb 0 (value root_window.covered_work) ≡ true
unfolding build_pplns_window_at_parent value_from is_zero find same walk_window include_share
    require_validated_payout_ancestry share_work credit_share insert merge_payout_identity
    int_to_work miner_rows fill before
was_covered = refl

window-allocate_example :
    (payouts : List PplnsPayout) × (allocate_pplns_reward root_window 1000 ≡ ok payouts)
    × (total_amount payouts ≡ 1000)
window-allocate_example =
    window-allocate validated_chain header (zeros 31 ++ (1 ∷ [])) 1000 root_window
      (ok_value_or _ _ was_built) (ltb→lt 0 (value root_window.covered_work) was_covered)
