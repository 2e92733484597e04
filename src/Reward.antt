-- ===== src/Reward.antt =====
-- `allocate_pplns_reward` of src/pplns.cpp: the block reward goes to the miners of the window in
-- proportion to their work, rounded down, and what is left goes to the largest remainders.
pub mod Quotas
pub mod Exact
pub mod Payout
use zano_p2pool.Prelude.{
  ℕ, zero, suc, ◌+◌, ◌-◌, ◌*◌, ◌/◌, ◌%◌, Bool, true, false, not, Option, none, some, List, [], ◌∷◌,
  ◌>>=◌, ◌>>◌, Result, ok, throws, throw_if, overflow_error, logic_error, if◌then◌else◌, ltb, ◌==◌,
  length, take,
}
use zano_p2pool.Bytes.{Bytes, same, before}
use zano_p2pool.OrderedMap.{bytes_key, find, insert}
use zano_p2pool.OrderedMap.Sorted.{sum_of}
use zano_p2pool.Sorting.{sort_by}
use zano_p2pool.Share.{PayoutPublicKeys, miner_id_from_payout}
use zano_p2pool.Pplns.{
  PplnsMinerWork, PplnsWindow, PplnsPayout, CreditedWork, Credited, row_of, conflicts, work_to_int,
  int_to_work,
}

-- The payout of the aggregate once the row's is merged.
unfoldable pub merge_row_payout :
    Option PayoutPublicKeys → PplnsMinerWork → Result (Option PayoutPublicKeys)
merge_row_payout aggregate row = elim row.payout [
  | none ↦ ok aggregate
  | some payout ↦ do
    throw_if (not (same row.miner_id (miner_id_from_payout payout))) logic_error
    throw_if (conflicts aggregate payout) logic_error
    ok (some payout)
]

unfoldable pub aggregate_row : Credited → PplnsMinerWork → Result Credited
aggregate_row credited row = if work_to_int row.work == 0 then ok credited else (do
  let old = row_of (find row.miner_id credited)
  payout ← merge_row_payout old.payout row
  ok (
      insert row.miner_id (record { work = old.work + work_to_int row.work; payout = payout })
        credited))

-- The loop over the rows of the window.
unfoldable pub aggregate_rows : Credited → List PplnsMinerWork → Result Credited
aggregate_rows credited [] = ok credited
aggregate_rows credited (row ∷ rows) = do
  credited1 ← aggregate_row credited row
  aggregate_rows credited1 rows

pub record FractionalRow : Type 0 where
  pub miner_id : Bytes
  pub remainder : ℕ
  pub payout_index : ℕ

abbrev pub work_of : CreditedWork → ℕ
work_of row = row.work

unfoldable pub total_credited : Credited → ℕ
total_credited credited = sum_of work_of credited

-- The vectors the second loop fills.
pub record Shared : Type 0 where
  pub payouts : List PplnsPayout
  pub fractional : List FractionalRow
  pub allocated : ℕ

-- The loop over the credited rows, from the row with this index on: `allocated` is what the rows
-- before it got. A quotient is at most the reward, so it fits in 64 bits.
unfoldable pub share_out : ℕ → ℕ → ℕ → ℕ → Credited → Result Shared
share_out reward total index allocated [] =
    ok (record { payouts = []; fractional = []; allocated = allocated })
share_out reward total index allocated ((id, row) ∷ rest) = do
  let amount = (reward * row.work) / total
  throw_if (ltb (reward - allocated) amount) overflow_error
  work ← int_to_work row.work
  others ← share_out reward total (index + 1) (allocated + amount) rest
  ok (record {
    payouts =
        record { miner_id = id; work = work; amount = amount; payout = row.payout }
        ∷ others.payouts;
    fractional =
        record { miner_id = id; remainder = (reward * row.work) % total; payout_index = index }
        ∷ others.fractional;
    allocated = others.allocated;
  })

-- The larger remainder, then the smaller id.
unfoldable pub larger_remainder : FractionalRow → FractionalRow → Bool
larger_remainder left right =
    if not (left.remainder == right.remainder)
    then ltb right.remainder left.remainder
    else before left.miner_id right.miner_id

-- `++payouts[index].amount`
unfoldable pub add_one : ℕ → List PplnsPayout → List PplnsPayout
add_one index [] = []
add_one zero (p ∷ payouts) = record p { amount = p.amount + 1 } ∷ payouts
add_one (suc index) (p ∷ payouts) = p ∷ add_one index payouts

-- The loop that hands out what is left.
unfoldable pub add_ones : List FractionalRow → List PplnsPayout → List PplnsPayout
unfolding add_one
add_ones [] payouts = payouts
add_ones (f ∷ fractional) payouts = add_ones fractional (add_one f.payout_index payouts)

-- From the aggregated rows on, which are not empty.
unfoldable pub distribute : Credited → ℕ → Result (List PplnsPayout)
unfolding share_out add_ones larger_remainder
distribute credited reward = do
  let total = total_credited credited
  throw_if (total == 0) logic_error
  shared ← share_out reward total 0 0 credited
  let leftover = reward - shared.allocated
  throw_if (ltb (length shared.fractional) leftover) logic_error
  ok (add_ones (take leftover (sort_by larger_remainder shared.fractional)) shared.payouts)

abbrev pub distribute_if_any : Credited → ℕ → Result (List PplnsPayout)
distribute_if_any [] reward = ok []
distribute_if_any (row ∷ rows) reward = distribute (row ∷ rows) reward

unfoldable pub allocate_pplns_reward : PplnsWindow → ℕ → Result (List PplnsPayout)
unfolding aggregate_rows distribute
allocate_pplns_reward window reward = do
  credited ← aggregate_rows [] window.miners
  distribute_if_any credited reward
