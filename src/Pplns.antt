-- ===== src/Pplns.antt =====
-- src/pplns.cpp: the payout window over the newest shares of a branch, and the split of a block
-- reward over the miners in it. `cpp_int` is a number; work in bytes is read and written big-endian.
pub mod Identity
pub mod Window
pub mod Fuel
use zano_p2pool.Prelude.{
  ℕ, zero, suc, ◌+◌, ◌-◌, ◌*◌, ◌/◌, ◌%◌, ◌^◌, Bool, true, false, ◌&&◌, ◌||◌, not, Option, none,
  some, List, [], ◌∷◌, ◌>>=◌, ◌>>◌, Result, ok, throws, throw_if, invalid_argument, overflow_error,
  logic_error, if◌then◌else◌, ltb, leb, ◌==◌, length, take,
}
use zano_p2pool.Bytes.{Bytes, same, before, value, to_bytes, zeros}
use zano_p2pool.OrderedMap.{bytes_key, OrderedMap, find, insert}
use zano_p2pool.OrderedMap.Sorted.{sum_of}
use zano_p2pool.Sorting.{sort_by}
use zano_p2pool.Share.{
  Share, PayoutPublicKeys, is_zero_share_id, difficulty128_is_zero, miner_id_from_payout, has_value,
  share_version_2,
}
use zano_p2pool.Work.{share_work}
use zano_p2pool.Params.{SidechainParameters, canonical_pplns_window_shares}
use zano_p2pool.Chain.{ShareChain, ConnectedShare, best_tip}
use zano_p2pool.Chain.Rules.{tip_id}

pub record PplnsMinerWork : Type 0 where
  pub miner_id : Bytes
  pub work : Bytes
  pub payout : Option PayoutPublicKeys

pub record PplnsWindow : Type 0 where
  pub requested_work : Bytes
  pub covered_work : Bytes
  pub included_shares : ℕ
  pub complete : Bool
  pub miners : List PplnsMinerWork

pub record PplnsPayout : Type 0 where
  pub miner_id : Bytes
  pub work : Bytes
  pub amount : ℕ
  pub payout : Option PayoutPublicKeys

pub record CreditedWork : Type 0 where
  pub work : ℕ
  pub payout : Option PayoutPublicKeys

abbrev pub Credited : Type 0
Credited = OrderedMap Bytes CreditedWork

abbrev pub work_to_int : Bytes → ℕ
work_to_int = value

-- A number is not negative, so the first guard of the source has no counterpart.
unfoldable pub int_to_work : ℕ → Result Bytes
int_to_work n = do throw_if (not (ltb n (2 ^ 256))) overflow_error; ok (to_bytes 32 n)

abbrev pub min : ℕ → ℕ → ℕ
min a b = if ltb b a then b else a

unfoldable pub require_validated_payout_ancestry : ShareChain → ConnectedShare → Result (Unit {0})
require_validated_payout_ancestry chain connected =
    throw_if (has_value chain.difficulty_policy && not connected.validated_ancestry) logic_error

abbrev pub same_payout : PayoutPublicKeys → PayoutPublicKeys → Bool
same_payout p q =
    same p.spend_public_key q.spend_public_key && same p.view_public_key q.view_public_key

abbrev pub conflicts : Option PayoutPublicKeys → PayoutPublicKeys → Bool
conflicts none q = false
conflicts (some p) q = not (same_payout p q)

-- The payout of the credited row once the share's is merged.
unfoldable pub merge_payout_identity :
    Option PayoutPublicKeys → Share → Result (Option PayoutPublicKeys)
merge_payout_identity credited share = elim share.payout [
  | none ↦ ok credited
  | some payout ↦ do
    throw_if
        (not (share.version == share_version_2)
          || not (same share.miner_id (miner_id_from_payout payout)))
        logic_error
    throw_if (conflicts credited payout) logic_error
    ok (some payout)
]

-- `credited[id]`, which makes an empty row.
abbrev pub row_of : Option CreditedWork → CreditedWork
row_of none = record { work = 0; payout = none }
row_of (some row) = row

-- The work of one share, credited to its miner.
unfoldable pub credit_share : Credited → Share → ℕ → Result Credited
credit_share credited share included = do
  let row = row_of (find share.miner_id credited)
  payout ← merge_payout_identity row.payout share
  ok (insert share.miner_id (record { work = row.work + included; payout = payout }) credited)

-- The locals of the loop.
pub record Walk : Type 0 where
  pub remaining : ℕ
  pub included_shares : ℕ
  pub credited : Credited

-- The body of the loop up to the step to the parent.
unfoldable pub include_share : ShareChain → ConnectedShare → Walk → Result Walk
include_share chain current s = do
  require_validated_payout_ancestry chain current
  work ← share_work current.share.share_difficulty
  throw_if (work_to_int work == 0) logic_error
  credited ← credit_share s.credited current.share (min (work_to_int work) s.remaining)
  ok (record {
    remaining = s.remaining - min (work_to_int work) s.remaining;
    included_shares = s.included_shares + 1;
    credited = credited;
  })

-- The loop. Heights fall by one from a share to its parent, so the height above zero is fuel
-- enough.
unfoldable pub walk_window : ℕ → ShareChain → ConnectedShare → Walk → Result Walk
walk_window zero chain current s = ok s
walk_window (suc fuel) chain current s = do
  s1 ← include_share chain current s
  if (s1.remaining == 0) || is_zero_share_id current.share.parent_id
      then ok s1
      else (elim (find current.share.parent_id chain.connected) [
        | none ↦ throws logic_error
        | some parent ↦ walk_window fuel chain parent s1
      ])

-- The start of the walk, none for the zero parent.
unfoldable pub window_start : ShareChain → Bytes → Result (Option ConnectedShare)
window_start chain parent_id =
    if is_zero_share_id parent_id then ok none else (elim (find parent_id chain.connected) [
      | none ↦ throws invalid_argument
      | some current ↦ ok (some current)
    ])

abbrev pub walk_from : ShareChain → Walk → Option ConnectedShare → Result Walk
walk_from chain s none = ok s
walk_from chain s (some current) = walk_window (suc current.share.share_height) chain current s

-- The rows of the window; a row without work is left out.
unfoldable pub miner_rows : Credited → Result (List PplnsMinerWork)
miner_rows [] = ok []
miner_rows ((id, row) ∷ rest) = do
  rows ← miner_rows rest
  if row.work == 0 then ok rows else (do
    work ← int_to_work row.work
    ok (record { miner_id = id; work = work; payout = row.payout } ∷ rows))

unfoldable pub build_pplns_window_at_parent : ShareChain → Bytes → Bytes → Result PplnsWindow
unfolding window_start
build_pplns_window_at_parent chain parent_id requested_work = do
  let requested = work_to_int requested_work
  throw_if (requested == 0) invalid_argument
  start ← window_start chain parent_id
  s ← walk_from chain (record { remaining = requested; included_shares = 0; credited = [] }) start
  covered ← int_to_work (requested - s.remaining)
  rows ← miner_rows s.credited
  ok (record {
    requested_work = requested_work;
    covered_work = covered;
    included_shares = s.included_shares;
    complete = s.remaining == 0;
    miners = rows;
  })

unfoldable pub build_pplns_window : ShareChain → Bytes → Result PplnsWindow
build_pplns_window chain requested_work =
    build_pplns_window_at_parent chain (tip_id (best_tip chain)) requested_work

-- The loop that sums the newest shares' work: the sum and the number of shares.
unfoldable pub recent_work : ℕ → ShareChain → ConnectedShare → Result ℕ
recent_work zero chain current = ok 0
recent_work (suc room) chain current = do
  require_validated_payout_ancestry chain current
  work ← share_work current.share.share_difficulty
  throw_if (work_to_int work == 0) logic_error
  if is_zero_share_id current.share.parent_id
      then ok (work_to_int work)
      else (elim (find current.share.parent_id chain.connected) [
        | none ↦ throws logic_error
        | some parent ↦ recent_work room chain parent >>= λ rest. ok (work_to_int work + rest)
      ])

-- The default `PplnsWindow`.
abbrev pub empty_window : PplnsWindow
empty_window = record {
  requested_work = zeros 32;
  covered_work = zeros 32;
  included_shares = 0;
  complete = false;
  miners = [];
}

unfoldable pub sidechain_window_from :
    ShareChain → Bytes → SidechainParameters → Bytes → ConnectedShare → Result PplnsWindow
sidechain_window_from chain parent_id params network_difficulty current = do
  recent ← recent_work params.pplns_window_shares chain current
  network ← share_work network_difficulty
  let requested = min recent (work_to_int network * params.pplns_max_network_difficulty_multiplier)
  throw_if (requested == 0) logic_error
  requested_work ← int_to_work requested
  result ← build_pplns_window_at_parent chain parent_id requested_work
  throw_if (not result.complete || ltb params.pplns_window_shares result.included_shares)
      logic_error
  ok result

unfoldable pub build_sidechain_pplns_window_at_parent :
    ShareChain → Bytes → SidechainParameters → Bytes → Result PplnsWindow
unfolding sidechain_window_from
build_sidechain_pplns_window_at_parent chain parent_id params network_difficulty = do
  throw_if
      ((params.pplns_window_shares == 0)
        || ltb canonical_pplns_window_shares params.pplns_window_shares)
      invalid_argument
  throw_if (params.pplns_max_network_difficulty_multiplier == 0) invalid_argument
  throw_if (difficulty128_is_zero network_difficulty) invalid_argument
  start ← window_start chain parent_id
  elim start [
    | none ↦ ok empty_window
    | some current ↦ sidechain_window_from chain parent_id params network_difficulty current
  ]

unfoldable pub build_sidechain_pplns_window :
    ShareChain → SidechainParameters → Bytes → Result PplnsWindow
build_sidechain_pplns_window chain params network_difficulty =
    build_sidechain_pplns_window_at_parent chain (tip_id (best_tip chain)) params network_difficulty
