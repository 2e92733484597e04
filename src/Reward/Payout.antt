-- ===== src/Reward/Payout.antt =====
-- From the chain to the payouts: a window that `build_pplns_window_at_parent` of src/pplns.cpp
-- returns has rows that `allocate_pplns_reward` aggregates without a conflict.
use zano_p2pool.Prelude.{
  ℕ, ◌+◌, ◌-◌, ◌^◌, ◌≡◌, ◌<◌, refl, ◌∙◌, ap, subst, Bool-cases, Option-cases, inl, inr, false, not,
  none, some, List, [], ◌∷◌, ok, arith, bind-ok, guard-ok, ok-injective, ltb, ◌==◌, ltb→lt,
}
use zano_p2pool.Bytes.{Bytes, same, value}
use zano_p2pool.Bytes.Order.{same_refl}
use zano_p2pool.OrderedMap.{bytes_key, find, insert}
use zano_p2pool.OrderedMap.Laws.{find-insert}
use zano_p2pool.OrderedMap.Sorted.{IsSorted, After-found, insert-IsSorted, sum_of, sum_of-insert}
use zano_p2pool.Chain.{ShareChain}
use zano_p2pool.Pplns.{
  PplnsMinerWork, PplnsWindow, PplnsPayout, CreditedWork, Credited, Walk, int_to_work, work_to_int,
  miner_rows, window_start, walk_from, build_pplns_window_at_parent,
}
use zano_p2pool.Pplns.Identity.{OwnKeys, Owned}
use zano_p2pool.Pplns.Window.{
  Accounts, start-Accounts, walk_from-Accounts, int_to_work-value, total_miner_work,
  build_pplns_window-Balances,
}
use zano_p2pool.Reward.{
  merge_row_payout, aggregate_row, aggregate_rows, total_credited, work_of, allocate_pplns_reward,
}
use zano_p2pool.Reward.Exact.{total_amount, allocate-exact}

-- No key of the map is in the other.
abbrev Fresh : Credited → Credited → Type 0
Fresh acc m = (id : Bytes) (row : CreditedWork) → find id m ≡ some row → find id acc ≡ none

-- The rows are added to the map, all of their work with them.
abbrev Aggregates : Credited → List PplnsMinerWork → Type 0
Aggregates acc rows =
    (new : Credited) × (aggregate_rows acc rows ≡ ok new)
    × (total_credited new ≡ total_credited acc + total_miner_work rows)

aggregate_row-new :
    (acc : Credited) (row : PplnsMinerWork)
    → IsSorted acc
    → find row.miner_id acc ≡ none
    → OwnKeys row.miner_id row.payout
    → (work_to_int row.work == 0) ≡ false
    → (w : CreditedWork) × (aggregate_row acc row ≡ ok (insert row.miner_id w acc))
      × (total_credited (insert row.miner_id w acc) ≡ total_credited acc + work_to_int row.work)
unfolding aggregate_row merge_row_payout total_credited
aggregate_row-new acc row sorted gone own positive =
    let w : CreditedWork = record { work = 0 + work_to_int row.work; payout = row.payout } in
    (
      w,
      elim (Option-cases row.payout) [
        | inl e ↦ rw (aggregate_row, merge_row_payout, positive, e, gone) refl
        | inr (p, e) ↦ rw (aggregate_row, merge_row_payout, positive, e, own p e, gone) refl
      ],
      ground (arith, gone, sum_of-insert work_of row.miner_id w acc sorted),
    )

rows-Aggregates :
    (m acc : Credited) (rows : List PplnsMinerWork)
    → IsSorted m
    → IsSorted acc
    → Owned m
    → Fresh acc m
    → miner_rows m ≡ ok rows
    → Aggregates acc rows
unfolding miner_rows aggregate_rows total_miner_work find
rows-Aggregates [] acc rows sorted acc_sorted owned fresh h =
    subst (Aggregates acc) (ok-injective h) (acc, refl, omega arith)
rows-Aggregates ((id, row) ∷ m) acc rows sorted acc_sorted owned fresh h =
    let (others, rest, k) = bind-ok (miner_rows m) _ h in
    let later : (j : Bytes) (v : CreditedWork) → find j m ≡ some v → same id j ≡ false =
      λ j v there. After-found id j m sorted.0 there in
    let tail : Fresh acc m = λ j v there. fresh j v (rw (later j v there) there) in
    elim (Bool-cases (row.work == 0)) [
      | inl e ↦
          subst (Aggregates acc) (ok-injective (rw e at k))
            (rows-Aggregates m acc others sorted.1 acc_sorted owned.1 tail rest)
      | inr e ↦
          let (work, fits, k1) = bind-ok (int_to_work row.work) _ (rw e at k) in
          let own : PplnsMinerWork = record { miner_id = id; work = work; payout = row.payout } in
          let here = fresh id row (rw (same_refl id) refl) in
          let worth = int_to_work-value row.work work fits in
          let (w, added, sum) =
            aggregate_row-new acc own acc_sorted here owned.0 (ap (λ n. n == 0) worth ∙ e) in
          let next : Fresh (insert id w acc) m =
            λ j v there. find-insert j id w acc ∙ rw (later j v there) (tail j v there) in
          let (new, all, total) =
            rows-Aggregates m (insert id w acc) others sorted.1
              (insert-IsSorted id w acc acc_sorted) owned.1 next rest in
          subst (Aggregates acc) (ok-injective k1)
            (new, rw (aggregate_rows, added) all, omega (arith, total, sum))
    ]

-- The walk behind a window that is returned.
abbrev Walked : ShareChain → Bytes → Bytes → PplnsWindow → Type 0
Walked chain parent_id requested_work w =
    (s : Walk) × Accounts (work_to_int requested_work) s
    × (int_to_work (work_to_int requested_work - s.remaining) ≡ ok w.covered_work)
    × (miner_rows s.credited ≡ ok w.miners)

window-Walked :
    (chain : ShareChain) (parent_id requested_work : Bytes) (w : PplnsWindow)
    → build_pplns_window_at_parent chain parent_id requested_work ≡ ok w
    → Walked chain parent_id requested_work w
unfolding build_pplns_window_at_parent
window-Walked chain parent_id requested_work w h =
    let requested = work_to_int requested_work in
    let s0 : Walk = record { remaining = requested; included_shares = 0; credited = [] } in
    let (some_work, h1) = guard-ok (requested == 0) _ _ h in
    let (start, started, h2) = bind-ok (window_start chain parent_id) _ h1 in
    let (s, walked, h3) = bind-ok (walk_from chain s0 start) _ h2 in
    let (covered, fits, h4) = bind-ok (int_to_work (requested - s.remaining)) _ h3 in
    let (rows, listed, h5) = bind-ok (miner_rows s.credited) _ h4 in
    let accounts =
      walk_from-Accounts chain requested s0 s start (start-Accounts requested) walked in
    subst (Walked chain parent_id requested_work) (ok-injective h5) (s, accounts, fits, listed)

int_to_work-lt : (n : ℕ) (work : Bytes) → int_to_work n ≡ ok work → n < 2 ^ 256
unfolding int_to_work
int_to_work-lt n work h =
    let (fits, _) = guard-ok (not (ltb n (2 ^ 256))) _ _ h in
    ltb→lt n (2 ^ 256) (ground (arith, fits))

-- If `build_pplns_window_at_parent` returns a window that covers some work,
-- `allocate_pplns_reward` returns payouts for it, without a conflict between its rows, and their
-- amounts add up to the reward exactly.
pub window-allocate :
    (chain : ShareChain) (parent_id requested_work : Bytes) (reward : ℕ) (w : PplnsWindow)
    → build_pplns_window_at_parent chain parent_id requested_work ≡ ok w
    → 0 < value w.covered_work
    → (payouts : List PplnsPayout) × (allocate_pplns_reward w reward ≡ ok payouts)
      × (total_amount payouts ≡ reward)
unfolding total_credited sum_of find
window-allocate chain parent_id requested_work reward w h positive =
    let (s, accounts, fits, listed) = window-Walked chain parent_id requested_work w h in
    let balances = build_pplns_window-Balances chain parent_id requested_work w h in
    let (credited, added, total) =
      rows-Aggregates s.credited [] w.miners accounts.sorted tt accounts.owned
        (λ id row there. refl) listed in
    let covered =
      int_to_work-value (work_to_int requested_work - s.remaining) w.covered_work fits in
    let small = int_to_work-lt (work_to_int requested_work - s.remaining) w.covered_work fits in
    allocate-exact w reward credited added (omega (arith, total, balances.credited_in_full))
      (omega (arith, total, balances.credited_in_full, covered, small))
