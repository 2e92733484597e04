-- ===== src/Coinbase/Plan.antt =====
-- The outcomes of `make_pplns_coinbase_plan`.
use zano_p2pool.Prelude.{
  ℕ, ◌+◌, ◌-◌, ◌<◌, ◌≤◌, ◌≡◌, refl, subst, ◌⊎◌, inl, inr, Bool-cases, Option-cases, Result-cases,
  Bool, true, false, ==_iff, ◌||◌, Option, none, some, List, [], ◌∷◌, All, ok, arith, ltb, ltb→lt,
  ◌==◌, length,
}
use zano_p2pool.Share.{PayoutPublicKeys}
use zano_p2pool.SidechainDifficulty.{max64}
use zano_p2pool.Params.{SidechainParameters, serialize_sidechain_parameters}
use zano_p2pool.Pplns.{PplnsWindow, PplnsPayout}
use zano_p2pool.Reward.{allocate_pplns_reward}
use zano_p2pool.Coinbase.{
  PplnsCoinbaseDestination, PplnsCoinbasePlan, PplnsCoinbasePlanStatus, stopped, filled, ready,
  fill_destinations, amount_to, place_operator_fee, add_operator_fee, plan_payouts, plan_with_fee,
  make_pplns_coinbase_plan, calculate_basis_point_share, is_nil,
}
use zano_p2pool.Coinbase.Destinations.{
  total_paid, Pays, Filled-cases, fill_destinations-IsFilled, place_operator_fee-IsPlaced,
}

abbrev pub is_ready : PplnsCoinbasePlanStatus → Bool
is_ready ready = true
is_ready _ = false

-- A plan either pays exactly the reward to at most 32 destinations, each with a positive amount,
-- or has no destination and is not ready.
abbrev pub IsPlan : ℕ → PplnsCoinbasePlan → Type 0
IsPlan reward plan =
    ((plan.status ≡ ready)
      × (total_paid plan.destinations ≡ reward)
      × (length plan.destinations ≤ 32)
      × All Pays plan.destinations)
    ⊎ ((is_ready plan.status ≡ false) × (plan.destinations ≡ []))

stopped-not_ready :
    (before : ℕ) (payouts : List PplnsPayout) (status : PplnsCoinbasePlanStatus)
    → fill_destinations before payouts ≡ stopped status
    → is_ready status ≡ false
unfolding fill_destinations
stopped-not_ready before [] status h = absurd (ground (arith, h))
stopped-not_ready before (p ∷ payouts) status h = elim (Option-cases p.payout) [
  | inl e ↦ ground (arith, e)
  | inr (keys, e) ↦ elim (Filled-cases (fill_destinations (before + p.amount) payouts)) [
    | inl (other, l) ↦ ground (arith, e, l, stopped-not_ready (before + p.amount) payouts other l)
    | inr (total, rest, l) ↦ ground (arith, e, l)
  ]
]

place-not_ready :
    (fee total : ℕ) (keys : PayoutPublicKeys) (destinations : List PplnsCoinbaseDestination)
    (status : PplnsCoinbasePlanStatus)
    → place_operator_fee fee keys total destinations ≡ stopped status
    → is_ready status ≡ false
unfolding place_operator_fee
place-not_ready fee total keys destinations status h =
    elim (Option-cases (amount_to keys destinations)) [
      | inl e ↦ ground (arith, e)
      | inr (amount, e) ↦ ground (arith, e)
    ]

small_count : (n m shares : ℕ) → m ≡ n → (ltb 31 n || ltb shares n) ≡ false → m ≤ 32
small_count n m shares h e = ground arith

add_operator_fee-IsPlan :
    (reward fee total : ℕ) (keys : PayoutPublicKeys) (destinations : List PplnsCoinbaseDestination)
    → fee < reward
    → total ≡ total_paid destinations
    → length destinations ≤ 32
    → All Pays destinations
    → IsPlan reward (add_operator_fee reward fee keys (filled total destinations))
add_operator_fee-IsPlan reward fee total keys destinations below sum small a =
    elim (Bool-cases (total == reward - fee)) [
      | inr e ↦ rw e (inr (refl, refl))
      | inl e ↦ elim (Filled-cases (place_operator_fee fee keys total destinations)) [
        | inl (status, f) ↦
            rw (e, f) (inr (place-not_ready fee total keys destinations status f, refl))
        | inr (total1, placed, f) ↦
            let (same_total, p) =
              place_operator_fee-IsPlaced fee total total1 keys destinations placed small a f in
            elim (Bool-cases (ltb (max64 - total1) fee)) [
              | inl g ↦ rw (e, f, g) (inr (refl, refl))
              | inr g ↦ elim (Bool-cases (total1 + fee == reward)) [
                | inr k ↦ rw (e, f, g, k) (inr (refl, refl))
                | inl k ↦
                    rw (e, f, g, k)
                      (inl (
                        refl,
                        omega (arith, p.sum, sum, same_total, (==_iff (total1 + fee) reward).0 k),
                        p.bounded,
                        p.pays,
                      ))
              ]
            ]
      ]
    ]

plan_payouts-IsPlan :
    (reward fee : ℕ) (params : SidechainParameters) (payouts : List PplnsPayout)
    → fee < reward
    → IsPlan reward (plan_payouts reward fee params payouts)
unfolding plan_payouts
plan_payouts-IsPlan reward fee params [] below = inr (refl, refl)
plan_payouts-IsPlan reward fee params (p ∷ payouts) below =
    elim (Bool-cases
      (ltb 31 (length (p ∷ payouts)) || ltb params.pplns_window_shares (length (p ∷ payouts)))) [
        | inl e ↦ rw e (inr (refl, refl))
        | inr e ↦ elim (Filled-cases (fill_destinations 0 (p ∷ payouts))) [
          | inl (status, f) ↦ rw (e, f) (inr (stopped-not_ready 0 (p ∷ payouts) status f, refl))
          | inr (total, destinations, f) ↦
              let a = fill_destinations-IsFilled 0 total (p ∷ payouts) destinations f in
              rw (e, f)
                (add_operator_fee-IsPlan reward fee total params.operator_fee_payout destinations
                  below (omega (arith, a.sum))
                  (small_count (length (p ∷ payouts)) (length destinations)
                    params.pplns_window_shares a.same_count e)
                  a.pays)
        ]
      ]

plan_with_fee-IsPlan :
    (window : PplnsWindow) (reward : ℕ) (params : SidechainParameters) (plan : PplnsCoinbasePlan)
    (fee : Option ℕ)
    → plan_with_fee window reward params fee ≡ ok plan
    → IsPlan reward plan
unfolding plan_with_fee
plan_with_fee-IsPlan window reward params plan none h = inr (ground (arith, h), ground (arith, h))
plan_with_fee-IsPlan window reward params plan (some fee) h = elim (Bool-cases (ltb fee reward)) [
  | inr e ↦ inr (ground (arith, e), ground (arith, e))
  | inl e ↦ elim (Result-cases (allocate_pplns_reward window (reward - fee))) [
    | inr (x, f) ↦ absurd (ground (arith, e, f))
    | inl (payouts, f) ↦
        let eq : plan_payouts reward fee params payouts ≡ plan = ground (arith, e, f) in
        subst (IsPlan reward) eq
          (plan_payouts-IsPlan reward fee params payouts (ltb→lt fee reward e))
  ]
]

-- When `make_pplns_coinbase_plan` returns, the plan is ready and pays exactly the reward to at
-- most 32 destinations with positive amounts, or it is not ready and has no destination.
pub make_pplns_coinbase_plan-IsPlan :
    (window : PplnsWindow) (reward : ℕ) (params : SidechainParameters) (plan : PplnsCoinbasePlan)
    → make_pplns_coinbase_plan window reward params ≡ ok plan
    → IsPlan reward plan
unfolding make_pplns_coinbase_plan plan_with_fee
make_pplns_coinbase_plan-IsPlan window reward params plan h =
    elim (Result-cases (serialize_sidechain_parameters params)) [
      | inr (x, e) ↦ absurd (ground (arith, e))
      | inl (serialized, e) ↦ elim (Bool-cases (is_nil window.miners)) [
        | inl f ↦ inr (ground (arith, e, f), ground (arith, e, f))
        | inr f ↦ elim (Bool-cases window.complete) [
          | inr g ↦ inr (ground (arith, e, f, g), ground (arith, e, f, g))
          | inl g ↦
              plan_with_fee-IsPlan window reward params plan
                (calculate_basis_point_share reward params.operator_fee_basis_points)
                (ground (arith, e, f, g))
        ]
      ]
    ]
