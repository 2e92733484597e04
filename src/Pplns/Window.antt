-- ===== src/Pplns/Window.antt =====
-- The accounting of the payout window.
use zano_p2pool.Prelude.{
  ℕ, zero, suc, ◌+◌, ◌-◌, ◌^◌, ◌≤◌, ◌≡◌, refl, subst, Bool-cases, Option-cases, Result-cases, inl,
  inr, ◌||◌, Option, none, some, List, [], ◌∷◌, ok, arith, ltb, ltb→lt, ◌==◌,
}
use zano_p2pool.Bytes.{Bytes, to_bytes, value}
use zano_p2pool.Bytes.Value.{value-to_bytes}
use zano_p2pool.OrderedMap.{bytes_key, find, insert}
use zano_p2pool.OrderedMap.Sorted.{sum_of, sum_of-insert, IsSorted, insert-IsSorted}
use zano_p2pool.Share.{Share, is_zero_share_id}
use zano_p2pool.Work.{share_work}
use zano_p2pool.Chain.{ShareChain, ConnectedShare}
use zano_p2pool.Pplns.Identity.{Owned, credit_share-Owned}
use zano_p2pool.Pplns.{
  PplnsWindow, PplnsMinerWork, CreditedWork, Credited, Walk, min, work_to_int, int_to_work, row_of,
  merge_payout_identity, credit_share, include_share, walk_window, walk_from, window_start,
  miner_rows, build_pplns_window_at_parent, require_validated_payout_ancestry,
}

abbrev pub credited_work : CreditedWork → ℕ
credited_work row = row.work

-- The work of the miners.
unfoldable pub total_miner_work : List PplnsMinerWork → ℕ
total_miner_work [] = 0
total_miner_work (row ∷ rows) = work_to_int row.work + total_miner_work rows

-- What the walk keeps: credited and remaining work make up the requested work, and payout keys
-- belong to their miners.
pub record Accounts (requested : ℕ) (s : Walk) : Type 0 where
  pub sorted : IsSorted s.credited
  pub balance : sum_of credited_work s.credited + s.remaining ≡ requested
  pub owned : Owned s.credited

credit_share-sum :
    (credited new : Credited) (share : Share) (included : ℕ)
    → IsSorted credited
    → credit_share credited share included ≡ ok new
    → IsSorted new × (sum_of credited_work new ≡ sum_of credited_work credited + included)
unfolding credit_share
credit_share-sum credited new share included sorted h =
    elim (Result-cases
      (merge_payout_identity (row_of (find share.miner_id credited)).payout share)) [
        | inr (x, e) ↦ absurd (ground (arith, e))
        | inl (payout, e) ↦
            let row = row_of (find share.miner_id credited) in
            let added : CreditedWork = record { work = row.work + included; payout = payout } in
            let eq : insert share.miner_id added credited ≡ new = ground (arith, e) in
            (
              subst IsSorted eq (insert-IsSorted share.miner_id added credited sorted),
              subst (λ m. sum_of credited_work m ≡ sum_of credited_work credited + included) eq
                  (elim (Option-cases (find share.miner_id credited)) [
                    | inl f ↦
                        ground (
                          arith,
                          f,
                          sum_of-insert credited_work share.miner_id added credited sorted,
                        )
                    | inr (old, f) ↦
                        ground (
                          arith,
                          f,
                          sum_of-insert credited_work share.miner_id added credited sorted,
                        )
                  ]),
            )
      ]

min-le : (a b : ℕ) → min a b ≤ b
min-le a b = ground arith

include_share-Accounts :
    (chain : ShareChain) (current : ConnectedShare) (requested : ℕ) (s s1 : Walk)
    → Accounts requested s
    → include_share chain current s ≡ ok s1
    → Accounts requested s1
unfolding include_share require_validated_payout_ancestry
include_share-Accounts chain current requested s s1 a h =
    elim (Result-cases (require_validated_payout_ancestry chain current)) [
      | inr (x, e) ↦ absurd (ground (arith, e))
      | inl (u, e) ↦ elim (Result-cases (share_work current.share.share_difficulty)) [
        | inr (x, f) ↦ absurd (ground (arith, e, f))
        | inl (work, f) ↦ elim (Bool-cases (work_to_int work == 0)) [
          | inl g ↦ absurd (ground (arith, e, f, g))
          | inr g ↦
              let included = min (work_to_int work) s.remaining in
              elim (Result-cases (credit_share s.credited current.share included)) [
                | inr (x, k) ↦ absurd (ground (arith, e, f, g, k))
                | inl (credited, k) ↦
                    let (sorted, sum) =
                      credit_share-sum s.credited credited current.share included a.sorted k in
                    let own : Walk = record {
                      remaining = s.remaining - included;
                      included_shares = s.included_shares + 1;
                      credited = credited;
                    } in
                    let eq : own ≡ s1 = ground (arith, e, f, g, k) in
                    subst (Accounts requested) eq (record {
                      sorted = sorted;
                      balance =
                          omega (arith, sum, a.balance, min-le (work_to_int work) s.remaining);
                      owned =
                          credit_share-Owned s.credited credited current.share included a.owned k;
                    })
              ]
        ]
      ]
    ]

walk_window-Accounts :
    (fuel : ℕ) (chain : ShareChain) (current : ConnectedShare) (requested : ℕ) (s s1 : Walk)
    → Accounts requested s
    → walk_window fuel chain current s ≡ ok s1
    → Accounts requested s1
unfolding walk_window
walk_window-Accounts zero chain current requested s s1 a h =
    subst (Accounts requested) (ground (arith, h)) a
walk_window-Accounts (suc fuel) chain current requested s s1 a h =
    elim (Result-cases (include_share chain current s)) [
      | inr (x, e) ↦ absurd (ground (arith, e))
      | inl (s2, e) ↦
          let a2 = include_share-Accounts chain current requested s s2 a e in
          elim (Bool-cases ((s2.remaining == 0) || is_zero_share_id current.share.parent_id)) [
            | inl stop ↦ subst (Accounts requested) (ground (arith, e, stop)) a2
            | inr go ↦ elim (Option-cases (find current.share.parent_id chain.connected)) [
              | inl f ↦ absurd (ground (arith, e, go, f))
              | inr (parent, f) ↦
                  walk_window-Accounts fuel chain parent requested s2 s1 a2
                    (ground (arith, e, go, f))
            ]
          ]
    ]

pub walk_from-Accounts :
    (chain : ShareChain) (requested : ℕ) (s s1 : Walk) (start : Option ConnectedShare)
    → Accounts requested s
    → walk_from chain s start ≡ ok s1
    → Accounts requested s1
walk_from-Accounts chain requested s s1 none a h = subst (Accounts requested) (ground (arith, h)) a
walk_from-Accounts chain requested s s1 (some current) a h =
    walk_window-Accounts (suc current.share.share_height) chain current requested s s1 a h

pub int_to_work-value : (n : ℕ) (work : Bytes) → int_to_work n ≡ ok work → value work ≡ n
unfolding int_to_work
int_to_work-value n work h = elim (Bool-cases (ltb n (2 ^ 256))) [
  | inr e ↦ absurd (ground (arith, e))
  | inl e ↦
      let eq : to_bytes 32 n ≡ work = ground (arith, e) in
      subst (λ w. value w ≡ n) eq (value-to_bytes 32 n (ltb→lt n (2 ^ 256) e))
]

miner_rows-sum :
    (credited : Credited) (rows : List PplnsMinerWork)
    → miner_rows credited ≡ ok rows
    → total_miner_work rows ≡ sum_of credited_work credited
unfolding miner_rows sum_of total_miner_work
miner_rows-sum [] rows h =
    let eq : [] ≡ rows = ground (arith, h) in subst (λ r. total_miner_work r ≡ 0) eq refl
miner_rows-sum ((id, row) ∷ rest) rows h = elim (Result-cases (miner_rows rest)) [
  | inr (x, e) ↦ absurd (ground (arith, e))
  | inl (others, e) ↦ elim (Bool-cases (row.work == 0)) [
    | inl f ↦
        let eq : others ≡ rows = ground (arith, e, f) in
        subst (λ r. total_miner_work r ≡ row.work + sum_of credited_work rest) eq
          (ground (arith, f, miner_rows-sum rest others e))
    | inr f ↦ elim (Result-cases (int_to_work row.work)) [
      | inr (x, g) ↦ absurd (ground (arith, e, f, g))
      | inl (work, g) ↦
          let own : PplnsMinerWork = record { miner_id = id; work = work; payout = row.payout } in
          let eq : (own ∷ others) ≡ rows = ground (arith, e, f, g) in
          subst (λ r. total_miner_work r ≡ row.work + sum_of credited_work rest) eq
            (omega (arith, int_to_work-value row.work work g, miner_rows-sum rest others e))
    ]
  ]
]

-- The books of a window.
pub record Balances (requested_work : Bytes) (w : PplnsWindow) : Type 0 where
  pub same_request : w.requested_work ≡ requested_work
  pub credited_in_full : total_miner_work w.miners ≡ value w.covered_work
  pub not_above : value w.covered_work ≤ value requested_work
  pub complete_iff : w.complete ≡ (value w.covered_work == value requested_work)

pub start-Accounts :
    (requested : ℕ)
    → Accounts requested (record { remaining = requested; included_shares = 0; credited = [] })
unfolding sum_of
start-Accounts requested = record { sorted = tt; balance = omega arith; owned = tt }

window-Balances :
    (requested_work : Bytes) (s : Walk) (covered : Bytes) (rows : List PplnsMinerWork)
    → Accounts (work_to_int requested_work) s
    → int_to_work (work_to_int requested_work - s.remaining) ≡ ok covered
    → miner_rows s.credited ≡ ok rows
    → Balances requested_work (record {
      requested_work = requested_work;
      covered_work = covered;
      included_shares = s.included_shares;
      complete = s.remaining == 0;
      miners = rows;
    })
window-Balances requested_work s covered rows a k l =
    let v = int_to_work-value (work_to_int requested_work - s.remaining) covered k in
    record {
      same_request = refl;
      credited_in_full = omega (arith, v, a.balance, miner_rows-sum s.credited rows l);
      not_above = omega (arith, v);
      complete_iff = ground (arith, v, a.balance);
    }

-- When `build_pplns_window_at_parent` returns a window, its miners are credited, together, with
-- exactly the covered work, which is at most the requested work, and the window is complete
-- exactly if the two are equal.
pub build_pplns_window-Balances :
    (chain : ShareChain) (parent_id requested_work : Bytes) (w : PplnsWindow)
    → build_pplns_window_at_parent chain parent_id requested_work ≡ ok w
    → Balances requested_work w
unfolding build_pplns_window_at_parent
build_pplns_window-Balances chain parent_id requested_work w h =
    elim (Bool-cases (work_to_int requested_work == 0)) [
      | inl e ↦ absurd (ground (arith, e))
      | inr e ↦ elim (Result-cases (window_start chain parent_id)) [
        | inr (x, f) ↦ absurd (ground (arith, e, f))
        | inl (start, f) ↦
            let requested = work_to_int requested_work in
            let s0 : Walk = record { remaining = requested; included_shares = 0; credited = [] } in
            elim (Result-cases (walk_from chain s0 start)) [
              | inr (x, g) ↦ absurd (ground (arith, e, f, g))
              | inl (s, g) ↦
                  let a =
                    walk_from-Accounts chain requested s0 s start (start-Accounts requested) g in
                  elim (Result-cases (int_to_work (requested - s.remaining))) [
                    | inr (x, k) ↦ absurd (ground (arith, e, f, g, k))
                    | inl (covered, k) ↦ elim (Result-cases (miner_rows s.credited)) [
                      | inr (x, l) ↦ absurd (ground (arith, e, f, g, k, l))
                      | inl (rows, l) ↦
                          let own : PplnsWindow = record {
                            requested_work = requested_work;
                            covered_work = covered;
                            included_shares = s.included_shares;
                            complete = s.remaining == 0;
                            miners = rows;
                          } in
                          let eq : own ≡ w = ground (arith, e, f, g, k, l) in
                          subst (Balances requested_work) eq
                            (window-Balances requested_work s covered rows a k l)
                    ]
                  ]
            ]
      ]
    ]
