-- ===== src/Coinbase/Destinations.antt =====
-- The destinations of a coinbase plan and their sum.
use zano_p2pool.Prelude.{
  ℕ, suc, ◌+◌, ◌-◌, ◌<◌, ◌≤◌, ◌≡◌, refl, subst, ◌⊎◌, inl, inr, Bool-cases, Option-cases, some, List,
  [], ◌∷◌, ◌++◌, All, arith, ltb, ltb→lt, ◌==◌, length, length-append, All-append,
}
use zano_p2pool.Bytes.{same}
use zano_p2pool.Share.{PayoutPublicKeys, miner_id_from_payout}
use zano_p2pool.SidechainDifficulty.{max64}
use zano_p2pool.Pplns.{PplnsPayout, same_payout}
use zano_p2pool.Coinbase.{
  PplnsCoinbaseDestination, PplnsCoinbasePlanStatus, Filled, stopped, filled, fill_destinations,
  amount_to, add_to, place_operator_fee,
}

unfoldable pub total_paid : List PplnsCoinbaseDestination → ℕ
total_paid [] = 0
total_paid (d ∷ destinations) = d.amount + total_paid destinations

abbrev pub Pays : PplnsCoinbaseDestination → Type 0
Pays d = 0 < d.amount

pub Filled-cases :
    (f : Filled)
    → ((status : PplnsCoinbasePlanStatus) × (f ≡ stopped status))
      ⊎ ((total : ℕ) × (destinations : List PplnsCoinbaseDestination) × (f
            ≡ filled total destinations))
Filled-cases (stopped status) = inl (status, refl)
Filled-cases (filled total destinations) = inr (total, destinations, refl)

-- What was filled in: every destination is paid, and the sum is kept.
pub record IsFilled (before total count : ℕ) (destinations : List PplnsCoinbaseDestination)
    : Type 0 where
  pub sum : total ≡ before + total_paid destinations
  pub same_count : length destinations ≡ count
  pub pays : All Pays destinations

pub fill_destinations-IsFilled :
    (before total : ℕ) (payouts : List PplnsPayout) (destinations : List PplnsCoinbaseDestination)
    → fill_destinations before payouts ≡ filled total destinations
    → IsFilled before total (length payouts) destinations
unfolding fill_destinations total_paid
fill_destinations-IsFilled before total [] destinations h =
    let same_total : before ≡ total = ground (arith, h) in
    let same_destinations : [] ≡ destinations = ground (arith, h) in
    subst (IsFilled before total 0) same_destinations
      (record { sum = omega (arith, same_total); same_count = refl; pays = tt })
fill_destinations-IsFilled before total (p ∷ payouts) destinations h =
    elim (Option-cases p.payout) [
      | inl e ↦ absurd (ground (arith, e))
      | inr (keys, e) ↦ elim (Bool-cases (same p.miner_id (miner_id_from_payout keys))) [
        | inr f ↦ absurd (ground (arith, e, f))
        | inl f ↦ elim (Bool-cases (p.amount == 0)) [
          | inl g ↦ absurd (ground (arith, e, f, g))
          | inr g ↦ elim (Bool-cases (ltb (max64 - before) p.amount)) [
            | inl k ↦ absurd (ground (arith, e, f, g, k))
            | inr k ↦ elim (Filled-cases (fill_destinations (before + p.amount) payouts)) [
              | inl (status, l) ↦ absurd (ground (arith, e, f, g, k, l))
              | inr (rest_total, rest, l) ↦
                  let ih =
                    fill_destinations-IsFilled (before + p.amount) rest_total payouts rest l in
                  let own : PplnsCoinbaseDestination = record {
                    miner_id = p.miner_id;
                    payout = keys;
                    amount = p.amount;
                  } in
                  let same_total : rest_total ≡ total = ground (arith, e, f, g, k, l) in
                  let same_destinations : (own ∷ rest) ≡ destinations =
                    ground (arith, e, f, g, k, l) in
                  subst (IsFilled before total (suc (length payouts))) same_destinations (record {
                    sum = omega (arith, same_total, ih.sum);
                    same_count = omega (arith, ih.same_count);
                    pays = (ground (arith, g), ih.pays);
                  })
            ]
          ]
        ]
      ]
    ]

add_to-sum :
    (fee amount : ℕ) (keys : PayoutPublicKeys) (destinations : List PplnsCoinbaseDestination)
    → amount_to keys destinations ≡ some amount
    → All Pays destinations
    → (total_paid (add_to fee keys destinations) ≡ total_paid destinations + fee)
      × (length (add_to fee keys destinations) ≡ length destinations)
      × All Pays (add_to fee keys destinations)
unfolding amount_to add_to total_paid
add_to-sum fee amount keys [] h a = absurd (ground (arith, h))
add_to-sum fee amount keys (d ∷ destinations) h (here, there) =
    elim (Bool-cases (same_payout d.payout keys)) [
      | inl e ↦ rw e (omega arith, refl, (omega arith, there))
      | inr e ↦
          let (s, l, p) = add_to-sum fee amount keys destinations (rw e at h) there in
          rw e (omega (arith, s), omega (arith, l), (here, p))
    ]

total_paid-append :
    (xs ys : List PplnsCoinbaseDestination) → total_paid (xs ++ ys) ≡ total_paid xs + total_paid ys
unfolding total_paid
total_paid-append [] ys = omega arith
total_paid-append (x ∷ xs) ys = omega (arith, total_paid-append xs ys)

-- What a placed fee leaves: its own sum, at most 32 outputs, none of them empty.
pub record IsPlaced (amount : ℕ) (placed : List PplnsCoinbaseDestination) : Type 0 where
  pub sum : total_paid placed ≡ amount
  pub bounded : length placed ≤ 32
  pub pays : All Pays placed

pub place_operator_fee-IsPlaced :
    (fee total total1 : ℕ) (keys : PayoutPublicKeys)
    (destinations placed : List PplnsCoinbaseDestination)
    → length destinations ≤ 32
    → All Pays destinations
    → place_operator_fee fee keys total destinations ≡ filled total1 placed
    → (total1 ≡ total) × IsPlaced (total_paid destinations + fee) placed
unfolding place_operator_fee total_paid
place_operator_fee-IsPlaced fee total total1 keys destinations placed small a h =
    elim (Bool-cases (fee == 0)) [
      | inl e ↦
          let eq : destinations ≡ placed = ground (arith, e) in
          (
            ground (arith, e),
            subst (IsPlaced (total_paid destinations + fee)) eq
                (record { sum = ground (arith, e); bounded = small; pays = a }),
          )
      | inr e ↦ elim (Option-cases (amount_to keys destinations)) [
        | inr (amount, f) ↦ elim (Bool-cases (ltb (max64 - amount) fee)) [
          | inl g ↦ absurd (ground (arith, e, f, g))
          | inr g ↦
              let (s, l, p) = add_to-sum fee amount keys destinations f a in
              let eq : add_to fee keys destinations ≡ placed = ground (arith, e, f, g) in
              (
                ground (arith, e, f, g),
                subst (IsPlaced (total_paid destinations + fee)) eq
                    (record { sum = s; bounded = omega (arith, l); pays = p }),
              )
        ]
        | inl f ↦ elim (Bool-cases (ltb (length destinations) 32)) [
          | inr g ↦ absurd (ground (arith, e, f, g))
          | inl g ↦
              let own : PplnsCoinbaseDestination = record {
                miner_id = miner_id_from_payout keys;
                payout = keys;
                amount = fee;
              } in
              let eq : destinations ++ (own ∷ []) ≡ placed = ground (arith, e, f, g) in
              (
                ground (arith, e, f, g),
                subst (IsPlaced (total_paid destinations + fee)) eq (record {
                  sum = omega (arith, total_paid-append destinations (own ∷ []));
                  bounded = omega (
                    arith,
                    ltb→lt (length destinations) 32 g,
                    length-append destinations (own ∷ []),
                  );
                  pays = All-append Pays destinations (own ∷ []) a (ground (arith, e), tt);
                }),
              )
        ]
      ]
    ]
