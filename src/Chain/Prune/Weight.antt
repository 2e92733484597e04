-- ===== src/Chain/Prune/Weight.antt =====
-- Why the fuel of `prune_connected_subtree_ids` is enough, and what is removed with it.
use zano_p2pool.Prelude.{
  ℕ, zero, suc, ◌+◌, ◌-◌, ◌*◌, ◌^◌, ◌≤◌, ◌<◌, ◌≡◌, ◌↔◌, refl, sym, ◌∙◌, ap, subst, Bool-cases,
  Option-cases, inl, inr, true, some, [], ◌∷◌, arith, length, ltb, some-injective, ltb→lt,
}
use native.Mathlib.Nat.{pow-suc, pow-zero}
use zano_p2pool.Bytes.{Bytes, same}
use zano_p2pool.Bytes.Order.{same_iff, same_refl}
use zano_p2pool.OrderedMap.{bytes_key, find}
use zano_p2pool.OrderedMap.Sorted.{IsSorted}
use zano_p2pool.Chain.{ShareChain, ConnectedShare}
use zano_p2pool.Chain.Invariant.{Connected, IsValid}
use zano_p2pool.Chain.Ancestry.{parent_of_connected}
use zano_p2pool.Chain.Prune.{children_from, max_height, height_of, subtree_fuel, removed_ids}
use zano_p2pool.Chain.Prune.Subtree.{elem, kids, length-kids-le, IsKid, kids-IsKid}
use zano_p2pool.Chain.Prune.Closure.{
  Descends, itself, above, total_weight, total_weight-le, collect-closed, collect-keeps,
  collect-Descends,
}

height-le-max :
    (id : Bytes) (c : ConnectedShare) (m : Connected)
    → find id m ≡ some c
    → c.share.share_height ≤ max_height m
unfolding find max_height
height-le-max id c [] h = cc
height-le-max id c ((j, w) ∷ m) h = elim (Bool-cases (same j id)) [
  | inl e ↦
      let own : w ≡ c = ground (arith, e) in
      subst (λ x. x.share.share_height ≤ max_height ((j, w) ∷ m)) own (ground (arith, max_height))
  | inr e ↦ let later = height-le-max id c m (rw (find, e) at h) in ground (arith, later)
]

power-pos : (n k : ℕ) → 0 < suc n ^ k
power-pos n zero = omega (arith, pow-zero (suc n))
power-pos n (suc k) = let rest = power-pos n k in rw (pow-suc (suc n) k) (grind arith)

abbrev power_above : Connected → ℕ → ℕ
power_above m height = suc (length m) ^ (max_height m - height)

-- The fuel that a share and all above it take.
abbrev weight_in : Connected → Bytes → ℕ
weight_in m id = power_above m (height_of (find id m))

scaled : (n limit x : ℕ) → 0 < x → n ≤ limit → n * x < x * suc limit
scaled n limit x h k = grind arith

-- One step up divides the power.
power_above-step :
    (m : Connected) (height n : ℕ)
    → height < max_height m
    → n ≤ length m
    → n * power_above m (height + 1) < power_above m height
power_above-step m height n below few =
    let k = max_height m - (height + 1) in
    let up : max_height m - height ≡ suc k = omega arith in
    let positive = power-pos (length m) k in
    rw (up, pow-suc (suc (length m)) k) (scaled n (length m) (suc (length m) ^ k) positive few)

-- A child is one higher than its parent, which is connected.
kid_height :
    (chain : ShareChain) (parent id : Bytes)
    → IsValid chain
    → IsKid chain.connected parent id
    → (p : ConnectedShare) × (find parent chain.connected ≡ some p)
      × (height_of (find id chain.connected) ≡ p.share.share_height + 1)
      × (p.share.share_height < max_height chain.connected)
kid_height chain parent id v (c, found, child, own) =
    let (p, there, lower) = parent_of_connected chain id c v found child in
    (
      p,
      subst (λ k. find k chain.connected ≡ some p) own there,
      ap height_of found ∙ lower,
      omega (arith, lower, height-le-max id c chain.connected found),
    )

-- One higher than the parent, and not above the highest share.
abbrev KidOf : Connected → ConnectedShare → Bytes → Type 0
KidOf m p id =
    (height_of (find id m) ≡ p.share.share_height + 1) × (p.share.share_height < max_height m)

lighter_kids :
    (chain : ShareChain) (id : Bytes)
    → IsValid chain
    → IsSorted chain.connected
    → total_weight (weight_in chain.connected) (kids id chain.connected)
      < weight_in chain.connected id
lighter_kids chain id v sorted =
    let m = chain.connected in
    elim (Option-cases (find id m)) [
      | inl gone ↦
          let none_there = total_weight-le (weight_in m) 0 (kids id m) (λ j h.
            let (p, there, _, _) = kid_height chain id j v (kids-IsKid id m j sorted h) in
            absurd (cc (gone, there))) in
          let positive = power-pos (length m) (max_height m - height_of (find id m)) in omega arith
      | inr (p, here) ↦
          let at_id : weight_in m id ≡ power_above m p.share.share_height =
            ap (λ o. power_above m (height_of o)) here in
          let kid : (j : Bytes) → elem j (kids id m) ≡ true → KidOf m p j = λ j h.
            let (q, there, height, below) = kid_height chain id j v (kids-IsKid id m j sorted h) in
            let own : q ≡ p = some-injective (sym there ∙ here) in
            subst (λ x. KidOf m x j) own (height, below) in
          elim (Bool-cases (ltb p.share.share_height (max_height m))) [
            | inl below ↦
                let each =
                  total_weight-le (weight_in m) (power_above m (p.share.share_height + 1))
                    (kids id m)
                    (λ j h. let same_height = ap (power_above m) (kid j h).0 in omega arith) in
                let step =
                  power_above-step m p.share.share_height (length (kids id m))
                    (ltb→lt p.share.share_height (max_height m) below) (length-kids-le id m) in
                omega arith
            | inr top ↦
                let none_there =
                  total_weight-le (weight_in m) 0 (kids id m)
                    (λ j h. let high = (kid j h).1 in absurd (ground (arith, high, top))) in
                let positive = power-pos (length m) (max_height m - p.share.share_height) in
                omega arith
          ]
    ]

-- What stands on a removed share is removed.
pub removed_ids-closed :
    (chain : ShareChain) (root parent id : Bytes)
    → IsValid chain
    → IsSorted chain.connected
    → elem parent (removed_ids chain.connected root) ≡ true
    → IsKid chain.connected parent id
    → elem id (removed_ids chain.connected root) ≡ true
unfolding removed_ids
removed_ids-closed chain root parent id v sorted =
    let m = chain.connected in
    collect-closed m (weight_in m) (λ j. lighter_kids chain j v sorted) (subtree_fuel m root)
      (root ∷ []) parent id (omega arith)

Descends-removed :
    (chain : ShareChain) (root id : Bytes)
    → IsValid chain
    → IsSorted chain.connected
    → Descends chain.connected root id
    → elem id (removed_ids chain.connected root) ≡ true
unfolding removed_ids
Descends-removed chain root id v sorted itself =
    collect-keeps (subtree_fuel chain.connected root) (children_from chain.connected []) (root ∷ [])
      root (rw (same_refl root) refl)
Descends-removed chain root _ v sorted (above parent id d kid) =
    removed_ids-closed chain root parent id v sorted (Descends-removed chain root parent v sorted d)
      kid

-- What `prune_connected_subtree_ids` removes is the share and all that stands on it.
pub removed_ids_iff :
    (chain : ShareChain) (root id : Bytes)
    → IsValid chain
    → IsSorted chain.connected
    → (elem id (removed_ids chain.connected root) ≡ true) ↔ Descends chain.connected root id
unfolding removed_ids
removed_ids_iff chain root id v sorted =
    let m = chain.connected in
    (
      collect-Descends (subtree_fuel m root) m root (root ∷ []) sorted
          (λ j h. subst (Descends m root) ((same_iff root j).0 (ground (arith, h))) itself) id,
      Descends-removed chain root id v sorted,
    )
