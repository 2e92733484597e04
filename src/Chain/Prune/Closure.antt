-- ===== src/Chain/Prune/Closure.antt =====
-- The ids that `prune_connected_subtree_ids` removes are those of the share and all above it.
use zano_p2pool.Prelude.{
  ℕ, zero, suc, ◌+◌, ◌*◌, ◌≤◌, ◌<◌, ◌≡◌, refl, sym, ◌∙◌, subst, Bool-cases, inl, inr, true, List,
  [], ◌∷◌, ◌++◌, arith, length,
}
use zano_p2pool.Bytes.{Bytes, same}
use zano_p2pool.Bytes.Order.{same_iff, same_refl}
use zano_p2pool.OrderedMap.{bytes_key, OrderedMap, find}
use zano_p2pool.OrderedMap.Sorted.{IsSorted}
use zano_p2pool.Chain.Connect.{children_of}
use zano_p2pool.Chain.Invariant.{Connected}
use zano_p2pool.Chain.Prune.{children_from, collect}
use zano_p2pool.Chain.Prune.Subtree.{
  elem, elem-append, elem-later, kids, children-kids, IsKid, kids-IsKid, IsKid-kids,
}

-- A share that stands on the root, by a chain of connected children.
pub data Descends (m : Connected) (root : Bytes) : Bytes → Type 0 where
  itself : Descends m root root
  above : (parent id : Bytes) → Descends m root parent → IsKid m parent id → Descends m root id

-- What is collected stands on the root.
pub collect-Descends :
    (fuel : ℕ) (m : Connected) (root : Bytes) (todo : List Bytes)
    → IsSorted m
    → ((id : Bytes) → elem id todo ≡ true → Descends m root id)
    → (id : Bytes) → elem id (collect fuel (children_from m []) todo) ≡ true
    → Descends m root id
unfolding collect
collect-Descends zero m root todo sorted all id h = all id h
collect-Descends (suc fuel) m root [] sorted all id h = all id h
collect-Descends (suc fuel) m root (i ∷ todo) sorted all id h = elim (Bool-cases (same i id)) [
  | inl e ↦ all id (rw e refl)
  | inr e ↦
      collect-Descends fuel m root (todo ++ children_of (find i (children_from m []))) sorted
        (λ j there. elim (Bool-cases (elem j todo)) [
          | inl f ↦ all j (elem-later j i todo f)
          | inr f ↦ above i j (all i (rw (same_refl i) refl)) (
              kids-IsKid i m j sorted (
                rw f at (
                  sym (elem-append j todo (kids i m))
                  ∙ subst (λ ys. elem j (todo ++ ys) ≡ true) (children-kids i m) there)))
        ])
        id (rw (collect, e) at h)
]

abbrev pub total_weight : (Bytes → ℕ) → List Bytes → ℕ
total_weight weight [] = 0
total_weight weight (id ∷ ids) = weight id + total_weight weight ids

total_weight-append :
    (weight : Bytes → ℕ) (xs ys : List Bytes)
    → total_weight weight (xs ++ ys) ≡ total_weight weight xs + total_weight weight ys
total_weight-append weight [] ys = omega arith
total_weight-append weight (x ∷ xs) ys = omega (arith, total_weight-append weight xs ys)

weight-le-total :
    (weight : Bytes → ℕ) (id : Bytes) (xs : List Bytes)
    → elem id xs ≡ true
    → weight id ≤ total_weight weight xs
weight-le-total weight id [] h = cc
weight-le-total weight id (x ∷ xs) h = elim (Bool-cases (same x id)) [
  | inl e ↦
      subst (λ k. weight k ≤ weight x + total_weight weight xs) ((same_iff x id).0 e) (omega arith)
  | inr e ↦ omega (arith, weight-le-total weight id xs (rw e at h))
]

pub total_weight-le :
    (weight : Bytes → ℕ) (bound : ℕ) (xs : List Bytes)
    → ((id : Bytes) → elem id xs ≡ true → weight id ≤ bound)
    → total_weight weight xs ≤ length xs * bound
total_weight-le weight bound [] all = omega arith
total_weight-le weight bound (x ∷ xs) all =
    let first = all x (rw (same_refl x) refl) in
    let rest = total_weight-le weight bound xs (λ id h. all id (elem-later id x xs h)) in
    grind arith

-- What is in the list is kept.
pub collect-keeps :
    (fuel : ℕ) (children : OrderedMap Bytes (List Bytes)) (todo : List Bytes) (id : Bytes)
    → elem id todo ≡ true
    → elem id (collect fuel children todo) ≡ true
unfolding collect
collect-keeps zero children todo id h = h
collect-keeps (suc fuel) children [] id h = h
collect-keeps (suc fuel) children (i ∷ todo) id h = elim (Bool-cases (same i id)) [
  | inl e ↦ rw e refl
  | inr e ↦ rw e (
      collect-keeps fuel children (todo ++ children_of (find i children)) id
        (elem-append id todo (children_of (find i children)) ∙ rw (rw e at h) refl))
]

-- With fuel for the weight of the list, the collected ids are closed under children.
module _ (m : Connected) (weight : Bytes → ℕ)
    (lighter : (id : Bytes) → total_weight weight (kids id m) < weight id) where
  pub collect-closed :
      (fuel : ℕ) (todo : List Bytes) (parent id : Bytes)
      → total_weight weight todo ≤ fuel
      → elem parent (collect fuel (children_from m []) todo) ≡ true
      → IsKid m parent id
      → elem id (collect fuel (children_from m []) todo) ≡ true
  unfolding collect
  collect-closed zero todo parent id enough h kid =
      absurd (omega (arith, weight-le-total weight parent todo h, lighter parent))
  collect-closed (suc fuel) [] parent id enough h kid = cc
  collect-closed (suc fuel) (i ∷ todo) parent id enough h kid =
      let next = todo ++ children_of (find i (children_from m [])) in
      elim (Bool-cases (same i parent)) [
        | inl e ↦ elem-later id i (collect fuel (children_from m []) next) (
            collect-keeps fuel (children_from m []) next id (
              subst (λ ys. elem id (todo ++ ys) ≡ true) (sym (children-kids i m))
                (elem-append id todo (kids i m)
                  ∙ ground (
                    arith,
                    IsKid-kids i m id
                        (subst (λ k. IsKid m k id) (sym ((same_iff i parent).0 e)) kid),
                  ))))
        | inr e ↦ elem-later id i (collect fuel (children_from m []) next) (
            collect-closed fuel next parent id
              (subst (λ ys. total_weight weight (todo ++ ys) ≤ fuel) (sym (children-kids i m))
                (omega (arith, total_weight-append weight todo (kids i m), lighter i)))
              (rw (collect, e) at h) kid)
      ]
