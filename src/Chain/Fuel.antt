-- ===== src/Chain/Fuel.antt =====
-- The fuel of `promote_children` of src/share_chain.cpp.
use zano_p2pool.Prelude.{
  ℕ, zero, suc, ◌≤◌, ◌≡◌, refl, sym, Option-cases, Result-cases, inl, inr, none, List, [], ◌∷◌,
  arith,
}
use zano_p2pool.Bytes.{Bytes, before}
use zano_p2pool.OrderedMap.{bytes_key, find, erase}
use zano_p2pool.OrderedMap.Laws.{length-erase-lt}
use zano_p2pool.Sorting.{sort_by}
use zano_p2pool.Chain.{ShareChain}
use zano_p2pool.Chain.Connect.{connect_share, promote_child, promote_each, promote_children}
use zano_p2pool.Chain.Pending.{
  pending, Promote, connect_share-pending, Shrinks, promote_child-pending, promote_children-pending,
}

-- Two ways to go on that agree while few parents are left.
abbrev Agrees : ℕ → Promote → Promote → Type 0
Agrees n f g = (chain : ShareChain) (id : Bytes) → pending chain ≤ n → f chain id ≡ g chain id

promote_child-Agrees :
    (n : ℕ) (f g : Promote) (chain : ShareChain) (id : Bytes)
    → Agrees n f g
    → pending chain ≤ n
    → promote_child f chain id ≡ promote_child g chain id
unfolding promote_child
promote_child-Agrees n f g chain id agree few = elim (Option-cases (find id chain.orphans)) [
  | inl e ↦ rw (promote_child, e)
  | inr (o, e) ↦
      elim (Result-cases
        (connect_share chain o.share id o.pow_validation o.enforce_sidechain_difficulty)) [
          | inr (x, k) ↦ rw (promote_child, e, k)
          | inl ((reason, chain1), k) ↦
              let kept =
                connect_share-pending chain o.share id o.pow_validation
                  o.enforce_sidechain_difficulty reason chain1 k in
              rw (
                promote_child,
                e,
                k,
                agree (record chain1 { orphans = erase id chain1.orphans }) id
                    (omega (arith, kept)),
              )
        ]
]

promote_each-Agrees :
    (n : ℕ) (f g : Promote) (ids : List Bytes) (chain : ShareChain)
    → Agrees n f g
    → Shrinks f
    → pending chain ≤ n
    → promote_each f chain ids ≡ promote_each g chain ids
unfolding promote_each
promote_each-Agrees n f g [] chain agree shrinks few = refl
promote_each-Agrees n f g (id ∷ ids) chain agree shrinks few =
    let here = promote_child-Agrees n f g chain id agree few in
    elim (Result-cases (promote_child f chain id)) [
      | inr (x, e) ↦ rw (sym here, e)
      | inl ((chain1, m), e) ↦ rw (
        sym here,
        e,
        promote_each-Agrees n f g ids chain1 agree shrinks
            (omega (arith, promote_child-pending f chain id chain1 m shrinks e)),
      )
    ]

find-nil :
    (id : Bytes) (chain : ShareChain) → pending chain ≡ 0 → find id chain.orphans_by_parent ≡ none
unfolding find
find-nil id chain h = elim (Option-cases (find id chain.orphans_by_parent)) [
  | inl e ↦ e
  | inr (ids, e) ↦ absurd (omega (arith, length-erase-lt id chain.orphans_by_parent e))
]

-- The promotion of orphans gives the same with every fuel that is at least the number of parents
-- that orphans wait for.
pub promote_children-enough :
    (fuel more : ℕ) (chain : ShareChain) (id : Bytes)
    → pending chain ≤ fuel
    → pending chain ≤ more
    → promote_children fuel chain id ≡ promote_children more chain id
unfolding promote_children
promote_children-enough zero zero chain id a b = refl
promote_children-enough zero (suc more) chain id a b =
    rw (promote_children, find-nil id chain (omega arith))
promote_children-enough (suc fuel) zero chain id a b =
    rw (promote_children, find-nil id chain (omega arith))
promote_children-enough (suc fuel) (suc more) chain id a b =
    elim (Option-cases (find id chain.orphans_by_parent)) [
      | inl e ↦ rw (promote_children, e)
      | inr (ids, e) ↦
          let chain1 : ShareChain = record chain {
            orphans_by_parent = erase id chain.orphans_by_parent;
          } in
          let fewer = length-erase-lt id chain.orphans_by_parent e in
          rw (
            promote_children,
            e,
            promote_each-Agrees (pending chain1) (promote_children fuel) (promote_children more)
                (sort_by before ids) chain1
                (λ c j few.
                  promote_children-enough fuel more c j (omega (arith, fewer))
                    (omega (arith, fewer)))
                (promote_children-pending fuel) (omega arith),
          )
    ]
