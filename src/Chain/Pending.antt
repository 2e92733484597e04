-- ===== src/Chain/Pending.antt =====
-- The parents that orphans wait for, during `promote_children`.
use zano_p2pool.Prelude.{
  ℕ, zero, suc, ◌≤◌, ◌≡◌, sym, ◌∙◌, ap, Bool, ◌&&◌, Bool-cases, Option-cases, Result-cases, inl,
  inr, Option, List, [], ◌∷◌, Result, ok, arith, length,
}
use zano_p2pool.Bytes.{Bytes, before}
use zano_p2pool.OrderedMap.{bytes_key, find, erase, contains, insert}
use zano_p2pool.OrderedMap.Laws.{length-erase-lt}
use zano_p2pool.Share.{Share}
use zano_p2pool.Sorting.{sort_by}
use zano_p2pool.Work.{share_work}
use zano_p2pool.Validation.{CandidateValidation}
use zano_p2pool.Chain.{ShareChain, ConnectedShare, ShareRejectReason, is_accepted}
use zano_p2pool.Chain.Connect.{
  insert_connected, updated_tip, connect_checked, connect_share, branch_work, parent_of,
  parent_reject_reason, enforced_reject_reason, promote_child, promote_each, promote_children,
  met_share_difficulty, parent_validated,
}

-- The parents that orphans wait for.
abbrev pub pending : ShareChain → ℕ
pending chain = length chain.orphans_by_parent

abbrev pub Promote : Type 0
Promote = ShareChain → Bytes → Result (ShareChain × ℕ)

pending_lem : (a b : ShareChain) → a ≡ b → pending a ≡ pending b
pending_lem a b = ap (λ c. pending c)

insert_connected-pending :
    (chain : ShareChain) (entry : ConnectedShare) (new : ShareChain)
    → insert_connected chain entry ≡ ok new
    → pending new ≡ pending chain
unfolding insert_connected
insert_connected-pending chain entry new h = elim (Bool-cases (contains entry.id chain.connected)) [
  | inl e ↦ absurd (ground (arith, e))
  | inr e ↦
      elim (Result-cases
        (updated_tip (insert entry.id entry chain.connected) chain.best_tip_id entry)) [
          | inr (x, f) ↦ absurd (ground (arith, e, f))
          | inl (tip, f) ↦
              let eq : ◌≡◌ {A = ShareChain}
                  (record chain {
                    connected = insert entry.id entry chain.connected;
                    best_tip_id = tip;
                  })
                  new =
                ground (arith, e, f) in
              ap (λ c. pending c) (sym eq)
        ]
]

connect_checked-pending :
    (chain : ShareChain) (share : Share) (id : Bytes) (pow : Option CandidateValidation)
    (enforce : Bool) (parent : Option ConnectedShare) (own : Bytes) (reason : ShareRejectReason)
    (new : ShareChain)
    → connect_checked chain share id pow enforce parent own ≡ ok (reason, new)
    → pending new ≡ pending chain
unfolding connect_checked
connect_checked-pending chain share id pow enforce parent own reason new h =
    elim (Bool-cases (branch_work parent own).0) [
      | inr e ↦ pending_lem new chain (ground (arith, e))
      | inl e ↦
          let entry : ConnectedShare = record {
            share = share;
            id = id;
            cumulative_work = (branch_work parent own).1;
            pow_validation = pow;
            validated_ancestry = enforce && (met_share_difficulty pow && parent_validated parent);
          } in
          elim (Result-cases (insert_connected chain entry)) [
            | inr (x, f) ↦ absurd (ground (arith, e, f))
            | inl (chain1, f) ↦
                let eq : chain1 ≡ new = ground (arith, e, f) in
                ap (λ c. pending c) (sym eq) ∙ insert_connected-pending chain entry chain1 f
          ]
    ]

pub connect_share-pending :
    (chain : ShareChain) (share : Share) (id : Bytes) (pow : Option CandidateValidation)
    (enforce : Bool) (reason : ShareRejectReason) (new : ShareChain)
    → connect_share chain share id pow enforce ≡ ok (reason, new)
    → pending new ≡ pending chain
unfolding connect_share
connect_share-pending chain share id pow enforce reason new h =
    elim (Result-cases (share_work share.share_difficulty)) [
      | inr (x, e) ↦ absurd (ground (arith, e))
      | inl (own, e) ↦ elim (Result-cases (parent_of chain share)) [
        | inr (x, f) ↦ absurd (ground (arith, e, f))
        | inl (parent, f) ↦ elim (Bool-cases (is_accepted (parent_reject_reason share parent))) [
          | inr g ↦ pending_lem new chain (ground (arith, e, f, g))
          | inl g ↦ elim (Result-cases (enforced_reject_reason enforce chain share)) [
            | inr (x, k) ↦ absurd (ground (arith, e, f, g, k))
            | inl (rule, k) ↦ elim (Bool-cases (is_accepted rule)) [
              | inr l ↦ pending_lem new chain (ground (arith, e, f, g, k, l))
              | inl l ↦
                  connect_checked-pending chain share id pow enforce parent own reason new
                    (ground (arith, e, f, g, k, l))
            ]
          ]
        ]
      ]
    ]

-- The rest of the recursion only takes parents away.
abbrev pub Shrinks : Promote → Type 0
Shrinks promote =
    (chain : ShareChain) (id : Bytes) (new : ShareChain) (n : ℕ)
    → promote chain id ≡ ok (new, n)
    → pending new ≤ pending chain

pub promote_child-pending :
    (promote : Promote) (chain : ShareChain) (id : Bytes) (new : ShareChain) (n : ℕ)
    → Shrinks promote
    → promote_child promote chain id ≡ ok (new, n)
    → pending new ≤ pending chain
unfolding promote_child
promote_child-pending promote chain id new n shrinks h =
    elim (Option-cases (find id chain.orphans)) [
      | inl e ↦
          let same_chain = pending_lem new chain (ground (arith, e)) in omega (arith, same_chain)
      | inr (o, e) ↦
          elim (Result-cases
            (connect_share chain o.share id o.pow_validation o.enforce_sidechain_difficulty)) [
              | inr (x, f) ↦ absurd (ground (arith, e, f))
              | inl ((reason, chain1), f) ↦
                  let kept =
                    connect_share-pending chain o.share id o.pow_validation
                      o.enforce_sidechain_difficulty reason chain1 f in
                  let chain2 : ShareChain = record chain1 { orphans = erase id chain1.orphans } in
                  elim (Bool-cases (is_accepted reason)) [
                    | inr g ↦
                        let eq = pending_lem chain2 new (ground (arith, e, f, g)) in
                        omega (arith, eq, kept)
                    | inl g ↦ elim (Result-cases (promote chain2 id)) [
                      | inr (x, k) ↦ absurd (ground (arith, e, f, g, k))
                      | inl ((chain3, m), k) ↦
                          let eq = pending_lem chain3 new (ground (arith, e, f, g, k)) in
                          omega (arith, eq, kept, shrinks chain2 id chain3 m k)
                    ]
                  ]
            ]
    ]

promote_each-pending :
    (promote : Promote) (ids : List Bytes) (chain : ShareChain) (new : ShareChain) (n : ℕ)
    → Shrinks promote
    → promote_each promote chain ids ≡ ok (new, n)
    → pending new ≤ pending chain
unfolding promote_each
promote_each-pending promote [] chain new n shrinks h =
    let eq = pending_lem new chain (ground (arith, h)) in omega (arith, eq)
promote_each-pending promote (id ∷ ids) chain new n shrinks h =
    elim (Result-cases (promote_child promote chain id)) [
      | inr (x, e) ↦ absurd (ground (arith, e))
      | inl ((chain1, m), e) ↦ elim (Result-cases (promote_each promote chain1 ids)) [
        | inr (x, f) ↦ absurd (ground (arith, e, f))
        | inl ((chain2, k), f) ↦
            let eq = pending_lem chain2 new (ground (arith, e, f)) in
            omega (
              arith,
              eq,
              promote_child-pending promote chain id chain1 m shrinks e,
              promote_each-pending promote ids chain1 chain2 k shrinks f,
            )
      ]
    ]

pub promote_children-pending : (fuel : ℕ) → Shrinks (promote_children fuel)
unfolding promote_children
promote_children-pending zero chain id new n h =
    let eq = pending_lem new chain (ground (arith, h)) in omega (arith, eq)
promote_children-pending (suc fuel) chain id new n h =
    elim (Option-cases (find id chain.orphans_by_parent)) [
      | inl e ↦ let eq = pending_lem new chain (ground (arith, e)) in omega (arith, eq)
      | inr (ids, e) ↦
          let chain1 : ShareChain = record chain {
            orphans_by_parent = erase id chain.orphans_by_parent;
          } in
          omega (
            arith,
            length-erase-lt id chain.orphans_by_parent e,
            promote_each-pending (promote_children fuel) (sort_by before ids) chain1 new n
                (promote_children-pending fuel) (ground (arith, e)),
          )
    ]
