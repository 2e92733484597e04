-- ===== src/Chain/Promotion.antt =====
-- The promotion of orphans and the invariant.
use zano_p2pool.Prelude.{
  ℕ, zero, suc, ◌≡◌, refl, subst, inl, inr, false, Option-cases, Result-cases, some, Result, ok,
  arith, List, [], ◌∷◌,
}
use zano_p2pool.Bytes.{Bytes, same, before}
use zano_p2pool.Bytes.Order.{same_iff}
use zano_p2pool.OrderedMap.{bytes_key, find, erase}
use zano_p2pool.OrderedMap.Laws.{find-erase}
use zano_p2pool.Sorting.{sort_by}
use zano_p2pool.Share.{Share}
use zano_p2pool.Chain.{ShareChain, OrphanShare}
use zano_p2pool.Chain.Connect.{connect_share, promote_child, promote_each, promote_children}
use zano_p2pool.Chain.Invariant.{IsValid, Apart}
use zano_p2pool.Chain.Linking.{Extends, Extends-refl, Extends-trans, Admits, connect_share-Outcome}

abbrev Promoter : Type 0
Promoter = ShareChain → Bytes → Result (ShareChain × ℕ)

pub record Promotes (old new : ShareChain) : Type 0 where
  pub valid : IsValid new
  pub apart : Apart new
  pub extends : Extends old new

Promotes-trans : (a b c : ShareChain) → Promotes a b → Promotes b c → Promotes a c
Promotes-trans a b c f g = record {
  valid = g.valid;
  apart = g.apart;
  extends = Extends-trans a b c f.extends g.extends;
}

abbrev KeepsValid : Promoter → Type 0
KeepsValid promote =
    (chain : ShareChain) (id : Bytes) (new : ShareChain) (n : ℕ)
    → IsValid chain
    → Apart chain
    → promote chain id ≡ ok (new, n)
    → Promotes chain new

-- The orphan that was looked at is taken out.
abbrev without_orphan : Bytes → ShareChain → ShareChain
without_orphan id chain = record chain { orphans = erase id chain.orphans }

find-erase_old :
    (id k : Bytes) (chain : ShareChain) (o : OrphanShare)
    → find k (erase id chain.orphans) ≡ some o
    → (same id k ≡ false) × (find k chain.orphans ≡ some o)
find-erase_old id k chain o h =
    (ground (arith, find-erase k id chain.orphans), ground (arith, find-erase k id chain.orphans))

erase-IsValid :
    (id : Bytes) (chain : ShareChain) → IsValid chain → IsValid (without_orphan id chain)
erase-IsValid id chain v = record {
  entries = v.entries;
  best = v.best;
  waiting = λ k o h. v.waiting k o (find-erase_old id k chain o h).1;
}

-- Once connected and taken out of the orphans, the share leaves orphans and connected shares apart.
erase-Apart :
    (id : Bytes) (share : Share) (old new : ShareChain)
    → Apart old
    → Admits old share id new
    → Apart (without_orphan id new)
erase-Apart id share old new apart a k o h =
    let (distinct, there) = find-erase_old id k new o h in
    elim (Option-cases (find k new.connected)) [
      | inl gone ↦ gone
      | inr (c, e) ↦ elim (a.only k c e) [
        | inl eq ↦ absurd (ground (arith, same_iff id k))
        | inr before_ ↦ cc (apart k o (subst (λ m. find k m ≡ some o) a.orphans there), before_)
      ]
    ]

erase_unchanged-Apart :
    (id : Bytes) (chain : ShareChain) → Apart chain → Apart (without_orphan id chain)
erase_unchanged-Apart id chain apart k o h = apart k o (find-erase_old id k chain o h).1

pub Promotes-refl : (c : ShareChain) → IsValid c → Apart c → Promotes c c
Promotes-refl c v a = record { valid = v; apart = a; extends = Extends-refl c }

refused-Promotes :
    (id : Bytes) (chain : ShareChain)
    → IsValid chain
    → Apart chain
    → Promotes chain (without_orphan id chain)
refused-Promotes id chain v apart = record {
  valid = erase-IsValid id chain v;
  apart = erase_unchanged-Apart id chain apart;
  extends = record { kept = λ k c h. h; policy = refl; parameters = refl };
}

-- The share is connected, the orphan taken out, and its own children are promoted.
admitted-Promotes :
    (promote : Promoter)
    → KeepsValid promote
    → (chain : ShareChain) (share : Share) (id : Bytes) (chain1 new : ShareChain) (n : ℕ)
    → Apart chain
    → Admits chain share id chain1
    → promote (without_orphan id chain1) id ≡ ok (new, n)
    → Promotes chain new
admitted-Promotes promote keeps chain share id chain1 new n apart a e =
    let rest =
      keeps (without_orphan id chain1) id new n (erase-IsValid id chain1 a.valid)
        (erase-Apart id share chain chain1 apart a) e in
    Promotes-trans chain (without_orphan id chain1) new
      (record {
        valid = erase-IsValid id chain1 a.valid;
        apart = erase-Apart id share chain chain1 apart a;
        extends = record {
          kept = a.extends.kept;
          policy = a.extends.policy;
          parameters = a.extends.parameters;
        };
      })
      rest

promote_child-Promotes :
    (promote : Promoter) → KeepsValid promote → KeepsValid (promote_child promote)
unfolding promote_child
promote_child-Promotes promote keeps chain id new n v apart h =
    elim (Option-cases (find id chain.orphans)) [
      | inl missing ↦ subst (Promotes chain) (ground (arith, missing)) (Promotes-refl chain v apart)
      | inr (o, there) ↦
          elim (Result-cases
            (connect_share chain o.share id o.pow_validation o.enforce_sidechain_difficulty)) [
              | inr (x, e) ↦ absurd (ground (arith, there, e))
              | inl ((reason, chain1), e) ↦
                  let w = v.waiting id o there in
                  elim (connect_share-Outcome chain o.share id o.pow_validation
                    o.enforce_sidechain_difficulty reason chain1 v w.share_ranges w.nonzero
                    (apart id o there) e) [
                      | inl (refused, same_chain) ↦
                          subst (Promotes chain) (ground (arith, there, e, refused, same_chain))
                            (refused-Promotes id chain v apart)
                      | inr (fine, admits) ↦
                          elim (Result-cases (promote (without_orphan id chain1) id)) [
                            | inr (x, f) ↦ absurd (ground (arith, there, e, fine, f))
                            | inl ((chain2, m), f) ↦
                                subst (Promotes chain) (ground (arith, there, e, fine, f)) (
                                  admitted-Promotes promote keeps chain o.share id chain1 chain2 m
                                    apart admits f)
                          ]
                    ]
            ]
    ]

abbrev KeepsValidList : (ShareChain → List Bytes → Result (ShareChain × ℕ)) → Type 0
KeepsValidList promote =
    (chain : ShareChain) (ids : List Bytes) (new : ShareChain) (n : ℕ)
    → IsValid chain
    → Apart chain
    → promote chain ids ≡ ok (new, n)
    → Promotes chain new

promote_each-Promotes :
    (promote : Promoter) → KeepsValid promote → KeepsValidList (promote_each promote)
unfolding promote_each
promote_each-Promotes promote keeps chain [] new n v apart h =
    subst (Promotes chain) (ground arith) (Promotes-refl chain v apart)
promote_each-Promotes promote keeps chain (id ∷ ids) new n v apart h =
    elim (Result-cases (promote_child promote chain id)) [
      | inr (x, e) ↦ absurd (ground (arith, e))
      | inl ((chain1, m), e) ↦ elim (Result-cases (promote_each promote chain1 ids)) [
        | inr (x, f) ↦ absurd (ground (arith, e, f))
        | inl ((chain2, k), f) ↦
            let first = promote_child-Promotes promote keeps chain id chain1 m v apart e in
            subst (Promotes chain) (ground (arith, e, f)) (
              Promotes-trans chain chain1 chain2 first
                (promote_each-Promotes promote keeps chain1 ids chain2 k first.valid first.apart f))
      ]
    ]

-- Whatever is promoted, the chain stays valid and keeps every connected share.
pub promote_children-Promotes :
    (fuel : ℕ) (chain : ShareChain) (id : Bytes) (new : ShareChain) (n : ℕ)
    → IsValid chain
    → Apart chain
    → promote_children fuel chain id ≡ ok (new, n)
    → Promotes chain new
unfolding promote_children
promote_children-Promotes zero chain id new n v apart h =
    subst (Promotes chain) (ground arith) (Promotes-refl chain v apart)
promote_children-Promotes (suc fuel) chain id new n v apart h =
    elim (Option-cases (find id chain.orphans_by_parent)) [
      | inl e ↦ subst (Promotes chain) (ground (arith, e)) (Promotes-refl chain v apart)
      | inr (ids, e) ↦
          let next = record chain { orphans_by_parent = erase id chain.orphans_by_parent } in
          let r =
            promote_each-Promotes (promote_children fuel) (promote_children-Promotes fuel) next
              (sort_by before ids) new n
              (record { entries = v.entries; best = v.best; waiting = v.waiting }) apart
              (ground (arith, e)) in
          record {
            valid = r.valid;
            apart = r.apart;
            extends = record {
              kept = r.extends.kept;
              policy = r.extends.policy;
              parameters = r.extends.parameters;
            };
          }
    ]
