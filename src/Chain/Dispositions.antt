-- ===== src/Chain/Dispositions.antt =====
-- What each disposition of `add_prevalidated_share` means.
use zano_p2pool.Prelude.{
  ◌≡◌, refl, subst, inl, inr, true, false, ◌||◌, Bool-cases, Option-cases, none, some, arith,
}
use zano_p2pool.Bytes.{Bytes, same}
use zano_p2pool.Bytes.Order.{same_iff}
use zano_p2pool.OrderedMap.{bytes_key, find, contains}
use zano_p2pool.OrderedMap.Laws.{find-insert}
use zano_p2pool.Share.{Share, IsShare, difficulty128_is_zero}
use zano_p2pool.Chain.{
  ShareChain, ConnectedShare, OrphanShare, AddShareResult, is_accepted, connected_share,
  orphan_share, duplicate, rejected,
}
use zano_p2pool.Chain.Rules.{structural_reject_reason}
use zano_p2pool.Chain.Connect.{add_orphan}
use zano_p2pool.Chain.Invariant.{IsValid, IsOrphan, Apart}
use zano_p2pool.Chain.Linking.{Admits}
use zano_p2pool.Chain.Promotion.{Promotes}

-- A share without a structural fault has a difficulty.
pub structural-nonzero :
    (chain : ShareChain) (share : Share)
    → is_accepted (structural_reject_reason chain share) ≡ true
    → difficulty128_is_zero share.share_difficulty ≡ false
unfolding structural_reject_reason
structural-nonzero chain share h =
    elim (Bool-cases (difficulty128_is_zero share.share_difficulty)) [
      | inr e ↦ e
      | inl e ↦ ground (arith, e)
    ]

-- What a disposition says of the chain before and after.
pub data AddOutcome (old : ShareChain) (share : Share) (r : AddShareResult) (new : ShareChain)
    : Type 0 where
  was_duplicate :
      r.disposition ≡ duplicate
      → (contains r.id old.connected || contains r.id old.orphans) ≡ true
      → new ≡ old
      → AddOutcome old share r new
  was_rejected :
      r.disposition ≡ rejected
      → is_accepted r.reject_reason ≡ false
      → new ≡ old
      → AddOutcome old share r new
  was_orphan :
      (o : OrphanShare)
      → r.disposition ≡ orphan_share
      → find share.parent_id old.connected ≡ none
      → find r.id new.orphans ≡ some o
      → o.share ≡ share
      → new.connected ≡ old.connected
      → AddOutcome old share r new
  was_connected :
      (c : ConnectedShare)
      → r.disposition ≡ connected_share
      → find r.id new.connected ≡ some c
      → c.share ≡ share
      → AddOutcome old share r new

pub record Adds (old : ShareChain) (share : Share) (r : AddShareResult) (new : ShareChain)
    : Type 0 where
  pub promotes : Promotes old new
  pub outcome : AddOutcome old share r new

pub add_orphan-Promotes :
    (chain : ShareChain) (o : OrphanShare)
    → IsValid chain
    → Apart chain
    → IsShare o.share
    → difficulty128_is_zero o.share.share_difficulty ≡ false
    → find o.id chain.connected ≡ none
    → Promotes chain (add_orphan chain o)
unfolding add_orphan
add_orphan-Promotes chain o v apart ranges nonzero free = record {
  valid = record {
    entries = v.entries;
    best = v.best;
    waiting = λ k p h. elim (Bool-cases (same o.id k)) [
      | inl eq ↦
          let own : o ≡ p = ground (arith, find-insert k o.id o chain.orphans) in
          subst (λ q. IsOrphan k q) own (record { share_ranges = ranges; nonzero = nonzero })
      | inr ne ↦ v.waiting k p (ground (arith, find-insert k o.id o chain.orphans))
    ];
  };
  apart = λ k p h. elim (Bool-cases (same o.id k)) [
    | inl eq ↦ subst (λ j. find j chain.connected ≡ none) ((same_iff o.id k).0 eq) free
    | inr ne ↦ apart k p (ground (arith, find-insert k o.id o chain.orphans))
  ];
  extends = record { kept = λ k c h. h; policy = refl; parameters = refl };
}

pub admitted-Apart :
    (chain : ShareChain) (share : Share) (id : Bytes) (new : ShareChain)
    → Apart chain
    → find id chain.orphans ≡ none
    → Admits chain share id new
    → Apart new
admitted-Apart chain share id new apart alone a k o there =
    let old_orphan = subst (λ m. find k m ≡ some o) a.orphans there in
    elim (Option-cases (find k new.connected)) [
      | inl gone ↦ gone
      | inr (c, e) ↦ elim (a.only k c e) [
        | inl eq ↦ cc (subst (λ j. find j chain.orphans ≡ none) eq alone, old_orphan)
        | inr old ↦ cc (apart k o old_orphan, old)
      ]
    ]
