-- ===== src/Chain/Installing.antt =====
-- A validation is installed in a connected share: what the invariant needs of the parent.
use zano_p2pool.Prelude.{
  ◌≡◌, refl, sym, ◌∙◌, subst, ◌⊎◌, inl, inr, true, false, Bool-cases, Option-cases, Option, none,
  some, arith,
}
use zano_p2pool.Bytes.{Bytes, same}
use zano_p2pool.Bytes.Order.{same_iff}
use zano_p2pool.OrderedMap.{bytes_key, find, insert}
use zano_p2pool.OrderedMap.Laws.{find-insert}
use zano_p2pool.Share.{Share, is_zero_share_id}
use zano_p2pool.Validation.{CandidateValidation}
use zano_p2pool.Chain.{ShareChain, ConnectedShare, ShareRejectReason, better_tip}
use zano_p2pool.Chain.Submit.{
  parent_fine, parent_stops, revalidation_parent_check, RevalidateShareStatus, ParentCheck,
  install_validation,
}
use zano_p2pool.Chain.Invariant.{IsValid, IsEntry, IsChild, HasParent, IsBest, Connected, Apart}

-- The entry with its validation.
abbrev pub with_validation : ConnectedShare → CandidateValidation → ConnectedShare
with_validation c w = record c { pow_validation = some w; validated_ancestry = true }

-- Every entry's parent is validated, or it has none.
abbrev pub ParentValidated : ShareChain → Share → Type 0
ParentValidated chain share =
    (is_zero_share_id share.parent_id ≡ true)
    ⊎ ((p : ConnectedShare) × (find share.parent_id chain.connected ≡ some p)
        × (p.validated_ancestry ≡ true))

pub parent_check-validated :
    (chain : ShareChain) (share : Share)
    → revalidation_parent_check chain share ≡ parent_fine
    → ParentValidated chain share
unfolding revalidation_parent_check
parent_check-validated chain share h = elim (Bool-cases (is_zero_share_id share.parent_id)) [
  | inl root ↦ inl root
  | inr child ↦ elim (Option-cases (find share.parent_id chain.connected)) [
    | inl e ↦ absurd (ground (arith, child, e))
    | inr (p, e) ↦ elim (Bool-cases p.validated_ancestry) [
      | inl fine ↦ inr (p, e, fine)
      | inr bad ↦ absurd (ground (arith, child, e, bad))
    ]
  ]
]

pub parent_check-cases :
    (check : ParentCheck)
    → (check ≡ parent_fine)
      ⊎ ((status : RevalidateShareStatus) × (reason : ShareRejectReason) × (check
            ≡ parent_stops status reason))
parent_check-cases parent_fine = inl refl
parent_check-cases (parent_stops status reason) = inr (status, reason, refl)

-- A child stays a child of its parent when the parent or the child gets its validation.
IsChild-with_validation :
    (p c : ConnectedShare) (w : CandidateValidation) → IsChild p c → IsChild (with_validation p w) c
IsChild-with_validation p c w h = record {
  height = h.height;
  work = h.work;
  timestamp = h.timestamp;
  validated = ground arith;
}

-- What the map holds once `id` has its validation.
found-insert :
    (m : Connected) (id k : Bytes) (c x : ConnectedShare) (w : CandidateValidation)
    → find id m ≡ some c
    → find k (insert id (with_validation c w) m) ≡ some x
    → (x ≡ with_validation c w × (find k m ≡ some c) × (id ≡ k)) ⊎ (find k m ≡ some x)
found-insert m id k c x w here h = elim (Bool-cases (same id k)) [
  | inl eq ↦
      let same_key : id ≡ k = (same_iff id k).0 eq in
      inl (
        ground (arith, find-insert k id (with_validation c w) m),
        subst (λ j. find j m ≡ some c) same_key here,
        same_key,
      )
  | inr ne ↦ inr (ground (arith, find-insert k id (with_validation c w) m))
]

-- The parent of any share, in the map where `id` has its validation.
HasParent-insert :
    (m : Connected) (id : Bytes) (c x : ConnectedShare) (w : CandidateValidation)
    → find id m ≡ some c
    → HasParent m x
    → HasParent (insert id (with_validation c w) m) x
HasParent-insert m id c x w here (inl root) = inl root
HasParent-insert m id c x w here (inr (p, child, there, rel)) =
    let at_parent = find-insert x.share.parent_id id (with_validation c w) m in
    elim (Bool-cases (same id x.share.parent_id)) [
      | inl eq ↦
          let same_key : id ≡ x.share.parent_id = (same_iff id x.share.parent_id).0 eq in
          let same_entry : p ≡ c =
            ground (arith, subst (λ j. find j m ≡ some c) same_key here, there) in
          inr (
            with_validation c w,
            child,
            at_parent ∙ rw eq,
            IsChild-with_validation c x w (subst (λ q. IsChild q x) same_entry rel),
          )
      | inr ne ↦ inr (p, child, at_parent ∙ rw ne there, rel)
    ]

-- The validated entry has a validated parent.
HasParent-validated :
    (chain : ShareChain) (c : ConnectedShare) (w : CandidateValidation)
    → ParentValidated chain c.share
    → HasParent chain.connected c
    → HasParent chain.connected (with_validation c w)
HasParent-validated chain c w fine (inl root) = inl root
HasParent-validated chain c w (inl zero) (inr (p, child, there, rel)) = absurd (ground arith)
HasParent-validated chain c w (inr (q, found, valid)) (inr (p, child, there, rel)) =
    let same_parent : q ≡ p = ground (arith, found, there) in
    inr (
      p,
      child,
      there,
      record {
        height = rel.height;
        work = rel.work;
        timestamp = rel.timestamp;
        validated = ground (arith, subst (λ o. o.validated_ancestry ≡ true) same_parent valid);
      },
    )

better_tip-with_validation :
    (c best x : ConnectedShare) (w : CandidateValidation)
    → (better_tip (with_validation c w) best ≡ better_tip c best)
      × (better_tip x (with_validation c w) ≡ better_tip x c)
unfolding better_tip
better_tip-with_validation c best x w = (refl, refl)

-- No entry of the map where `c` has its validation is better than one that was the best before.
best-insert :
    (m : Connected) (c best x : ConnectedShare) (w : CandidateValidation) (k : Bytes)
    → find c.id m ≡ some c
    → ((id : Bytes) (y : ConnectedShare) → find id m ≡ some y → better_tip y best ≡ false)
    → find k (insert c.id (with_validation c w) m) ≡ some x
    → better_tip x best ≡ false
best-insert m c best x w k here top h = elim (found-insert m c.id k c x w here h) [
  | inl (eq, old, _) ↦
      subst (λ y. better_tip y best ≡ false) (sym eq)
        ((better_tip-with_validation c best x w).0 ∙ top k c old)
  | inr old ↦ top k x old
]

IsBest-insert :
    (m : Connected) (c : ConnectedShare) (tip : Option Bytes) (w : CandidateValidation)
    → find c.id m ≡ some c
    → IsBest m tip
    → IsBest (insert c.id (with_validation c w) m) tip
IsBest-insert m c none w here empty = absurd (ground (arith, empty c.id))
IsBest-insert m c (some tip) w here (best, there, top) =
    let at_tip = find-insert tip c.id (with_validation c w) m in
    elim (Bool-cases (same c.id tip)) [
      | inl eq ↦
          let same_key : c.id ≡ tip = (same_iff c.id tip).0 eq in
          let same_entry : best ≡ c =
            ground (arith, subst (λ j. find j m ≡ some c) same_key here, there) in
          (
            with_validation c w,
            at_tip ∙ rw eq,
            λ k x h.
                (better_tip-with_validation c c x w).1
                ∙ subst (λ b. better_tip x b ≡ false) same_entry
                    (best-insert m c best x w k here top h),
          )
      | inr ne ↦ (best, at_tip ∙ rw ne there, λ k x h. best-insert m c best x w k here top h)
    ]

-- Installing a validation keeps the invariant if the parent is validated.
pub install_validation-IsValid :
    (chain : ShareChain) (c : ConnectedShare) (w : CandidateValidation)
    → IsValid chain
    → find c.id chain.connected ≡ some c
    → ParentValidated chain c.share
    → IsValid (install_validation chain c w)
unfolding install_validation
install_validation-IsValid chain c w v here fine = record {
  entries = λ k x h. elim (found-insert chain.connected c.id k c x w here h) [
    | inl (eq, old, same_key) ↦
        let e = v.entries k c old in
        subst (IsEntry (insert c.id (with_validation c w) chain.connected) k) (sym eq) (record {
          own_id = e.own_id;
          share_ranges = e.share_ranges;
          work_array = e.work_array;
          nonzero = e.nonzero;
          has_parent =
              HasParent-insert chain.connected c.id c (with_validation c w) w here
                (HasParent-validated chain c w fine e.has_parent);
        })
    | inr old ↦
        let e = v.entries k x old in
        record {
          own_id = e.own_id;
          share_ranges = e.share_ranges;
          work_array = e.work_array;
          nonzero = e.nonzero;
          has_parent = HasParent-insert chain.connected c.id c x w here e.has_parent;
        }
  ];
  best = IsBest-insert chain.connected c chain.best_tip_id w here v.best;
  waiting = v.waiting;
}

pub install_validation-Apart :
    (chain : ShareChain) (c : ConnectedShare) (w : CandidateValidation)
    → find c.id chain.connected ≡ some c
    → Apart chain
    → Apart (install_validation chain c w)
unfolding install_validation
install_validation-Apart chain c w here apart k o h =
    elim (Option-cases (find k (insert c.id (with_validation c w) chain.connected))) [
      | inl gone ↦ gone
      | inr (x, e) ↦ elim (found-insert chain.connected c.id k c x w here e) [
        | inl (_, old, _) ↦ absurd (ground (arith, apart k o h, old))
        | inr old ↦ absurd (ground (arith, apart k o h, old))
      ]
    ]
