-- ===== src/Chain/Insertion.antt =====
-- The insertion of a new entry in the map of connected shares, and the choice of the tip.
use zano_p2pool.Prelude.{
  ◌≡◌, refl, sym, subst, ◌⊎◌, inl, inr, true, false, Bool-cases, Option, none, some, ok, arith,
}
use zano_p2pool.Bytes.{Bytes, same}
use zano_p2pool.Bytes.Order.{same_iff}
use zano_p2pool.OrderedMap.{bytes_key, find, insert}
use zano_p2pool.OrderedMap.Laws.{find-insert, find-insert_self}
use zano_p2pool.Chain.{ConnectedShare, better_tip}
use zano_p2pool.Chain.Connect.{updated_tip}
use zano_p2pool.Chain.TipOrder.{better_tip_irrefl, better_tip_trans}
use zano_p2pool.Chain.Invariant.{Connected, HasParent, IsEntry, Entries, IsBest}

module _ (m : Connected) (e : ConnectedShare) (fresh : find e.id m ≡ none) where
  -- What was found is still found.
  pub find-insert_old :
      (k : Bytes) (c : ConnectedShare) → find k m ≡ some c → find k (insert e.id e m) ≡ some c
  find-insert_old k c h = elim (Bool-cases (same e.id k)) [
    | inl eq ↦ cc (subst (λ j. find j m ≡ none) ((same_iff e.id k).0 eq) fresh, h)
    | inr ne ↦ rw (find-insert k e.id e m, ne) h
  ]

  -- What is found now is the new entry or an old one.
  pub find-insert_cases :
      (k : Bytes) (c : ConnectedShare)
      → find k (insert e.id e m) ≡ some c
      → ((e.id ≡ k) × (c ≡ e)) ⊎ (find k m ≡ some c)
  find-insert_cases k c h = elim (Bool-cases (same e.id k)) [
    | inl eq ↦ inl ((same_iff e.id k).0 eq, ground (arith, find-insert k e.id e m))
    | inr ne ↦ inr (ground (arith, find-insert k e.id e m))
  ]

  HasParent-insert : (c : ConnectedShare) → HasParent m c → HasParent (insert e.id e m) c
  HasParent-insert c (inl root) = inl root
  HasParent-insert c (inr (p, z, h, link)) = inr (p, z, find-insert_old c.share.parent_id p h, link)

  IsEntry-insert : (k : Bytes) (c : ConnectedShare) → IsEntry m k c → IsEntry (insert e.id e m) k c
  IsEntry-insert k c v = record {
    own_id = v.own_id;
    share_ranges = v.share_ranges;
    work_array = v.work_array;
    nonzero = v.nonzero;
    has_parent = HasParent-insert c v.has_parent;
  }

  pub Entries-insert : IsEntry m e.id e → Entries m → Entries (insert e.id e m)
  Entries-insert new old k c h = elim (find-insert_cases k c h) [
    | inl (eq, own) ↦
        subst (λ d. IsEntry (insert e.id e m) k d) (sym own)
          (subst (λ j. IsEntry (insert e.id e m) j e) eq (IsEntry-insert e.id e new))
    | inr there ↦ IsEntry-insert k c (old k c there)
  ]

  -- The new entry is the tip if it is better.
  IsBest-when_better :
      (tip : Bytes) (best : ConnectedShare)
      → ((id : Bytes) (c : ConnectedShare) → find id m ≡ some c → better_tip c best ≡ false)
      → better_tip e best ≡ true
      → IsBest (insert e.id e m) (some e.id)
  IsBest-when_better tip best top better = (
    e,
    find-insert_self e.id e m,
    λ k c h. elim (find-insert_cases k c h) [
      | inl (_, own) ↦ rw own (better_tip_irrefl e)
      | inr there ↦ elim (Bool-cases (better_tip c e)) [
        | inl worse ↦ cc (better_tip_trans c e best worse better, top k c there)
        | inr fine ↦ fine
      ]
    ],
  )

  IsBest-when_not :
      (tip : Bytes) (best : ConnectedShare)
      → find tip m ≡ some best
      → ((id : Bytes) (c : ConnectedShare) → find id m ≡ some c → better_tip c best ≡ false)
      → better_tip e best ≡ false
      → IsBest (insert e.id e m) (some tip)
  IsBest-when_not tip best there top worse = (
    best,
    find-insert_old tip best there,
    λ k c h. elim (find-insert_cases k c h) [ inl (_, own) ↦ rw own worse | inr old ↦ top k c old ],
  )

  -- The tip is found again, so it is updated without an exception, and it is the best.
  pub updated_tip-IsBest :
      (o : Option Bytes)
      → IsBest m o
      → (tip : Option Bytes) × (updated_tip (insert e.id e m) o e ≡ ok tip)
        × IsBest (insert e.id e m) tip
  unfolding updated_tip
  updated_tip-IsBest none empty = (
    some e.id,
    refl,
    (
      e,
      find-insert_self e.id e m,
      λ k c h. elim (find-insert_cases k c h) [
        | inl (_, own) ↦ rw own (better_tip_irrefl e)
        | inr old ↦ cc (empty k, old)
      ],
    ),
  )
  updated_tip-IsBest (some tip) (best, there, top) = elim (Bool-cases (better_tip e best)) [
    | inl better ↦ (
      some e.id,
      ground (arith, find-insert_old tip best there),
      IsBest-when_better tip best top better,
    )
    | inr worse ↦ (
      some tip,
      ground (arith, find-insert_old tip best there),
      IsBest-when_not tip best there top worse,
    )
  ]
