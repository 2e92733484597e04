-- ===== src/Pplns/Identity.antt =====
-- The payout keys of the rows that `build_pplns_window_at_parent` of src/pplns.cpp credits.
use zano_p2pool.Prelude.{
  ◌≡◌, ◌+◌, ℕ, subst, Bool-cases, Option-cases, inl, inr, true, not, ◌||◌, Option, some, [], ◌∷◌,
  ok, arith, bind-ok, guard-ok, ok-injective, some-injective, ◌==◌,
}
use zano_p2pool.Bytes.{Bytes, same}
use zano_p2pool.Bytes.Order.{same_iff}
use zano_p2pool.OrderedMap.{bytes_key, find, insert}
use zano_p2pool.Share.{Share, PayoutPublicKeys, miner_id_from_payout}
use zano_p2pool.Pplns.{
  CreditedWork, Credited, row_of, merge_payout_identity, credit_share, conflicts,
}

-- Keys belong to the miner's id.
abbrev pub OwnKeys : Bytes → Option PayoutPublicKeys → Type 0
OwnKeys id payout =
    (p : PayoutPublicKeys) → payout ≡ some p → same id (miner_id_from_payout p) ≡ true

abbrev pub Owned : Credited → Type 0
Owned [] = Unit
Owned ((id, row) ∷ credited) = OwnKeys id row.payout × Owned credited

find-Owned :
    (id : Bytes) (credited : Credited)
    → Owned credited
    → OwnKeys id (row_of (find id credited)).payout
unfolding find
find-Owned id [] owned = λ p h. cc
find-Owned id ((j, row) ∷ credited) owned = elim (Bool-cases (same j id)) [
  | inl e ↦ rw e (subst (λ k. OwnKeys k row.payout) ((same_iff j id).0 e) owned.0)
  | inr e ↦ rw e (find-Owned id credited owned.1)
]

insert-Owned :
    (id : Bytes) (row : CreditedWork) (credited : Credited)
    → OwnKeys id row.payout
    → Owned credited
    → Owned (insert id row credited)
unfolding insert
insert-Owned id row [] own owned = (own, tt)
insert-Owned id row ((j, w) ∷ credited) own owned = elim (Bool-cases (same j id)) [
  | inl e ↦ rw e (own, owned.1)
  | inr e ↦ rw e (elim (Bool-cases (zano_p2pool.Bytes.before id j)) [
    | inl f ↦ rw f (own, owned)
    | inr f ↦ rw f (owned.0, insert-Owned id row credited own owned.1)
  ])
]

merge-OwnKeys :
    (credited payout : Option PayoutPublicKeys) (share : Share)
    → OwnKeys share.miner_id credited
    → merge_payout_identity credited share ≡ ok payout
    → OwnKeys share.miner_id payout
unfolding merge_payout_identity
merge-OwnKeys credited payout share own h = elim (Option-cases share.payout) [
  | inl gone ↦
      subst (OwnKeys share.miner_id) (ok-injective (rw (merge_payout_identity, gone) at h)) own
  | inr (keys, there) ↦
      let (right, h1) =
        guard-ok (not (share.version == 2) || not (same share.miner_id (miner_id_from_payout keys)))
          _ _ (rw (merge_payout_identity, there) at h) in
      let (agree, h2) = guard-ok (conflicts credited keys) _ _ h1 in
      subst (OwnKeys share.miner_id) (ok-injective h2) (λ p e.
        subst (λ q. same share.miner_id (miner_id_from_payout q) ≡ true) (some-injective e)
          (ground (arith, right)))
]

pub credit_share-Owned :
    (credited new : Credited) (share : Share) (included : ℕ)
    → Owned credited
    → credit_share credited share included ≡ ok new
    → Owned new
unfolding credit_share
credit_share-Owned credited new share included owned h =
    let row = row_of (find share.miner_id credited) in
    let (payout, merged, k) = bind-ok (merge_payout_identity row.payout share) _ h in
    subst Owned (ok-injective k) (
      insert-Owned share.miner_id (record { work = row.work + included; payout = payout }) credited
        (merge-OwnKeys row.payout payout share (find-Owned share.miner_id credited owned) merged)
        owned)
