-- ===== src/Chain/Replay/Applying.antt =====
-- The loop of `restore_replay_validation` that applies the records: each of them is checked against
-- the chain before, and installed in a chain that has the same shares.
use zano_p2pool.Prelude.{
  ◌≡◌, ◌⊎◌, refl, sym, ◌∙◌, ap, subst, inl, inr, Bool-cases, Option-cases, true, false, not, some,
  List, [], ◌∷◌, ok, arith, bind-ok, guard-ok, some-injective,
}
use zano_p2pool.Bytes.{Bytes, same}
use zano_p2pool.Bytes.Order.{same_iff}
use zano_p2pool.OrderedMap.{bytes_key, find, contains, insert}
use zano_p2pool.OrderedMap.Laws.{find-insert, contains-insert}
use zano_p2pool.Share.{Share, is_zero_share_id}
use zano_p2pool.Validation.{CandidateValidation}
use zano_p2pool.Chain.{ShareChain, ConnectedShare, is_accepted}
use zano_p2pool.Chain.Rules.{structural_reject_reason}
use zano_p2pool.Chain.Submit.{install_validation}
use zano_p2pool.Chain.Installing.{ParentValidated, with_validation}
use zano_p2pool.Chain.Replay.{ReplayValidationRecord, IdSet, check_restored, check_restored_parent}

-- One of the records.
abbrev pub Among : ReplayValidationRecord → List ReplayValidationRecord → Type 0
Among r [] = ⊥
Among r (x ∷ xs) = (r ≡ x) ⊎ Among r xs

-- An entry is as it was, or holds the validation of a record for its id.
abbrev pub Restored : List ReplayValidationRecord → Bytes → ConnectedShare → ConnectedShare → Type 0
Restored records id old new =
    (new ≡ old)
    ⊎ ((r : ReplayValidationRecord) × Among r records
        × (r.share_id ≡ id)
        × (old.validated_ancestry ≡ false)
        × (new ≡ with_validation old r.validation))

-- What has become of every entry.
abbrev pub Follows : List ReplayValidationRecord → ShareChain → ShareChain → Type 0
Follows records old new =
    (id : Bytes) (c : ConnectedShare)
    → find id old.connected ≡ some c
    → (now : ConnectedShare) × (find id new.connected ≡ some now) × Restored records id c now

-- The shares of the set are validated.
abbrev pub AllValidated : ShareChain → IdSet → Type 0
AllValidated chain ids =
    (id : Bytes)
    → contains id ids ≡ true
    → (c : ConnectedShare) × (find id chain.connected ≡ some c) × (c.validated_ancestry ≡ true)

-- A share that passes the checks has its parent in the set.
pub check_restored-ParentValidated :
    (chain now : ShareChain) (ids : IdSet) (share : Share) (u : Unit {0})
    → AllValidated now ids
    → check_restored chain ids share ≡ ok u
    → ParentValidated now share
unfolding check_restored check_restored_parent
check_restored-ParentValidated chain now ids share u all h =
    let (structural, h1) =
      guard-ok (not (is_accepted (structural_reject_reason chain share))) _ _ h in
    let (w, parent, h2) = bind-ok (check_restored_parent chain ids share) _ h1 in
    elim (Bool-cases (is_zero_share_id share.parent_id)) [
      | inl root ↦ inl root
      | inr child ↦ elim (Option-cases (find share.parent_id chain.connected)) [
        | inl gone ↦ absurd (ground (arith, rw (check_restored_parent, child, gone) at parent))
        | inr (p, there) ↦
            let (listed, _) =
              guard-ok (not (contains share.parent_id ids)) _ _
                (rw (check_restored_parent, child, there) at parent) in
            inr (all share.parent_id (ground (arith, listed)))
      ]
    ]

pub install-found :
    (now : ShareChain) (c x : ConnectedShare) (w : CandidateValidation) (k : Bytes)
    → find c.id now.connected ≡ some c
    → find k now.connected ≡ some x
    → (find k (install_validation now c w).connected ≡ some x × (same c.id k ≡ false))
      ⊎ ((find k (install_validation now c w).connected ≡ some (with_validation c w))
          × (c.id ≡ k)
          × (x ≡ c))
unfolding install_validation
install-found now c x w k here there = elim (Bool-cases (same c.id k)) [
  | inr e ↦ inl (find-insert k c.id (with_validation c w) now.connected ∙ rw e there, e)
  | inl e ↦
      let same_key = (same_iff c.id k).0 e in
      inr (
        find-insert k c.id (with_validation c w) now.connected ∙ rw e refl,
        same_key,
        some-injective (sym there ∙ subst (λ j. find j now.connected ≡ some c) same_key here),
      )
]

-- The shares are the same, and validated shares stay so.
abbrev pub SameShares : ShareChain → ShareChain → Type 0
SameShares old now =
    (id : Bytes) (c : ConnectedShare)
    → find id old.connected ≡ some c
    → (x : ConnectedShare) × (find id now.connected ≡ some x)
      × (x.share ≡ c.share)
      × (c.validated_ancestry ≡ true → x.validated_ancestry ≡ true)

pub install-SameShares :
    (now : ShareChain) (c : ConnectedShare) (w : CandidateValidation)
    → find c.id now.connected ≡ some c
    → SameShares now (install_validation now c w)
install-SameShares now c w here k x there = elim (install-found now c x w k here there) [
  | inl (kept, _) ↦ (x, kept, refl, λ h. h)
  | inr (changed, _, own) ↦ (with_validation c w, changed, ap (λ y. y.share) (sym own), λ h. refl)
]

pub SameShares-trans : (a b c : ShareChain) → SameShares a b → SameShares b c → SameShares a c
SameShares-trans a b c ab bc id x there =
    let (y, found, same_share, kept) = ab id x there in
    let (z, at_c, same_share2, kept2) = bc id y found in
    (z, at_c, same_share2 ∙ same_share, λ h. kept2 (kept h))

pub SameShares-AllValidated :
    (a b : ShareChain) (ids : IdSet) → SameShares a b → AllValidated a ids → AllValidated b ids
SameShares-AllValidated a b ids ab all id h =
    let (c, there, valid) = all id h in
    let (x, found, _, kept) = ab id c there in (x, found, kept valid)

pub insert-AllValidated :
    (now : ShareChain) (ids : IdSet) (id : Bytes) (c : ConnectedShare)
    → AllValidated now ids
    → find id now.connected ≡ some c
    → c.validated_ancestry ≡ true
    → AllValidated now (insert id tt ids)
insert-AllValidated now ids id c all here valid k h = elim (Bool-cases (same id k)) [
  | inl e ↦ (c, subst (λ j. find j now.connected ≡ some c) ((same_iff id k).0 e) here, valid)
  | inr e ↦ all k (ground (arith, contains-insert k id tt ids, e))
]

pub Restored-later :
    (r : ReplayValidationRecord) (records : List ReplayValidationRecord) (id : Bytes)
    (old new : ConnectedShare)
    → Restored records id old new
    → Restored (r ∷ records) id old new
Restored-later r records id old new (inl e) = inl e
Restored-later r records id old new (inr (x, among, own, fresh, e)) =
    inr (x, inr among, own, fresh, e)

-- A validated entry is left alone.
pub Restored-validated :
    (records : List ReplayValidationRecord) (id : Bytes) (old new : ConnectedShare)
    → old.validated_ancestry ≡ true
    → Restored records id old new
    → new ≡ old
Restored-validated records id old new h (inl e) = e
Restored-validated records id old new h (inr (x, among, own, unvalidated, e)) =
    absurd (ground (arith, h, unvalidated))

-- What is installed first, and what becomes of it.
pub install-Follows :
    (r : ReplayValidationRecord) (records : List ReplayValidationRecord) (now new : ShareChain)
    (c : ConnectedShare)
    → find c.id now.connected ≡ some c
    → c.id ≡ r.share_id
    → c.validated_ancestry ≡ false
    → Follows records (install_validation now c r.validation) new
    → Follows (r ∷ records) now new
install-Follows r records now new c here own fresh follows id x there =
    elim (install-found now c x r.validation id here there) [
      | inl (kept, _) ↦
          let (last, found, restored) = follows id x kept in
          (last, found, Restored-later r records id x last restored)
      | inr (changed, same_key, same_entry) ↦
          let (last, found, restored) = follows id (with_validation c r.validation) changed in
          let final =
            Restored-validated records id (with_validation c r.validation) last refl restored in
          (
            last,
            found,
            inr (
              r,
              inl refl,
              sym own ∙ same_key,
              ap (λ y. y.validated_ancestry) same_entry ∙ fresh,
              final ∙ ap (λ y. with_validation y r.validation) (sym same_entry),
            ),
          )
    ]
