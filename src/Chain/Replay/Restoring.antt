-- ===== src/Chain/Replay/Restoring.antt =====
-- The chain after `restore_replay_validation`.
use zano_p2pool.Prelude.{
  ℕ, ◌≡◌, refl, sym, ◌∙◌, ap, subst, inl, inr, Bool-cases, Option-cases, true, false, none, some,
  List, [], ◌∷◌, ok, throws, arith, bind-ok, ok-injective, some-injective, Exception, Bool,
}
use zano_p2pool.Bytes.{Bytes}
use zano_p2pool.Bytes.Order.{same_iff}
use zano_p2pool.OrderedMap.{bytes_key, find, insert}
use zano_p2pool.OrderedMap.Sorted.{IsSorted}
use zano_p2pool.Sorting.{sort_by, insert_by}
use zano_p2pool.Validation.{CandidateValidation}
use zano_p2pool.Chain.{ShareChain, ConnectedShare}
use zano_p2pool.Chain.Submit.{install_validation}
use zano_p2pool.Chain.Invariant.{IsValid, Apart}
use zano_p2pool.Chain.Installing.{
  ParentValidated, with_validation, install_validation-IsValid, install_validation-Apart,
}
use zano_p2pool.Chain.Replay.{
  ReplayValidationRecord, IdSet, preflight, preflight_all, apply_records, restore_replay_validation,
  ordered_records,
}
use zano_p2pool.Chain.Replay.Applying.{
  Among, Follows, AllValidated, SameShares, check_restored-ParentValidated, install-SameShares,
  SameShares-trans, SameShares-AllValidated, insert-AllValidated, install-Follows, Restored-later,
  Restored-validated, install-found,
}
use zano_p2pool.Chain.Replay.Checks.{restore-Steps, existing-AllValidated, restore_records-unknown}

-- The invariants hold, entries changed only by records, and every record's share is validated.
pub record Restores (old : ShareChain) (records : List ReplayValidationRecord) (new : ShareChain)
    : Type 0 where
  pub valid : IsValid new
  pub apart : Apart new
  pub follows : Follows records old new
  pub validated :
      (r : ReplayValidationRecord)
      → Among r records
      → (c : ConnectedShare) × (find r.share_id new.connected ≡ some c)
        × (c.validated_ancestry ≡ true)

-- The share of the record, once the record is checked and the chain has the same shares.
preflight-ParentValidated :
    (chain now : ShareChain) (ids : IdSet) (r : ReplayValidationRecord) (u : Unit {0})
    (c : ConnectedShare)
    → SameShares chain now
    → AllValidated now ids
    → preflight chain ids r ≡ ok u
    → find r.share_id now.connected ≡ some c
    → c.validated_ancestry ≡ false
    → ParentValidated now c.share
unfolding preflight
preflight-ParentValidated chain now ids r u c shares all h here fresh =
    elim (Option-cases (find r.share_id chain.connected)) [
      | inl gone ↦ absurd (ground (arith, gone))
      | inr (old, there) ↦
          let (x, found, same_share, kept) = shares r.share_id old there in
          let same_entry : x ≡ c = some-injective (sym found ∙ here) in
          elim (Bool-cases old.validated_ancestry) [
            | inl valid ↦ absurd (cc (ap (λ y. y.validated_ancestry) same_entry, kept valid, fresh))
            | inr unvalidated ↦
                subst (ParentValidated now) (sym same_share ∙ ap (λ y. y.share) same_entry) (
                  check_restored-ParentValidated chain now ids old.share u all
                    (rw (preflight, there, unvalidated) at h))
          ]
    ]

-- A record whose share is validated already.
skip-Restores :
    (r : ReplayValidationRecord) (records : List ReplayValidationRecord) (now new : ShareChain)
    (c : ConnectedShare)
    → find r.share_id now.connected ≡ some c
    → c.validated_ancestry ≡ true
    → Restores now records new
    → Restores now (r ∷ records) new
skip-Restores r records now new c here valid rest = record {
  valid = rest.valid;
  apart = rest.apart;
  follows = λ id x there.
      let (last, found, restored) = rest.follows id x there in
      (last, found, Restored-later r records id x last restored);
  validated = λ y among. elim among [
    | inr later ↦ rest.validated y later
    | inl e ↦
        let (last, found, restored) = rest.follows r.share_id c here in
        let same_entry = Restored-validated records r.share_id c last valid restored in
        (
          last,
          subst (λ z. find z.share_id new.connected ≡ some last) (sym e) found,
          ap (λ z. z.validated_ancestry) same_entry ∙ valid,
        )
  ];
}

installed_entry :
    (now : ShareChain) (c : ConnectedShare) (w : CandidateValidation) (id : Bytes)
    → c.id ≡ id
    → find c.id now.connected ≡ some c
    → find id now.connected ≡ some c
    → find id (install_validation now c w).connected ≡ some (with_validation c w)
installed_entry now c w id own at_own here = elim (install-found now c c w id at_own here) [
  | inl (_, other) ↦ absurd (cc (other, (same_iff c.id id).1 own))
  | inr (changed, _, _) ↦ changed
]

-- A record that is installed.
install-Restores :
    (r : ReplayValidationRecord) (records : List ReplayValidationRecord) (now new : ShareChain)
    (c : ConnectedShare)
    → find r.share_id now.connected ≡ some c
    → c.id ≡ r.share_id
    → c.validated_ancestry ≡ false
    → Restores (install_validation now c r.validation) records new
    → Restores now (r ∷ records) new
install-Restores r records now new c here own fresh rest =
    let at_own = subst (λ k. find k now.connected ≡ some c) (sym own) here in
    record {
      valid = rest.valid;
      apart = rest.apart;
      follows = install-Follows r records now new c at_own own fresh rest.follows;
      validated = λ y among. elim among [
        | inr later ↦ rest.validated y later
        | inl e ↦
            let changed = installed_entry now c r.validation r.share_id own at_own here in
            let (last, found, restored) =
              rest.follows r.share_id (with_validation c r.validation) changed in
            let same_entry =
              Restored-validated records r.share_id (with_validation c r.validation) last refl
                restored in
            (
              last,
              subst (λ z. find z.share_id new.connected ≡ some last) (sym e) found,
              ap (λ z. z.validated_ancestry) same_entry,
            )
      ];
    }

apply-Restores :
    (chain now : ShareChain) (ids : IdSet) (records : List ReplayValidationRecord) (u : Unit {0})
    (n : ℕ) (new : ShareChain)
    → IsValid now
    → Apart now
    → SameShares chain now
    → AllValidated now ids
    → preflight_all chain ids records ≡ ok u
    → apply_records now records ≡ ok (n, new)
    → Restores now records new
unfolding preflight_all apply_records install_validation find
apply-Restores chain now ids [] u n new v apart shares all checked h =
    subst (Restores now []) (ap (λ p. p.1) (ok-injective h)) (record {
      valid = v;
      apart = apart;
      follows = λ id c there. (c, there, inl refl);
      validated = λ r among. elim among [ ];
    })
apply-Restores chain now ids (r ∷ records) u n new v apart shares all checked h =
    let (w, own_check, checks) = bind-ok (preflight chain ids r) _ checked in
    elim (Option-cases (find r.share_id now.connected)) [
      | inl gone ↦ absurd (ground (arith, rw (apply_records, gone) at h))
      | inr (c, here) ↦ elim (Bool-cases c.validated_ancestry) [
        | inl valid ↦ skip-Restores r records now new c here valid (
            apply-Restores chain now (insert r.share_id tt ids) records u n new v apart shares
              (insert-AllValidated now ids r.share_id c all here valid) checks
              (rw (apply_records, here, valid) at h))
        | inr fresh ↦
            let own = (v.entries r.share_id c here).own_id in
            let at_own = subst (λ k. find k now.connected ≡ some c) (sym own) here in
            let next = install_validation now c r.validation in
            let ((m, last), rest, k) =
              bind-ok (apply_records next records) _ (rw (apply_records, here, fresh) at h) in
            let parent =
              preflight-ParentValidated chain now ids r w c shares all own_check here fresh in
            let changes = install-SameShares now c r.validation at_own in
            let installed = installed_entry now c r.validation r.share_id own at_own here in
            install-Restores r records now new c here own fresh (
              subst (Restores next records) (ap (λ p. p.1) (ok-injective k)) (
                apply-Restores chain next (insert r.share_id tt ids) records u m last
                  (install_validation-IsValid now c r.validation v at_own parent)
                  (install_validation-Apart now c r.validation at_own apart)
                  (SameShares-trans chain now next shares changes)
                  (insert-AllValidated next ids r.share_id (with_validation c r.validation)
                    (SameShares-AllValidated now next ids changes all) installed refl)
                  checks rest))
      ]
    ]

module _ (less : ReplayValidationRecord → ReplayValidationRecord → Bool) where
  Among-insert_by :
      (r x : ReplayValidationRecord) (xs : List ReplayValidationRecord)
      → (Among r (insert_by less x xs) → Among r (x ∷ xs))
        × (Among r (x ∷ xs) → Among r (insert_by less x xs))
  unfolding insert_by
  Among-insert_by r x [] = (λ h. h, λ h. h)
  Among-insert_by r x (y ∷ xs) =
      let (from, to) = Among-insert_by r x xs in
      elim (Bool-cases (less y x)) [
        | inr e ↦ rw e (λ h. h, λ h. h)
        | inl e ↦ rw e (
          λ h. elim h [
            | inl own ↦ inr (inl own)
            | inr later ↦ elim (from later) [ inl own ↦ inl own | inr rest ↦ inr (inr rest) ]
          ],
          λ h. elim h [
            | inl own ↦ inr (to (inl own))
            | inr later ↦ elim later [ inl own ↦ inl own | inr rest ↦ inr (to (inr rest)) ]
          ],
        )
      ]

  Among-sort_by :
      (r : ReplayValidationRecord) (xs : List ReplayValidationRecord)
      → (Among r (sort_by less xs) → Among r xs) × (Among r xs → Among r (sort_by less xs))
  unfolding sort_by
  Among-sort_by r [] = (λ h. h, λ h. h)
  Among-sort_by r (x ∷ xs) =
      let (from, to) = Among-sort_by r xs in
      let (from_insert, to_insert) = Among-insert_by r x (sort_by less xs) in
      (
        λ h. elim (from_insert h) [ inl own ↦ inl own | inr later ↦ inr (from later) ],
        λ h. to_insert (elim h [ inl own ↦ inl own | inr later ↦ inr (to later) ]),
      )

Restores-ordered :
    (chain : ShareChain) (records : List ReplayValidationRecord) (new : ShareChain)
    → Restores chain (ordered_records chain records) new
    → Restores chain records new
unfolding ordered_records
Restores-ordered chain records new rest = record {
  valid = rest.valid;
  apart = rest.apart;
  follows = λ id c there.
      let (last, found, restored) = rest.follows id c there in
      (
        last,
        found,
        elim restored [
          | inl e ↦ inl e
          | inr (r, among, own, fresh, e) ↦
              inr (r, (Among-sort_by _ r records).0 among, own, fresh, e)
        ],
      );
  validated = λ r among. rest.validated r ((Among-sort_by _ r records).1 among);
}

SameShares-refl : (chain : ShareChain) → SameShares chain chain
SameShares-refl chain id c there = (c, there, refl, λ h. h)

-- When `restore_replay_validation` returns on a valid chain with unconnected orphans and sorted
-- entries, the new chain is valid, every entry is as before or was not validated and has the
-- validation of a record for its id, and the share of every record is connected and validated.
pub restore-Restores :
    (chain : ShareChain) (records : List ReplayValidationRecord) (n : ℕ) (new : ShareChain)
    → IsValid chain
    → Apart chain
    → IsSorted chain.connected
    → restore_replay_validation chain records ≡ ok (n, new)
    → Restores chain records new
unfolding restore_replay_validation
restore-Restores chain [] n new v apart sorted h =
    subst (Restores chain []) (ap (λ p. p.1) (ok-injective h)) (record {
      valid = v;
      apart = apart;
      follows = λ id c there. (c, there, inl refl);
      validated = λ r among. elim among [ ];
    })
restore-Restores chain (r ∷ records) n new v apart sorted h =
    let steps = restore-Steps chain (r ∷ records) n new h in
    Restores-ordered chain (r ∷ records) new (
      apply-Restores chain chain steps.ids (ordered_records chain (r ∷ records)) steps.checked.0 n
        new v apart (SameShares-refl chain)
        (existing-AllValidated chain steps.ids sorted steps.existing) steps.checked.1 steps.applied)

-- If one of the records names a share that is not connected, `restore_replay_validation` throws.
pub restore-unknown :
    (chain : ShareChain) (records : List ReplayValidationRecord) (r : ReplayValidationRecord)
    → Among r records
    → find r.share_id chain.connected ≡ none
    → (e : Exception) × (restore_replay_validation chain records ≡ throws e)
unfolding restore_replay_validation
restore-unknown chain [] r among gone = elim among [ ]
restore-unknown chain (x ∷ records) r among gone =
    restore_records-unknown chain (x ∷ records) r among gone
