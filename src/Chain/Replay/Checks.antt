-- ===== src/Chain/Replay/Checks.antt =====
-- What the checks of `restore_replay_validation` say when they pass.
use zano_p2pool.Prelude.{
  ℕ, ◌≡◌, sym, subst, inl, inr, Bool-cases, Option-cases, true, not, none, some, List, [], ◌∷◌, ok,
  throws, arith, Result-cases, Exception, bind-ok, guard-ok, ok-injective,
}
use zano_p2pool.Bytes.{Bytes, same}
use zano_p2pool.Bytes.Order.{same_iff}
use zano_p2pool.OrderedMap.{bytes_key, find, contains, insert}
use zano_p2pool.OrderedMap.Laws.{contains-insert}
use zano_p2pool.OrderedMap.Sorted.{IsSorted}
use zano_p2pool.Share.{share_id, is_zero_share_id, has_value}
use zano_p2pool.Chain.{ShareChain, ConnectedShare}
use zano_p2pool.Chain.Invariant.{Connected}
use zano_p2pool.Chain.Prune.Subtree.{Within, find-later, find-head}
use zano_p2pool.Chain.Replay.{
  ReplayValidationRecord, IdSet, existing_validated, has_consistent, resolve, restore_records,
  check_ancestry, preflight_all, ordered_records, apply_records, replay_validation_consistent,
}
use zano_p2pool.Chain.Replay.Applying.{Among, AllValidated}

-- The shares of the set are validated entries of the map.
abbrev ValidatedIn : Connected → IdSet → Type 0
ValidatedIn m ids =
    (id : Bytes)
    → contains id ids ≡ true
    → (c : ConnectedShare) × (find id m ≡ some c) × (c.validated_ancestry ≡ true)

insert-ValidatedIn :
    (m : Connected) (ids : IdSet) (id : Bytes) (c : ConnectedShare)
    → ValidatedIn m ids
    → find id m ≡ some c
    → c.validated_ancestry ≡ true
    → ValidatedIn m (insert id tt ids)
insert-ValidatedIn m ids id c all here valid k h = elim (Bool-cases (same id k)) [
  | inl e ↦ (c, subst (λ j. find j m ≡ some c) ((same_iff id k).0 e) here, valid)
  | inr e ↦ all k (ground (arith, contains-insert k id tt ids, e))
]

existing-ValidatedIn :
    (all rest : Connected) (ids new : IdSet)
    → IsSorted rest
    → Within all rest
    → ValidatedIn all ids
    → existing_validated rest ids ≡ ok new
    → ValidatedIn all new
unfolding existing_validated
existing-ValidatedIn all [] ids new sorted within valid h =
    subst (ValidatedIn all) (ok-injective h) valid
existing-ValidatedIn all ((id, c) ∷ rest) ids new sorted within valid h =
    let tail : Within all rest =
      λ k x there. within k x (find-later k id c x rest sorted.0 there) in
    elim (Bool-cases c.validated_ancestry) [
      | inr e ↦
          existing-ValidatedIn all rest ids new sorted.1 tail valid
            (rw (existing_validated, e) at h)
      | inl e ↦
          let (consistent, h1) =
            guard-ok (not (has_consistent c.pow_validation)) _ _
              (rw (existing_validated, e) at h) in
          let (own, o, h2) = bind-ok (share_id c.share) _ h1 in
          let (agrees, h3) = guard-ok (not (same own id)) _ _ h2 in
          existing-ValidatedIn all rest (insert id tt ids) new sorted.1 tail
            (insert-ValidatedIn all ids id c valid (within id c (find-head id c rest)) e) h3
    ]

pub existing-AllValidated :
    (chain : ShareChain) (ids : IdSet)
    → IsSorted chain.connected
    → existing_validated chain.connected [] ≡ ok ids
    → AllValidated chain ids
unfolding contains
existing-AllValidated chain ids sorted h =
    existing-ValidatedIn chain.connected chain.connected [] ids sorted (λ id c there. there)
      (λ id none_there. absurd cc) h

-- Records that are resolved are connected.
pub resolve-connected :
    (chain : ShareChain) (seen : IdSet) (records : List ReplayValidationRecord) (u : Unit {0})
    (r : ReplayValidationRecord)
    → resolve chain seen records ≡ ok u
    → Among r records
    → (c : ConnectedShare) × (find r.share_id chain.connected ≡ some c)
unfolding resolve
resolve-connected chain seen [] u r h among = elim among [ ]
resolve-connected chain seen (x ∷ records) u r h among =
    let (nonzero, h1) = guard-ok (is_zero_share_id x.share_id) _ _ h in
    let (new_id, h2) = guard-ok (contains x.share_id seen) _ _ h1 in
    let (consistent, h3) = guard-ok (not (replay_validation_consistent x.validation)) _ _ h2 in
    elim (Option-cases (find x.share_id chain.connected)) [
      | inl gone ↦ absurd (ground (arith, rw gone at h3))
      | inr (c, there) ↦
          let (own, o, h4) = bind-ok (share_id c.share) _ (rw there at h3) in
          let (agrees, h5) = guard-ok (not (same own x.share_id)) _ _ h4 in
          elim among [
            | inl e ↦ (c, subst (λ y. find y.share_id chain.connected ≡ some c) (sym e) there)
            | inr later ↦ resolve-connected chain (insert x.share_id tt seen) records u r h5 later
          ]
    ]

-- The steps of a restoration that returns.
pub record Steps (chain : ShareChain) (records : List ReplayValidationRecord) (n : ℕ)
    (new : ShareChain) : Type 0 where
  pub ids : IdSet
  pub existing : existing_validated chain.connected [] ≡ ok ids
  pub resolved : (u : Unit {0}) × (resolve chain [] records ≡ ok u)
  pub checked : (u : Unit {0}) × (preflight_all chain ids (ordered_records chain records) ≡ ok u)
  pub applied : apply_records chain (ordered_records chain records) ≡ ok (n, new)

pub restore-Steps :
    (chain : ShareChain) (records : List ReplayValidationRecord) (n : ℕ) (new : ShareChain)
    → restore_records chain records ≡ ok (n, new)
    → Steps chain records n new
unfolding restore_records
restore-Steps chain records n new h =
    let (policy, h1) = guard-ok (not (has_value chain.difficulty_policy)) _ _ h in
    let (ids, existing, h2) = bind-ok (existing_validated chain.connected []) _ h1 in
    let (u, ancestry, h3) = bind-ok (check_ancestry chain chain.connected) _ h2 in
    let (w, resolved, h4) = bind-ok (resolve chain [] records) _ h3 in
    let (x, checked, applied) =
      bind-ok (preflight_all chain ids (ordered_records chain records)) _ h4 in
    record {
      ids = ids;
      existing = existing;
      resolved = (w, resolved);
      checked = (x, checked);
      applied = applied;
    }

-- A record that names an unknown share stops the restoration.
pub restore_records-unknown :
    (chain : ShareChain) (records : List ReplayValidationRecord) (r : ReplayValidationRecord)
    → Among r records
    → find r.share_id chain.connected ≡ none
    → (e : Exception) × (restore_records chain records ≡ throws e)
restore_records-unknown chain records r among gone =
    elim (Result-cases (restore_records chain records)) [
      | inr thrown ↦ thrown
      | inl ((n, new), h) ↦
          let steps = restore-Steps chain records n new h in
          let (c, there) =
            resolve-connected chain [] records steps.resolved.0 r steps.resolved.1 among in
          absurd (cc (there, gone))
    ]
