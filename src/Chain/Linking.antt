-- ===== src/Chain/Linking.antt =====
-- The outcomes of `connect_share` of src/share_chain.cpp.
use native.Mathlib.Nat.{mod-eq_of_lt}
use zano_p2pool.Prelude.{
  ◌+◌, ◌≤◌, ◌≡◌, refl, sym, ap, ◌∙◌, subst, ◌⊎◌, inl, inr, Bool, true, false, ◌&&◌, not, Bool-cases,
  Result-cases, ok_pair, Option, none, some, ok, arith,
}
use zano_p2pool.Bytes.{Bytes, value, IsArray}
use zano_p2pool.OrderedMap.{bytes_key, find, insert}
use zano_p2pool.OrderedMap.Laws.{find-insert_self, contains-find-none}
use zano_p2pool.Share.{Share, IsShare, is_zero_share_id, difficulty128_is_zero}
use zano_p2pool.Work.{add_chain_work_checked}
use zano_p2pool.Work.Sum.{share_work-value, add_chain_work-sum}
use zano_p2pool.Validation.{CandidateValidation}
use zano_p2pool.Chain.{
  ShareChain, ConnectedShare, ShareRejectReason, accepted, is_accepted, cumulative_work_overflow,
}
use zano_p2pool.Chain.Rules.{parent_timestamp_reject_reason}
use zano_p2pool.Chain.Connect.{
  parent_of, link_reject_reason, parent_reject_reason, insert_connected, connect_checked,
  connect_share, enforced_reject_reason, met_share_difficulty,
}
use zano_p2pool.Chain.Invariant.{IsEntry, IsValid}
use zano_p2pool.Chain.Insertion.{
  find-insert_old, find-insert_cases, Entries-insert, updated_tip-IsBest,
}

-- The new chain holds what the old one held, under the same policy.
pub record Extends (old new : ShareChain) : Type 0 where
  pub kept :
      (k : Bytes) (c : ConnectedShare)
      → find k old.connected ≡ some c
      → find k new.connected ≡ some c
  pub policy : new.difficulty_policy ≡ old.difficulty_policy
  pub parameters : new.parameter_id ≡ old.parameter_id

pub Extends-refl : (c : ShareChain) → Extends c c
Extends-refl c = record { kept = λ k d h. h; policy = refl; parameters = refl }

pub Extends-trans : (a b c : ShareChain) → Extends a b → Extends b c → Extends a c
Extends-trans a b c f g = record {
  kept = λ k d h. g.kept k d (f.kept k d h);
  policy = g.policy ∙ f.policy;
  parameters = g.parameters ∙ f.parameters;
}

-- The share is now connected under its id, and the orphans are as before.
pub record Admits (old : ShareChain) (share : Share) (id : Bytes) (new : ShareChain) : Type 0 where
  pub entry : ConnectedShare
  pub found : find id new.connected ≡ some entry
  pub own_share : entry.share ≡ share
  pub valid : IsValid new
  pub extends : Extends old new
  pub only :
      (k : Bytes) (c : ConnectedShare)
      → find k new.connected ≡ some c
      → (id ≡ k) ⊎ (find k old.connected ≡ some c)
  pub orphans : new.orphans ≡ old.orphans
  pub by_parent : new.orphans_by_parent ≡ old.orphans_by_parent

abbrev pub Outcome : ShareChain → Share → Bytes → ShareRejectReason → ShareChain → Type 0
Outcome old share id reason new =
    ((is_accepted reason ≡ false) × (new ≡ old)) ⊎ ((reason ≡ accepted) × Admits old share id new)

-- What the parent lookup returned.
abbrev pub IsParentOf : ShareChain → Share → Option ConnectedShare → Type 0
IsParentOf chain share none = is_zero_share_id share.parent_id ≡ true
IsParentOf chain share (some p) =
    (is_zero_share_id share.parent_id ≡ false) × (find share.parent_id chain.connected ≡ some p)

pub parent_of-IsParentOf :
    (chain : ShareChain) (share : Share) (o : Option ConnectedShare)
    → parent_of chain share ≡ ok o
    → IsParentOf chain share o
unfolding parent_of
parent_of-IsParentOf chain share none h = ground arith
parent_of-IsParentOf chain share (some p) h = (ground arith, ground arith)

link_accepted :
    (share : Share) (p : ConnectedShare)
    → is_accepted (link_reject_reason share p) ≡ true
    → (share.share_height ≡ p.share.share_height + 1) × (p.share.timestamp ≤ share.timestamp + 60)
unfolding link_reject_reason parent_timestamp_reject_reason
link_accepted share p h = ground arith

child_validated : (a b c : Bool) → ((a && (b && c)) && not c) ≡ false
child_validated a b c = ground arith

-- The sum that `add_chain_work_checked` returns when it fits.
branch_fits :
    (a b : Bytes)
    → IsArray 32 a
    → IsArray 32 b
    → (add_chain_work_checked a b).0 ≡ true
    → value (add_chain_work_checked a b).1 ≡ value a + value b
branch_fits a b ha hb h =
    let s = add_chain_work-sum 32 a b ha hb in s.1 ∙ mod-eq_of_lt (ground (arith, s.0))

-- The new entry that `connect_checked` builds.
module _ (chain : ShareChain) (valid : IsValid chain) (share : Share) (ranges : IsShare share)
    (nonzero : difficulty128_is_zero share.share_difficulty ≡ false) (id : Bytes)
    (fresh : find id chain.connected ≡ none) (own : Bytes) (own_array : IsArray 32 own)
    (own_value : value own ≡ value share.share_difficulty) where
  abbrev entry_with : Bytes → Option CandidateValidation → Bool → ConnectedShare
  entry_with work pow validated = record {
    share = share;
    id = id;
    cumulative_work = work;
    pow_validation = pow;
    validated_ancestry = validated;
  }

  insert_Admits :
      (e : ConnectedShare)
      → e.id ≡ id
      → e.share ≡ share
      → IsEntry chain.connected e.id e
      → (new : ShareChain) × (insert_connected chain e ≡ ok new) × Admits chain share id new
  unfolding insert_connected
  insert_Admits e eid es new =
      let fresh' : find e.id chain.connected ≡ none = rw eid fresh in
      let (tip, updated, best) =
        updated_tip-IsBest chain.connected e fresh' chain.best_tip_id valid.best in
      (
        record chain { connected = insert e.id e chain.connected; best_tip_id = tip },
        rw (contains-find-none e.id chain.connected fresh', updated),
        record {
          entry = e;
          found =
              subst (λ k. find k (insert e.id e chain.connected) ≡ some e) eid
                (find-insert_self e.id e chain.connected);
          own_share = es;
          valid = record {
            entries = Entries-insert chain.connected e fresh' new valid.entries;
            best = best;
            waiting = valid.waiting;
          };
          extends = record {
            kept = find-insert_old chain.connected e fresh';
            policy = refl;
            parameters = refl;
          };
          only = λ k c h. elim (find-insert_cases chain.connected e fresh' k c h) [
            | inl (eq, _) ↦ inl (sym eid ∙ eq)
            | inr old ↦ inr old
          ];
          orphans = refl;
          by_parent = refl;
        },
      )

  IsEntry-of_root :
      (pow : Option CandidateValidation) (validated : Bool)
      → is_zero_share_id share.parent_id ≡ true
      → IsEntry chain.connected id (entry_with own pow validated)
  IsEntry-of_root pow validated root = record {
    own_id = refl;
    share_ranges = ranges;
    work_array = own_array;
    nonzero = nonzero;
    has_parent = inl (root, own_value);
  }

  IsEntry-of_child :
      (pow : Option CandidateValidation) (a b : Bool) (p : ConnectedShare)
      → IsParentOf chain share (some p)
      → is_accepted (link_reject_reason share p) ≡ true
      → (add_chain_work_checked p.cumulative_work own).0 ≡ true
      → IsEntry chain.connected id (
          entry_with
            (add_chain_work_checked p.cumulative_work own).1
            pow
            (a && (b && p.validated_ancestry)))
  IsEntry-of_child pow a b p (z, there) link fits =
      let arrays = (valid.entries share.parent_id p there).work_array in
      let linked = link_accepted share p link in
      record {
        own_id = refl;
        share_ranges = ranges;
        work_array = (add_chain_work-sum 32 p.cumulative_work own arrays own_array).2;
        nonzero = nonzero;
        has_parent = inr (
          p,
          z,
          there,
          record {
            height = linked.0;
            work =
                branch_fits p.cumulative_work own arrays own_array fits
                ∙ ap (λ k. value p.cumulative_work + k) own_value;
            timestamp = linked.1;
            validated = child_validated a b p.validated_ancestry;
          },
        );
      }

  -- Behind the checks the share is connected, or refused because the work overflows.
  connect_checked_lem :
      (pow : Option CandidateValidation) (enforce : Bool) (parent : Option ConnectedShare)
      → IsParentOf chain share parent
      → is_accepted (parent_reject_reason share parent) ≡ true
      → (reason : ShareRejectReason) × (new : ShareChain) × (connect_checked chain share id pow
            enforce parent own
          ≡ ok (reason, new))
        × Outcome chain share id reason new
  unfolding connect_checked
  connect_checked_lem pow enforce none root link =
      let e = entry_with own pow (enforce && (met_share_difficulty pow && true)) in
      let (new, inserted, admits) = insert_Admits e refl refl (IsEntry-of_root pow _ root) in
      (accepted, new, rw inserted, inr (refl, admits))
  connect_checked_lem pow enforce (some p) parent link =
      elim (Bool-cases (add_chain_work_checked p.cumulative_work own).0) [
        | inr over ↦ (cumulative_work_overflow, chain, rw over, inl (refl, refl))
        | inl fits ↦
            let (new, inserted, admits) =
              insert_Admits
                (entry_with (add_chain_work_checked p.cumulative_work own).1 pow
                  (enforce && (met_share_difficulty pow && p.validated_ancestry)))
                refl refl
                (IsEntry-of_child pow enforce (met_share_difficulty pow) p parent link fits) in
            (accepted, new, rw (fits, inserted), inr (refl, admits))
      ]

-- Whenever the parent lookup and the difficulty rule return, so does `connect_share`.
pub connect_share-total :
    (chain : ShareChain) (share : Share) (id : Bytes) (pow : Option CandidateValidation)
    (enforce : Bool) (parent : Option ConnectedShare) (rule : ShareRejectReason)
    → IsValid chain
    → IsShare share
    → difficulty128_is_zero share.share_difficulty ≡ false
    → find id chain.connected ≡ none
    → parent_of chain share ≡ ok parent
    → enforced_reject_reason enforce chain share ≡ ok rule
    → (reason : ShareRejectReason) × (new : ShareChain) × (connect_share chain share id pow enforce
        ≡ ok (reason, new))
      × Outcome chain share id reason new
unfolding connect_share
connect_share-total chain share id pow enforce parent rule valid ranges nonzero fresh found ruled =
    let (own, worked, own_array, own_value) =
      share_work-value share.share_difficulty ranges.share_difficulty_array nonzero in
    elim (Bool-cases (is_accepted (parent_reject_reason share parent))) [
      | inr refused ↦ (
        parent_reject_reason share parent,
        chain,
        rw (worked, found, refused),
        inl (refused, refl),
      )
      | inl linked ↦ elim (Bool-cases (is_accepted rule)) [
        | inr refused ↦
            (rule, chain, rw (worked, found, linked, ruled, refused), inl (refused, refl))
        | inl fine ↦
            let (reason, new, done, outcome) =
              connect_checked_lem chain valid share ranges nonzero id fresh own own_array own_value
                pow enforce parent (parent_of-IsParentOf chain share parent found) linked in
            (reason, new, rw (worked, found, linked, ruled, fine) done, outcome)
      ]
    ]

-- What `connect_share` returns, if it returns.
pub connect_share-Outcome :
    (chain : ShareChain) (share : Share) (id : Bytes) (pow : Option CandidateValidation)
    (enforce : Bool) (reason : ShareRejectReason) (new : ShareChain)
    → IsValid chain
    → IsShare share
    → difficulty128_is_zero share.share_difficulty ≡ false
    → find id chain.connected ≡ none
    → connect_share chain share id pow enforce ≡ ok (reason, new)
    → Outcome chain share id reason new
unfolding connect_share
connect_share-Outcome chain share id pow enforce reason new valid ranges nonzero fresh h =
    let (own, worked, own_array, own_value) =
      share_work-value share.share_difficulty ranges.share_difficulty_array nonzero in
    elim (Result-cases (parent_of chain share)) [
      | inr (x, e) ↦ absurd (ground (arith, worked, e))
      | inl (parent, found) ↦ elim (Bool-cases (is_accepted (parent_reject_reason share parent))) [
        | inr refused ↦ inl (ground (arith, worked, found), ground (arith, worked, found))
        | inl linked ↦ elim (Result-cases (enforced_reject_reason enforce chain share)) [
          | inr (x, e) ↦ absurd (ground (arith, worked, found, e))
          | inl (rule, ruled) ↦
              let (r, c, done, outcome) =
                connect_share-total chain share id pow enforce parent rule valid ranges nonzero
                  fresh found ruled in
              let same_result = ok_pair (connect_share chain share id pow enforce) done h in
              subst (λ x. Outcome chain share id x new) same_result.0
                (subst (λ x. Outcome chain share id r x) same_result.1 outcome)
        ]
      ]
    ]
