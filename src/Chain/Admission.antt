-- ===== src/Chain/Admission.antt =====
-- The proofs about `add_prevalidated_share` of src/share_chain.cpp.
use zano_p2pool.Prelude.{
  ◌≡◌, refl, subst, inl, inr, Bool, true, false, ◌&&◌, ◌||◌, not, Bool-cases, Result-cases, ok_pair,
  Option, none, some, ok, arith, length,
}
use zano_p2pool.Bytes.{Bytes}
use zano_p2pool.OrderedMap.{bytes_key, find, contains}
use zano_p2pool.OrderedMap.Laws.{find-insert_self, find_of_not_contains}
use zano_p2pool.Share.{Share, IsShare, share_id, is_zero_share_id, difficulty128_is_zero}
use zano_p2pool.Validation.{CandidateValidation}
use zano_p2pool.Chain.{
  ShareChain, OrphanShare, AddShareResult, ShareRejectReason, accepted, is_accepted, orphan_share,
  duplicate, rejected,
}
use zano_p2pool.Chain.Rules.{structural_reject_reason}
use zano_p2pool.Chain.Connect.{
  connect_share, promote_children, connect_and_promote, add_prevalidated_share, add_orphan,
  without_change,
}
use zano_p2pool.Chain.Invariant.{IsValid, Apart}
use zano_p2pool.Chain.Linking.{Extends-trans, connect_share-Outcome}
use zano_p2pool.Chain.Promotion.{Promotes, Promotes-refl, promote_children-Promotes}
use zano_p2pool.Chain.Dispositions.{
  structural-nonzero, was_duplicate, was_rejected, was_orphan, was_connected, Adds,
  add_orphan-Promotes, admitted-Apart,
}

connect_and_promote-Adds :
    (chain : ShareChain) (share : Share) (id : Bytes) (pow : Option CandidateValidation)
    (enforce : Bool) (r : AddShareResult) (new : ShareChain)
    → IsValid chain
    → Apart chain
    → IsShare share
    → difficulty128_is_zero share.share_difficulty ≡ false
    → find id chain.connected ≡ none
    → find id chain.orphans ≡ none
    → connect_and_promote chain share id pow enforce ≡ ok (r, new)
    → Adds chain share r new
unfolding connect_and_promote
connect_and_promote-Adds chain share id pow enforce r new v apart ranges nonzero free alone h =
    elim (Result-cases (connect_share chain share id pow enforce)) [
      | inr (x, e) ↦ absurd (ground (arith, e))
      | inl ((reason, chain1), e) ↦
          elim (connect_share-Outcome chain share id pow enforce reason chain1 v ranges nonzero free
            e) [
              | inl (refused, same_chain) ↦ record {
                promotes =
                    subst (Promotes chain) (ground (arith, e, refused, same_chain))
                      (Promotes-refl chain v apart);
                outcome =
                    was_rejected (ground (arith, e, refused)) (ground (arith, e, refused))
                      (ground (arith, e, refused, same_chain));
              }
              | inr (fine, a) ↦
                  elim (Result-cases
                    (promote_children (length chain1.orphans_by_parent) chain1 id)) [
                      | inr (x, f) ↦ absurd (ground (arith, e, fine, f))
                      | inl ((chain2, n), f) ↦
                          let apart1 : Apart chain1 =
                            admitted-Apart chain share id chain1 apart alone a in
                          let p =
                            promote_children-Promotes (length chain1.orphans_by_parent) chain1 id
                              chain2 n a.valid apart1 f in
                          let eq : chain2 ≡ new = ground (arith, e, fine, f) in
                          let same_id : id ≡ r.id = ground (arith, e, fine, f) in
                          record {
                            promotes = subst (Promotes chain) eq (record {
                              valid = p.valid;
                              apart = p.apart;
                              extends = Extends-trans chain chain1 chain2 a.extends p.extends;
                            });
                            outcome =
                                was_connected a.entry (ground (arith, e, fine, f))
                                  (subst (λ c. find r.id c.connected ≡ some a.entry) eq
                                    (subst (λ j. find j chain2.connected ≡ some a.entry) (same_id)
                                      (p.extends.kept id a.entry a.found)))
                                  a.own_share;
                          }
                    ]
            ]
    ]

rejected-Adds :
    (chain : ShareChain) (share : Share) (id : Bytes) (reason : ShareRejectReason)
    → IsValid chain
    → Apart chain
    → is_accepted reason ≡ false
    → Adds chain share (without_change rejected reason id) chain
rejected-Adds chain share id reason v apart refused = record {
  promotes = Promotes-refl chain v apart;
  outcome = was_rejected refl refused refl;
}

duplicate-Adds :
    (chain : ShareChain) (share : Share) (id : Bytes)
    → IsValid chain
    → Apart chain
    → (contains id chain.connected || contains id chain.orphans) ≡ true
    → Adds chain share (without_change duplicate accepted id) chain
duplicate-Adds chain share id v apart known = record {
  promotes = Promotes-refl chain v apart;
  outcome = was_duplicate refl known refl;
}

orphan-Adds :
    (chain : ShareChain) (o : OrphanShare)
    → IsValid chain
    → Apart chain
    → IsShare o.share
    → difficulty128_is_zero o.share.share_difficulty ≡ false
    → find o.id chain.connected ≡ none
    → find o.share.parent_id chain.connected ≡ none
    → Adds chain o.share (without_change orphan_share accepted o.id) (add_orphan chain o)
unfolding add_orphan
orphan-Adds chain o v apart ranges nonzero free missing = record {
  promotes = add_orphan-Promotes chain o v apart ranges nonzero free;
  outcome = was_orphan o refl missing (find-insert_self o.id o chain.orphans) refl refl;
}

unknown_id :
    (id : Bytes) (chain : ShareChain)
    → (contains id chain.connected || contains id chain.orphans) ≡ false
    → (find id chain.connected ≡ none) × (find id chain.orphans ≡ none)
unknown_id id chain h = (
  find_of_not_contains id chain.connected (ground arith),
  find_of_not_contains id chain.orphans (ground arith),
)

-- The same outcome of an equal result and an equal chain.
Adds-eq :
    (chain : ShareChain) (share : Share) {a b : AddShareResult} {c d : ShareChain}
    → a ≡ b
    → c ≡ d
    → Adds chain share a c
    → Adds chain share b d
Adds-eq chain share {a} {b} {c} {d} p q x =
    subst (λ k. Adds chain share k d) p (subst (λ k. Adds chain share a k) q x)

-- When `add_prevalidated_share` returns on a valid chain with unconnected orphans and a share of
-- proper field widths, the new chain is valid, keeps every connected share, and fits the
-- disposition: a duplicate was known and nothing changed, a rejection has a reason and nothing
-- changed, an orphan waits with its parent not connected, a connected share is found under its
-- id.
pub add_prevalidated-Adds :
    (chain : ShareChain) (share : Share) (pow : Option CandidateValidation) (enforce : Bool)
    (r : AddShareResult) (new : ShareChain)
    → IsValid chain
    → Apart chain
    → IsShare share
    → add_prevalidated_share chain share pow enforce ≡ ok (r, new)
    → Adds chain share r new
unfolding add_prevalidated_share
add_prevalidated-Adds chain share pow enforce r new v apart ranges h =
    elim (Result-cases (share_id share)) [
      | inr (x, e) ↦ absurd (ground (arith, e))
      | inl (id, e) ↦ elim (Bool-cases (contains id chain.connected || contains id chain.orphans)) [
        | inl known ↦
            let eq = ok_pair (add_prevalidated_share chain share pow enforce) (rw (e, known)) h in
            Adds-eq chain share eq.0 eq.1 (duplicate-Adds chain share id v apart known)
        | inr unknown ↦
            let (free, alone) = unknown_id id chain unknown in
            elim (Bool-cases (is_accepted (structural_reject_reason chain share))) [
              | inr refused ↦
                  let eq =
                    ok_pair (add_prevalidated_share chain share pow enforce)
                      (rw (e, unknown, refused)) h in
                  Adds-eq chain share eq.0 eq.1 (
                    rejected-Adds chain share id (structural_reject_reason chain share) v apart
                      refused)
              | inl fine ↦
                  let nonzero = structural-nonzero chain share fine in
                  elim (Bool-cases (
                    not (is_zero_share_id share.parent_id)
                    && not (contains share.parent_id chain.connected))) [
                      | inl orphan ↦
                          let eq =
                            ok_pair (add_prevalidated_share chain share pow enforce)
                              (rw (e, unknown, fine, orphan)) h in
                          Adds-eq chain share eq.0 eq.1 (
                            orphan-Adds chain
                              (record {
                                share = share;
                                id = id;
                                pow_validation = pow;
                                enforce_sidechain_difficulty = enforce;
                              })
                              v apart ranges nonzero free
                              (find_of_not_contains share.parent_id chain.connected (ground arith)))
                      | inr here ↦
                          connect_and_promote-Adds chain share id pow enforce r new v apart ranges
                            nonzero free alone (rw (e, unknown, fine, here) at h)
                    ]
            ]
      ]
    ]
