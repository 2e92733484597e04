-- ===== src/Chain/Revalidation.antt =====
-- The proofs about `revalidate_connected_share` of src/share_chain.cpp.
use zano_p2pool.Prelude.{
  ℕ, ◌≡◌, sym, subst, ◌⊎◌, inl, inr, false, Bool-cases, Option-cases, Result-cases, some, ok, arith,
}
use zano_p2pool.Bytes.{Bytes}
use zano_p2pool.OrderedMap.{bytes_key, find}
use zano_p2pool.Share.{has_value}
use zano_p2pool.Platform.{Platform, ProgPowZContextMode}
use zano_p2pool.Chain.{ShareChain, ConnectedShare, ShareWorkContext, is_accepted}
use zano_p2pool.Chain.Submit.{
  own_reject_reason, proof_check, passed, failed, revalidation_parent_check, RevalidateShareResult,
  validated, install_validation, revalidate_checked, revalidate_entry, revalidate_connected_share,
}
use zano_p2pool.Chain.Invariant.{IsValid, Apart}
use zano_p2pool.Chain.Submission.{IsProven, proof_check-IsProven}
use zano_p2pool.Chain.Installing.{
  ParentValidated, parent_check-validated, parent_check-cases, install_validation-IsValid,
  install_validation-Apart,
}

-- A connected share that got its validation.
pub record Reinstates (platform : Platform) (mode : ProgPowZContextMode) (chain : ShareChain)
    (id : Bytes) (context : ShareWorkContext) (now : ℕ) (r : RevalidateShareResult)
    (new : ShareChain) : Type 0 where
  pub entry : ConnectedShare
  pub was_connected : find id chain.connected ≡ some entry
  pub was_unvalidated : entry.validated_ancestry ≡ false
  pub parent_validated : ParentValidated chain entry.share
  pub proven : IsProven platform mode entry.share context now
  pub status : r.status ≡ validated
  pub valid : IsValid new
  pub apart : Apart new

revalidate_entry-Reinstates :
    (platform : Platform) (mode : ProgPowZContextMode) (chain : ShareChain) (id : Bytes)
    (context : ShareWorkContext) (now : ℕ) (r : RevalidateShareResult) (new : ShareChain)
    (c : ConnectedShare)
    → IsValid chain
    → Apart chain
    → find id chain.connected ≡ some c
    → c.validated_ancestry ≡ false
    → revalidate_entry platform chain c id context now mode ≡ ok (r, new)
    → (new ≡ chain) ⊎ Reinstates platform mode chain id context now r new
unfolding revalidate_entry revalidate_checked
revalidate_entry-Reinstates platform mode chain id context now r new c v apart here unvalidated h =
    elim (Bool-cases (is_accepted (own_reject_reason chain c.share context now))) [
      | inr refused ↦ inl (ground (arith, refused))
      | inl fine ↦ elim (parent_check-cases (revalidation_parent_check chain c.share)) [
        | inr (status, reason, e) ↦ inl (ground (arith, fine, e))
        | inl e ↦ elim (Result-cases (proof_check platform chain c.share context mode)) [
          | inr (x, f) ↦ absurd (ground (arith, fine, e, f))
          | inl (failed reason, f) ↦ inl (ground (arith, fine, e, f))
          | inl (passed w, f) ↦
              let entry = v.entries id c here in
              let own : find c.id chain.connected ≡ some c =
                subst (λ j. find j chain.connected ≡ some c) (sym entry.own_id) here in
              let parent = parent_check-validated chain c.share e in
              let same_chain : install_validation chain c w ≡ new = ground (arith, fine, e, f) in
              inr (record {
                entry = c;
                was_connected = here;
                was_unvalidated = unvalidated;
                parent_validated = parent;
                proven =
                    proof_check-IsProven platform chain c.share context now mode w
                      entry.share_ranges fine f;
                status = ground (arith, fine, e, f);
                valid =
                    subst IsValid same_chain (install_validation-IsValid chain c w v own parent);
                apart = subst Apart same_chain (install_validation-Apart chain c w own apart);
              })
        ]
      ]
    ]

-- When `revalidate_connected_share` returns on a valid chain with unconnected orphans, the chain
-- is as before, or the share was connected and not validated, its parent is validated or it is a
-- root, it names the trusted work, its hash meets its difficulty, the status is validated, and
-- the new chain keeps the invariants.
pub revalidate-Reinstates :
    (platform : Platform) (mode : ProgPowZContextMode) (chain : ShareChain) (id : Bytes)
    (context : ShareWorkContext) (now : ℕ) (r : RevalidateShareResult) (new : ShareChain)
    → IsValid chain
    → Apart chain
    → revalidate_connected_share platform chain id context now mode ≡ ok (r, new)
    → (new ≡ chain) ⊎ Reinstates platform mode chain id context now r new
unfolding revalidate_connected_share
revalidate-Reinstates platform mode chain id context now r new v apart h =
    elim (Option-cases (find id chain.connected)) [
      | inl e ↦ inl (ground (arith, e))
      | inr (c, e) ↦ elim (Bool-cases c.validated_ancestry) [
        | inl already ↦ inl (ground (arith, e, already))
        | inr unvalidated ↦ elim (Bool-cases (has_value chain.difficulty_policy)) [
          | inr free ↦ inl (ground (arith, e, unvalidated, free))
          | inl bound ↦
              revalidate_entry-Reinstates platform mode chain id context now r new c v apart e
                unvalidated (ground (arith, e, unvalidated, bound))
        ]
      ]
    ]
