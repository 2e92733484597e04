-- ===== src/Chain/Connect.antt =====
-- Admission of a share whose proof of work is settled: `connect_share`, `promote_children` and
-- `add_prevalidated_share` of src/share_chain.cpp. The flag `best_tip_changed` that the first two
-- pass on is not modelled: the third overwrites it by comparing the tips before and after.
use zano_p2pool.Prelude.{
  ℕ, zero, suc, ◌+◌, Bool, true, false, ◌&&◌, ◌||◌, not, Option, none, some, List, [], ◌∷◌, ◌++◌,
  ◌>>=◌, ◌>>◌, Result, ok, throws, throw_if, logic_error, length, if◌then◌else◌, ◌==◌,
}
use zano_p2pool.Bytes.{Bytes, same, before}
use zano_p2pool.OrderedMap.{bytes_key, OrderedMap, find, contains, insert, erase}
use zano_p2pool.Share.{Share, share_id, is_zero_share_id}
use zano_p2pool.Work.{share_work, add_chain_work_checked}
use zano_p2pool.Validation.{CandidateValidation}
use zano_p2pool.Sorting.{sort_by}
use zano_p2pool.SidechainDifficulty.{max64}
use zano_p2pool.Chain.{
  ShareChain, ConnectedShare, OrphanShare, AddShareResult, ShareRejectReason, accepted, is_accepted,
  parent_height_mismatch, cumulative_work_overflow, ShareDisposition, connected_share, orphan_share,
  duplicate, rejected, better_tip,
}
use zano_p2pool.Chain.Rules.{
  structural_reject_reason, parent_timestamp_reject_reason, expected_difficulty_reject_reason,
}

-- The connected parent, none for a root share.
unfoldable pub parent_of : ShareChain → Share → Result (Option ConnectedShare)
parent_of chain share =
    if is_zero_share_id share.parent_id
    then ok none
    else (elim (find share.parent_id chain.connected) [
      | none ↦ throws logic_error
      | some parent ↦ ok (some parent)
    ])

-- The height and the timestamp against the parent.
unfoldable pub link_reject_reason : Share → ConnectedShare → ShareRejectReason
link_reject_reason share parent =
    if (parent.share.share_height == max64)
      || not (share.share_height == parent.share.share_height + 1)
    then parent_height_mismatch
    else parent_timestamp_reject_reason share parent.share

abbrev pub parent_reject_reason : Share → Option ConnectedShare → ShareRejectReason
parent_reject_reason share none = accepted
parent_reject_reason share (some parent) = link_reject_reason share parent

-- The work of the branch up to the share; the flag is false on overflow.
abbrev pub branch_work : Option ConnectedShare → Bytes → Bool × Bytes
branch_work none own = (true, own)
branch_work (some parent) own = add_chain_work_checked parent.cumulative_work own

abbrev pub met_share_difficulty : Option CandidateValidation → Bool
met_share_difficulty none = false
met_share_difficulty (some v) = v.meets_share_difficulty

abbrev pub parent_validated : Option ConnectedShare → Bool
parent_validated none = true
parent_validated (some parent) = parent.validated_ancestry

-- `best_tip_id_` once the entry is in the map.
unfoldable pub updated_tip :
    OrderedMap Bytes ConnectedShare → Option Bytes → ConnectedShare → Result (Option Bytes)
updated_tip connected none entry = ok (some entry.id)
updated_tip connected (some tip) entry = elim (find tip connected) [
  | none ↦ throws logic_error
  | some best ↦ ok (if better_tip entry best then some entry.id else some tip)
]

-- `connected_.emplace` and the choice of the tip.
unfoldable pub insert_connected : ShareChain → ConnectedShare → Result ShareChain
unfolding updated_tip
insert_connected chain entry = do
  throw_if (contains entry.id chain.connected) logic_error
  let connected = insert entry.id entry chain.connected
  tip ← updated_tip connected chain.best_tip_id entry
  ok (record chain { connected = connected; best_tip_id = tip })

abbrev pub enforced_reject_reason : Bool → ShareChain → Share → Result ShareRejectReason
enforced_reject_reason true chain share = expected_difficulty_reject_reason chain share
enforced_reject_reason false chain share = ok accepted

-- Behind the difficulty check: the cumulative work, and the entry.
unfoldable pub connect_checked :
    ShareChain
    → Share
    → Bytes
    → Option CandidateValidation
    → Bool
    → Option ConnectedShare
    → Bytes
    → Result (ShareRejectReason × ShareChain)
connect_checked chain share id pow_validation enforce parent own =
    let (fits, cumulative) = branch_work parent own in
    if not fits
    then ok (cumulative_work_overflow, chain)
    else (insert_connected chain (record {
      share = share;
      id = id;
      cumulative_work = cumulative;
      pow_validation = pow_validation;
      validated_ancestry =
          enforce && (met_share_difficulty pow_validation && parent_validated parent);
    })
        >>= λ chain1. ok (accepted, chain1))

unfoldable pub connect_share :
    ShareChain
    → Share
    → Bytes
    → Option CandidateValidation
    → Bool
    → Result (ShareRejectReason × ShareChain)
connect_share chain share id pow_validation enforce = do
  own ← share_work share.share_difficulty
  parent ← parent_of chain share
  if not (is_accepted (parent_reject_reason share parent))
      then ok (parent_reject_reason share parent, chain)
      else (do
        reason ← enforced_reject_reason enforce chain share
        if not (is_accepted reason)
            then ok (reason, chain)
            else connect_checked chain share id pow_validation enforce parent own)

-- The body of the loop over the children: the chain and the number of promoted orphans.
unfoldable pub promote_child :
    (ShareChain → Bytes → Result (ShareChain × ℕ)) → ShareChain → Bytes → Result (ShareChain × ℕ)
promote_child promote chain child_id = elim (find child_id chain.orphans) [
  | none ↦ ok (chain, 0)
  | some orphan ↦ do
    (reason, chain1) ←
        connect_share chain orphan.share child_id orphan.pow_validation
          orphan.enforce_sidechain_difficulty
    let chain2 = record chain1 { orphans = erase child_id chain1.orphans }
    if is_accepted reason
        then (promote chain2 child_id >>= λ r. ok (r.0, r.1 + 1))
        else ok (chain2, 0)
]

unfoldable pub promote_each :
    (ShareChain → Bytes → Result (ShareChain × ℕ))
    → ShareChain
    → List Bytes
    → Result (ShareChain × ℕ)
promote_each promote chain [] = ok (chain, 0)
promote_each promote chain (child_id ∷ rest) = do
  (chain1, n) ← promote_child promote chain child_id
  (chain2, m) ← promote_each promote chain1 rest
  ok (chain2, n + m)

-- Every call that does something takes an entry out of `orphans_by_parent_`, so their number is
-- the fuel: see Fuel.
unfoldable pub promote_children : ℕ → ShareChain → Bytes → Result (ShareChain × ℕ)
promote_children zero chain parent_id = ok (chain, 0)
promote_children (suc fuel) chain parent_id = elim (find parent_id chain.orphans_by_parent) [
  | none ↦ ok (chain, 0)
  | some child_ids ↦
      promote_each (promote_children fuel)
        (record chain { orphans_by_parent = erase parent_id chain.orphans_by_parent })
        (sort_by before child_ids)
]

abbrev pub tip_differs : Option Bytes → Option Bytes → Bool
tip_differs none none = false
tip_differs (some a) (some b) = not (same a b)
tip_differs _ _ = true

abbrev pub without_change : ShareDisposition → ShareRejectReason → Bytes → AddShareResult
without_change disposition reason id = record {
  disposition = disposition;
  reject_reason = reason;
  id = id;
  promoted_orphans = 0;
  best_tip_changed = false;
}

abbrev pub children_of : Option (List Bytes) → List Bytes
children_of none = []
children_of (some ids) = ids

-- `orphans_.emplace` and `orphans_by_parent_[parent].push_back`.
unfoldable pub add_orphan : ShareChain → OrphanShare → ShareChain
add_orphan chain orphan = record chain {
  orphans = insert orphan.id orphan chain.orphans;
  orphans_by_parent =
      insert orphan.share.parent_id
        (children_of (find orphan.share.parent_id chain.orphans_by_parent) ++ (orphan.id ∷ []))
        chain.orphans_by_parent;
}

unfoldable pub connect_and_promote :
    ShareChain
    → Share
    → Bytes
    → Option CandidateValidation
    → Bool
    → Result (AddShareResult × ShareChain)
connect_and_promote chain share id pow_validation enforce = do
  (reason, chain1) ← connect_share chain share id pow_validation enforce
  if not (is_accepted reason) then ok (without_change rejected reason id, chain1) else (do
    (chain2, promoted) ← promote_children (length chain1.orphans_by_parent) chain1 id
    ok (
      record {
        disposition = connected_share;
        reject_reason = accepted;
        id = id;
        promoted_orphans = promoted;
        best_tip_changed = tip_differs chain.best_tip_id chain2.best_tip_id;
      },
      chain2,
    ))

unfoldable pub add_prevalidated_share :
    ShareChain → Share → Option CandidateValidation → Bool → Result (AddShareResult × ShareChain)
add_prevalidated_share chain share pow_validation enforce = do
  id ← share_id share
  if contains id chain.connected || contains id chain.orphans
      then ok (without_change duplicate accepted id, chain)
      else if not (is_accepted (structural_reject_reason chain share))
      then ok (without_change rejected (structural_reject_reason chain share) id, chain)
      else if not (is_zero_share_id share.parent_id)
          && not (contains share.parent_id chain.connected)
      then ok (
        without_change orphan_share accepted id,
        add_orphan chain (record {
          share = share;
          id = id;
          pow_validation = pow_validation;
          enforce_sidechain_difficulty = enforce;
        }),
      )
      else connect_and_promote chain share id pow_validation enforce

unfoldable pub add_share_unchecked : ShareChain → Share → Result (AddShareResult × ShareChain)
add_share_unchecked chain share = add_prevalidated_share chain share none false
