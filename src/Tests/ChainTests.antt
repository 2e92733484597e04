-- ===== src/Tests/ChainTests.antt =====
-- The share chain, run on a root share.
use zano_p2pool.Prelude.{
  ◌≡◌, ◌⊎◌, refl, subst, inl, inr, Bool-cases, none, some, true, false, [], ◌∷◌, ◌++◌, arith,
}
use zano_p2pool.Platform.{light}
use zano_p2pool.Chain.{
  ShareChain, ConnectedShare, better_tip, AddShareResult, DifficultyPolicy, empty_chain, accepted,
  connected_share,
}
use zano_p2pool.Chain.Connect.{add_prevalidated_share, without_change}
use zano_p2pool.Chain.Submit.{
  submit_share, revalidate_connected_share, RevalidateShareResult, revalidation, not_connected,
}
use zano_p2pool.Chain.Submission.{Submitted, submit_share-Submitted}
use zano_p2pool.Chain.Revalidation.{Reinstates, revalidate-Reinstates}
use zano_p2pool.Chain.Invariant.{IsValid, IsEntry, Apart}
use zano_p2pool.Chain.TipOrder.{better_tip_irrefl}
use zano_p2pool.Bytes.{Bytes, zeros, same, is_zero, value_from}
use zano_p2pool.Bytes.Order.{same_iff}
use zano_p2pool.OrderedMap.{bytes_key, find}
use zano_p2pool.Chain.Admission.{add_prevalidated-Adds}
use zano_p2pool.Chain.Dispositions.{Adds}
use zano_p2pool.Tests.Printing.{platform}
use zano_p2pool.Tests.Samples.{
  array, header, one, value_or, is_ok, ok_value_or, root_share, root_share-IsShare, context,
  empty_chain-IsValid, empty_chain-Apart,
}

abbrev submitted : AddShareResult × ShareChain
submitted =
    value_or (without_change connected_share accepted [], empty_chain)
      (submit_share platform empty_chain root_share context 1000 light)

root-submitted : is_ok (submit_share platform empty_chain root_share context 1000 light) ≡ true
unfolding submit_share zano_p2pool.Share.share_id zano_p2pool.Share.serialize_share
    zano_p2pool.Share.common_fields zano_p2pool.Share.append_u64_be zano_p2pool.Bytes.fill
    zano_p2pool.OrderedMap.contains empty_chain zano_p2pool.Chain.Submit.own_reject_reason
    zano_p2pool.Chain.Rules.structural_reject_reason zano_p2pool.Bytes.is_zero
    zano_p2pool.Bytes.before zano_p2pool.Chain.Rules.trusted_context_reject_reason
    zano_p2pool.Bytes.same zano_p2pool.Chain.Rules.absolute_timestamp_reject_reason
    zano_p2pool.Chain.Submit.connected_parent_reject_reason
    zano_p2pool.Chain.Rules.expected_difficulty_reject_reason
    zano_p2pool.Validation.validate_candidate zano_p2pool.Bytes.value_from add_prevalidated_share
    zano_p2pool.Chain.Connect.connect_and_promote zano_p2pool.Chain.Connect.connect_checked
    zano_p2pool.Chain.Connect.connect_share zano_p2pool.Chain.Connect.insert_connected
    zano_p2pool.Chain.Connect.link_reject_reason zano_p2pool.Chain.Connect.parent_of
    zano_p2pool.Chain.Connect.promote_children zano_p2pool.Chain.Connect.updated_tip
    zano_p2pool.Chain.Submit.checked_validation zano_p2pool.Chain.Submit.proof_check
    zano_p2pool.Chain.Submit.submit_checked zano_p2pool.Decimal.parse_from
    zano_p2pool.Decimal.parse_uint128_decimal zano_p2pool.OrderedMap.erase
    zano_p2pool.OrderedMap.find zano_p2pool.OrderedMap.insert zano_p2pool.Share.check_payout
    zano_p2pool.Share.difficulty128_to_decimal zano_p2pool.Target.bytes_to_uint256
    zano_p2pool.Target.difficulty_to_target zano_p2pool.Target.hash_meets_difficulty
    zano_p2pool.Target.hash_meets_target zano_p2pool.Target.parse_difficulty
    zano_p2pool.Target.uint256_to_big_endian_bytes zano_p2pool.Validation.progpowz_epoch
    zano_p2pool.Validation.progpowz_hash zano_p2pool.Work.share_work
root-submitted = refl

submit_share-Submitted_example :
    Submitted platform light empty_chain root_share context 1000 submitted.0 submitted.1
submit_share-Submitted_example =
    submit_share-Submitted platform empty_chain root_share context 1000 light submitted.0
      submitted.1 empty_chain-IsValid empty_chain-Apart root_share-IsShare
      (ok_value_or _ _ root-submitted)

abbrev pub policy : DifficultyPolicy
policy = record {
  minimum_share_version = 1;
  maximum_share_version = 2;
  target_share_seconds = 10;
  minimum_share_difficulty = 1;
  difficulty_window_shares = 2160;
}

abbrev pub policy_chain : ShareChain
policy_chain = record {
  connected = [];
  orphans = [];
  orphans_by_parent = [];
  best_tip_id = none;
  difficulty_policy = some policy;
  parameter_id = none;
}

policy_chain-IsValid : IsValid policy_chain
unfolding find
policy_chain-IsValid = record {
  entries = λ id c h. absurd (ground (arith, h));
  best = λ id. refl;
  waiting = λ id o h. absurd (ground (arith, h));
}

policy_chain-Apart : Apart policy_chain
unfolding find
policy_chain-Apart = λ id o h. refl

abbrev added : AddShareResult × ShareChain
added =
    value_or (without_change connected_share accepted [], policy_chain)
      (add_prevalidated_share policy_chain root_share none false)

was_added : is_ok (add_prevalidated_share policy_chain root_share none false) ≡ true
unfolding zano_p2pool.Share.share_id zano_p2pool.Share.serialize_share
    zano_p2pool.Share.common_fields zano_p2pool.Share.append_u64_be zano_p2pool.Bytes.fill
    zano_p2pool.OrderedMap.contains zano_p2pool.Chain.Rules.structural_reject_reason
    zano_p2pool.Bytes.is_zero zano_p2pool.Bytes.before zano_p2pool.Bytes.same
    zano_p2pool.Chain.Rules.expected_difficulty_reject_reason add_prevalidated_share
    zano_p2pool.Chain.Connect.connect_and_promote zano_p2pool.Chain.Connect.connect_checked
    zano_p2pool.Chain.Connect.connect_share zano_p2pool.Chain.Connect.insert_connected
    zano_p2pool.Chain.Connect.link_reject_reason zano_p2pool.Chain.Connect.parent_of
    zano_p2pool.Chain.Connect.promote_children zano_p2pool.Chain.Connect.updated_tip
    zano_p2pool.OrderedMap.erase zano_p2pool.OrderedMap.find zano_p2pool.OrderedMap.insert
    zano_p2pool.Share.check_payout zano_p2pool.Work.share_work
was_added = refl

add_prevalidated-Adds_example : Adds policy_chain root_share added.0 added.1
add_prevalidated-Adds_example =
    add_prevalidated-Adds policy_chain root_share none false added.0 added.1 policy_chain-IsValid
      policy_chain-Apart root_share-IsShare (ok_value_or _ _ was_added)

-- The root share, connected without a validation.
abbrev pub root_entry : ConnectedShare
root_entry = record {
  share = root_share;
  id = header;
  cumulative_work = zeros 16 ++ one;
  pow_validation = none;
  validated_ancestry = false;
}

abbrev pub root_chain : ShareChain
root_chain = record policy_chain {
  connected = (header, root_entry) ∷ [];
  best_tip_id = some header;
}

root_chain-found :
    (id : Bytes) (c : ConnectedShare)
    → find id root_chain.connected ≡ some c
    → (header ≡ id) × (root_entry ≡ c)
unfolding find
root_chain-found id c h = elim (Bool-cases (same header id)) [
  | inl e ↦ ((same_iff header id).0 e, ground (arith, e))
  | inr e ↦ absurd (ground (arith, e))
]

root_entry-IsEntry : IsEntry root_chain.connected header root_entry
unfolding is_zero value_from
root_entry-IsEntry = record {
  own_id = refl;
  share_ranges = root_share-IsShare;
  work_array = array 32 (zeros 16 ++ one) refl refl;
  nonzero = refl;
  has_parent = inl (refl, refl);
}

pub root_chain-IsValid : IsValid root_chain
unfolding find same
root_chain-IsValid = record {
  entries = λ id c h.
      let (k, e) = root_chain-found id c h in
      subst (λ j. IsEntry root_chain.connected j c) k
        (subst (IsEntry root_chain.connected header) e root_entry-IsEntry);
  best = (
    root_entry,
    refl,
    λ id c h.
        subst (λ x. better_tip x root_entry ≡ false) (root_chain-found id c h).1
          (better_tip_irrefl root_entry),
  );
  waiting = λ id o h. absurd (ground (arith, h));
}

root_chain-Apart : Apart root_chain
unfolding find
root_chain-Apart = λ id o h. absurd (ground (arith, h))

abbrev revalidated : RevalidateShareResult × ShareChain
revalidated =
    value_or (revalidation not_connected accepted [], policy_chain)
      (revalidate_connected_share platform root_chain header context 1000 light)

was_revalidated :
    is_ok (revalidate_connected_share platform root_chain header context 1000 light) ≡ true
unfolding zano_p2pool.Share.share_id zano_p2pool.Share.serialize_share
    zano_p2pool.Share.common_fields zano_p2pool.Share.append_u64_be zano_p2pool.Bytes.fill
    zano_p2pool.OrderedMap.contains empty_chain zano_p2pool.Chain.Submit.own_reject_reason
    zano_p2pool.Chain.Rules.structural_reject_reason zano_p2pool.Bytes.is_zero
    zano_p2pool.Bytes.before zano_p2pool.Chain.Rules.trusted_context_reject_reason
    zano_p2pool.Bytes.same zano_p2pool.Chain.Rules.absolute_timestamp_reject_reason
    zano_p2pool.Chain.Submit.connected_parent_reject_reason
    zano_p2pool.Chain.Rules.expected_difficulty_reject_reason
    zano_p2pool.Validation.validate_candidate zano_p2pool.Bytes.value_from add_prevalidated_share
    zano_p2pool.Chain.Connect.connect_and_promote zano_p2pool.Chain.Connect.connect_checked
    zano_p2pool.Chain.Connect.connect_share zano_p2pool.Chain.Connect.insert_connected
    zano_p2pool.Chain.Connect.link_reject_reason zano_p2pool.Chain.Connect.parent_of
    zano_p2pool.Chain.Connect.promote_children zano_p2pool.Chain.Connect.updated_tip
    zano_p2pool.Chain.Submit.checked_validation zano_p2pool.Chain.Submit.proof_check
    zano_p2pool.Chain.Submit.submit_checked zano_p2pool.Decimal.parse_from
    zano_p2pool.Decimal.parse_uint128_decimal zano_p2pool.OrderedMap.erase
    zano_p2pool.OrderedMap.find zano_p2pool.OrderedMap.insert zano_p2pool.Share.check_payout
    zano_p2pool.Share.difficulty128_to_decimal zano_p2pool.Target.bytes_to_uint256
    zano_p2pool.Target.difficulty_to_target zano_p2pool.Target.hash_meets_difficulty
    zano_p2pool.Target.hash_meets_target zano_p2pool.Target.parse_difficulty
    zano_p2pool.Target.uint256_to_big_endian_bytes zano_p2pool.Validation.progpowz_epoch
    zano_p2pool.Validation.progpowz_hash zano_p2pool.Work.share_work revalidate_connected_share
    zano_p2pool.Chain.Submit.revalidate_entry zano_p2pool.Chain.Submit.revalidate_checked
    zano_p2pool.Chain.Submit.revalidation_parent_check zano_p2pool.Chain.Submit.install_validation
    zano_p2pool.Chain.Rules.expected_child_share_difficulty
    zano_p2pool.Chain.Rules.policy_child_difficulty zano_p2pool.Chain.Rules.difficulty_history
    zano_p2pool.SidechainDifficulty.calculate_next_sidechain_difficulty
    zano_p2pool.SidechainDifficulty.big_endian_to_int
    zano_p2pool.SidechainDifficulty.int_to_difficulty128
was_revalidated = refl

revalidate-Reinstates_example :
    (revalidated.1 ≡ root_chain)
    ⊎ Reinstates platform light root_chain header context 1000 revalidated.0 revalidated.1
revalidate-Reinstates_example =
    revalidate-Reinstates platform light root_chain header context 1000 revalidated.0 revalidated.1
      root_chain-IsValid root_chain-Apart (ok_value_or _ _ was_revalidated)
