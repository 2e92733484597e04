-- ===== src/Tests/ReplayTests.antt =====
-- Pruning a share chain, and restoring its validation state, on a root share.
use zano_p2pool.Prelude.{
  ℕ, ◌≡◌, refl, subst, inl, inr, Bool-cases, none, some, ok, throws, true, false, List, [], ◌∷◌,
  ◌++◌, arith, Exception,
}
use zano_p2pool.Bytes.{Bytes, zeros, same, is_zero, value_from}
use zano_p2pool.Bytes.Order.{same_iff, same_refl}
use zano_p2pool.Hash.{cn_fast_hash}
use zano_p2pool.OrderedMap.{bytes_key, find, contains}
use zano_p2pool.Validation.{share}
use zano_p2pool.Chain.{ShareChain, ConnectedShare, better_tip}
use zano_p2pool.Chain.TipOrder.{better_tip_irrefl}
use zano_p2pool.Chain.Invariant.{IsValid, IsEntry, Apart}
use zano_p2pool.Chain.Prune.{prune_connected_subtree_ids}
use zano_p2pool.Chain.Prune.Pruning.{Prunes, prune-Prunes}
use zano_p2pool.Chain.Replay.{ReplayValidationRecord, restore_replay_validation}
use zano_p2pool.Chain.Replay.Restoring.{Restores, restore-Restores, restore-unknown}
use zano_p2pool.Tests.Samples.{
  array, header, one, value_or, is_ok, ok_value_or, root_share, root_share-IsShare,
}
use zano_p2pool.Tests.ShareTests.{written}
use zano_p2pool.Tests.ChainTests.{policy_chain}

-- The root share under an id, connected without a validation.
abbrev entry_at : Bytes → ConnectedShare
entry_at id = record {
  share = root_share;
  id = id;
  cumulative_work = zeros 16 ++ one;
  pow_validation = none;
  validated_ancestry = false;
}

abbrev chain_at : Bytes → ShareChain
chain_at id = record policy_chain { connected = (id, entry_at id) ∷ []; best_tip_id = some id }

chain_at-found :
    (own id : Bytes) (c : ConnectedShare)
    → find id (chain_at own).connected ≡ some c
    → (own ≡ id) × (entry_at own ≡ c)
unfolding find
chain_at-found own id c h = elim (Bool-cases (same own id)) [
  | inl e ↦ ((same_iff own id).0 e, ground (arith, e))
  | inr e ↦ absurd (ground (arith, e))
]

entry_at-IsEntry : (own : Bytes) → IsEntry (chain_at own).connected own (entry_at own)
unfolding is_zero value_from
entry_at-IsEntry own = record {
  own_id = refl;
  share_ranges = root_share-IsShare;
  work_array = array 32 (zeros 16 ++ one) refl refl;
  nonzero = refl;
  has_parent = inl (refl, refl);
}

chain_at-IsValid : (own : Bytes) → IsValid (chain_at own)
unfolding find
chain_at-IsValid own = record {
  entries = λ id c h.
      let (k, e) = chain_at-found own id c h in
      subst (λ j. IsEntry (chain_at own).connected j c) k
        (subst (IsEntry (chain_at own).connected own) e (entry_at-IsEntry own));
  best = (
    entry_at own,
    rw (same_refl own) refl,
    λ id c h.
        subst (λ x. better_tip x (entry_at own) ≡ false) (chain_at-found own id c h).1
          (better_tip_irrefl (entry_at own)),
  );
  waiting = λ id o h. absurd (ground (arith, h));
}

chain_at-Apart : (own : Bytes) → Apart (chain_at own)
unfolding find
chain_at-Apart own = λ id o h. absurd (ground (arith, h))

prune-Prunes_example :
    (ids : List Bytes) × (new : ShareChain) × (prune_connected_subtree_ids (chain_at header) header
      ≡ ok (ids, new))
    × Prunes (chain_at header) header ids new
unfolding contains same
prune-Prunes_example =
    prune-Prunes (chain_at header) header (chain_at-IsValid header) (chain_at-Apart header) (tt, tt)
      refl

abbrev root_id : Bytes
root_id = cn_fast_hash written

abbrev replayed_at : Bytes → ReplayValidationRecord
replayed_at id = record {
  share_id = id;
  validation = record {
    pow = record { final_hash = header; mix_hash = header };
    meets_share_difficulty = true;
    meets_network_difficulty = false;
    classification = share;
  };
}

abbrev replayed : ReplayValidationRecord
replayed = replayed_at root_id

abbrev restored : ℕ × ShareChain
restored = value_or (0, policy_chain) (restore_replay_validation (chain_at root_id) (replayed ∷ []))

was_restored : is_ok (restore_replay_validation (chain_at root_id) (replayed ∷ [])) ≡ true
unfolding restore_replay_validation zano_p2pool.Share.share_id zano_p2pool.Share.serialize_share
    zano_p2pool.Share.common_fields zano_p2pool.Share.append_u64_be zano_p2pool.Bytes.fill
    zano_p2pool.OrderedMap.contains zano_p2pool.Chain.empty_chain
    zano_p2pool.Chain.Rules.structural_reject_reason zano_p2pool.Bytes.is_zero
    zano_p2pool.Bytes.before zano_p2pool.Chain.Rules.trusted_context_reject_reason
    zano_p2pool.Bytes.same zano_p2pool.Chain.Rules.absolute_timestamp_reject_reason
    zano_p2pool.Chain.Rules.expected_difficulty_reject_reason zano_p2pool.Bytes.value_from
    zano_p2pool.OrderedMap.erase zano_p2pool.OrderedMap.find zano_p2pool.OrderedMap.insert
    zano_p2pool.Share.check_payout zano_p2pool.Share.difficulty128_to_decimal
    zano_p2pool.Work.share_work zano_p2pool.Chain.Rules.expected_child_share_difficulty
    zano_p2pool.Chain.Rules.policy_child_difficulty zano_p2pool.Chain.Rules.difficulty_history
    zano_p2pool.SidechainDifficulty.calculate_next_sidechain_difficulty
    zano_p2pool.SidechainDifficulty.big_endian_to_int
    zano_p2pool.SidechainDifficulty.int_to_difficulty128 zano_p2pool.Hash.cn_fast_hash
    zano_p2pool.Hash.keccak_f1600 zano_p2pool.Hash.keccak_rounds zano_p2pool.Hash.keccak_round
    zano_p2pool.Hash.theta zano_p2pool.Hash.rho_pi zano_p2pool.Hash.chi zano_p2pool.Hash.chi_row
    zano_p2pool.Hash.iota zano_p2pool.Hash.xor_columns zano_p2pool.Hash.rotl64
    zano_p2pool.Hash.xor_words zano_p2pool.Hash.absorb zano_p2pool.Hash.pad zano_p2pool.Hash.squeeze
    zano_p2pool.Hash.load_le64 zano_p2pool.Hash.store_le64 zano_p2pool.Chain.Replay.restore_records
    zano_p2pool.Chain.Replay.existing_validated zano_p2pool.Chain.Replay.check_ancestry
    zano_p2pool.Chain.Replay.resolve zano_p2pool.Chain.Replay.replay_validation_consistent
    zano_p2pool.Chain.Replay.ordered_records zano_p2pool.Chain.Replay.preflight_all
    zano_p2pool.Chain.Replay.preflight zano_p2pool.Chain.Replay.check_restored
    zano_p2pool.Chain.Replay.check_restored_parent zano_p2pool.Chain.Replay.apply_records
    zano_p2pool.Sorting.sort_by zano_p2pool.Sorting.insert_by
    zano_p2pool.Chain.Submit.install_validation
was_restored = refl

restore-Restores_example : Restores (chain_at root_id) (replayed ∷ []) restored.1
restore-Restores_example =
    restore-Restores (chain_at root_id) (replayed ∷ []) restored.0 restored.1
      (chain_at-IsValid root_id) (chain_at-Apart root_id) (tt, tt) (ok_value_or _ _ was_restored)

restore-unknown_example :
    (e : Exception) × (restore_replay_validation (chain_at header) (replayed_at (zeros 32) ∷ [])
      ≡ throws e)
unfolding find same
restore-unknown_example =
    restore-unknown (chain_at header) (replayed_at (zeros 32) ∷ []) (replayed_at (zeros 32))
      (inl refl) refl
