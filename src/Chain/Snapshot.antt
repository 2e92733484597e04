-- ===== src/Chain/Snapshot.antt =====
-- `replay_validation_snapshot` and `persistence_snapshot` of src/share_chain.cpp: what is written out
-- of a share chain, parents first.
use zano_p2pool.Prelude.{
  ◌>>=◌, ◌>>◌, not, none, some, List, [], ◌∷◌, ◌++◌, Result, ok, throws, throw_if, logic_error,
  if◌then◌else◌,
}
use zano_p2pool.Bytes.{Bytes, same}
use zano_p2pool.OrderedMap.{OrderedMap}
use zano_p2pool.Sorting.{sort_by}
use zano_p2pool.Share.{Share, share_id, has_value}
use zano_p2pool.Validation.{CandidateValidation}
use zano_p2pool.Chain.{ShareChain, ConnectedShare, OrphanShare}
use zano_p2pool.Chain.Replay.{
  ReplayValidationRecord, replay_validation_consistent, parent_is_validated, before_at,
}

-- The loop of the snapshot: the validated shares, with their validations.
unfoldable pub validated_shares :
    ShareChain
    → OrderedMap Bytes ConnectedShare
    → Result (List (ConnectedShare × CandidateValidation))
validated_shares chain [] = ok []
validated_shares chain ((id, c) ∷ rest) =
    if not c.validated_ancestry then validated_shares chain rest else (elim c.pow_validation [
      | none ↦ throws logic_error
      | some v ↦ do
        throw_if (not (replay_validation_consistent v)) logic_error
        own ← share_id c.share
        throw_if (not (same own c.id)) logic_error
        throw_if (not (parent_is_validated chain c)) logic_error
        others ← validated_shares chain rest
        ok ((c, v) ∷ others)
    ])

abbrev pub record_of : ConnectedShare × CandidateValidation → ReplayValidationRecord
record_of row = record { share_id = row.0.id; validation = row.1 }

abbrev pub records_of : List (ConnectedShare × CandidateValidation) → List ReplayValidationRecord
records_of [] = []
records_of (row ∷ rows) = record_of row ∷ records_of rows

unfoldable pub replay_validation_snapshot : ShareChain → Result (List ReplayValidationRecord)
unfolding validated_shares
replay_validation_snapshot chain = do
  throw_if (not (has_value chain.difficulty_policy)) logic_error
  rows ← validated_shares chain chain.connected
  ok (
      records_of (
        sort_by (λ l r. before_at l.0.share.share_height l.0.id r.0.share.share_height r.0.id)
          rows))

-- `persistence_snapshot`
abbrev pub connected_rows : OrderedMap Bytes ConnectedShare → List (Bytes × Share)
connected_rows [] = []
connected_rows ((id, c) ∷ rest) = (id, c.share) ∷ connected_rows rest

abbrev pub orphan_rows : OrderedMap Bytes OrphanShare → List (Bytes × Share)
orphan_rows [] = []
orphan_rows ((id, o) ∷ rest) = (id, o.share) ∷ orphan_rows rest

abbrev pub row_shares : List (Bytes × Share) → List Share
row_shares [] = []
row_shares (row ∷ rows) = row.1 ∷ row_shares rows

unfoldable pub persistence_snapshot : ShareChain → List Share
persistence_snapshot chain = row_shares (
    sort_by (λ l r. before_at l.1.share_height l.0 r.1.share_height r.0)
      (connected_rows chain.connected ++ orphan_rows chain.orphans))
