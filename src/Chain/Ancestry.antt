-- ===== src/Chain/Ancestry.antt =====
-- The walk to the parent, in a valid chain.
use zano_p2pool.Prelude.{◌+◌, ◌≡◌, inl, inr, false, some, arith}
use zano_p2pool.Bytes.{Bytes}
use zano_p2pool.OrderedMap.{bytes_key, find}
use zano_p2pool.Share.{is_zero_share_id}
use zano_p2pool.Chain.{ShareChain, ConnectedShare}
use zano_p2pool.Chain.Invariant.{IsValid}

-- A connected share that is no root has a connected parent, one lower.
pub parent_of_connected :
    (chain : ShareChain) (id : Bytes) (current : ConnectedShare)
    → IsValid chain
    → find id chain.connected ≡ some current
    → is_zero_share_id current.share.parent_id ≡ false
    → (parent : ConnectedShare) × (find current.share.parent_id chain.connected ≡ some parent)
      × (current.share.share_height ≡ parent.share.share_height + 1)
parent_of_connected chain id current v here child = elim (v.entries id current here).has_parent [
  | inl (root, _) ↦ absurd (ground (arith, root))
  | inr (parent, _, there, rel) ↦ (parent, there, rel.height)
]
