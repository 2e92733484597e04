-- ===== src/Chain/Invariant.antt =====
-- What holds of the chain between two operations.
use zano_p2pool.Prelude.{◌+◌, ◌≤◌, ◌≡◌, ◌⊎◌, true, false, ◌&&◌, not, Option, none, some}
use zano_p2pool.Bytes.{Bytes, IsArray, value}
use zano_p2pool.OrderedMap.{bytes_key, OrderedMap, find}
use zano_p2pool.Share.{IsShare, is_zero_share_id, difficulty128_is_zero}
use zano_p2pool.Chain.{ShareChain, ConnectedShare, OrphanShare, better_tip}

abbrev pub Connected : Type 0
Connected = OrderedMap Bytes ConnectedShare

-- A child stands one above its parent, adds its difficulty to the parent's work, is at most the
-- tolerance older than the parent, and is validated only if the parent is.
pub record IsChild (parent child : ConnectedShare) : Type 0 where
  pub height : child.share.share_height ≡ parent.share.share_height + 1
  pub work :
      value child.cumulative_work
      ≡ value parent.cumulative_work + value child.share.share_difficulty
  pub timestamp : parent.share.timestamp ≤ child.share.timestamp + 60
  pub validated : (child.validated_ancestry && not parent.validated_ancestry) ≡ false

-- A root with its own work, or a child of a connected share.
abbrev pub HasParent : Connected → ConnectedShare → Type 0
HasParent m c =
    ((is_zero_share_id c.share.parent_id ≡ true)
      × (value c.cumulative_work ≡ value c.share.share_difficulty))
    ⊎ ((p : ConnectedShare) × (is_zero_share_id c.share.parent_id ≡ false)
        × (find c.share.parent_id m ≡ some p)
        × IsChild p c)

pub record IsEntry (m : Connected) (id : Bytes) (c : ConnectedShare) : Type 0 where
  pub own_id : c.id ≡ id
  pub share_ranges : IsShare c.share
  pub work_array : IsArray 32 c.cumulative_work
  pub nonzero : difficulty128_is_zero c.share.share_difficulty ≡ false
  pub has_parent : HasParent m c

-- The tip is connected, and no connected share is better.
abbrev pub IsBest : Connected → Option Bytes → Type 0
IsBest m none = (id : Bytes) → find id m ≡ none
IsBest m (some tip) =
    (best : ConnectedShare) × (find tip m ≡ some best)
    × ((id : Bytes) (c : ConnectedShare) → find id m ≡ some c → better_tip c best ≡ false)

pub record IsOrphan (id : Bytes) (o : OrphanShare) : Type 0 where
  pub share_ranges : IsShare o.share
  pub nonzero : difficulty128_is_zero o.share.share_difficulty ≡ false

abbrev pub Entries : Connected → Type 0
Entries m = (id : Bytes) (c : ConnectedShare) → find id m ≡ some c → IsEntry m id c

abbrev pub Orphans : OrderedMap Bytes OrphanShare → Type 0
Orphans m = (id : Bytes) (o : OrphanShare) → find id m ≡ some o → IsOrphan id o

-- No orphan is connected.
abbrev pub Apart : ShareChain → Type 0
Apart chain =
    (id : Bytes) (o : OrphanShare) → find id chain.orphans ≡ some o → find id chain.connected ≡ none

pub record IsValid (chain : ShareChain) : Type 0 where
  pub entries : Entries chain.connected
  pub best : IsBest chain.connected chain.best_tip_id
  pub waiting : Orphans chain.orphans
