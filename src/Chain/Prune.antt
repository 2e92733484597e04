-- ===== src/Chain/Prune.antt =====
-- `prune_connected_subtree_ids` of src/share_chain.cpp: a connected share is taken out, with every
-- share above it, and the tip is chosen anew.
pub mod Subtree
pub mod Closure
pub mod Weight
pub mod Retip
pub mod Pruning
use zano_p2pool.Prelude.{
  ℕ, zero, suc, ◌+◌, ◌-◌, ◌^◌, ◌>>=◌, Bool, true, false, ◌||◌, not, Option, none, some, List, [],
  ◌∷◌, ◌++◌, Result, ok, throws, logic_error, length, if◌then◌else◌, ltb,
}
use zano_p2pool.Bytes.{Bytes, same, before}
use zano_p2pool.OrderedMap.{bytes_key, OrderedMap, find, contains, insert, erase}
use zano_p2pool.Sorting.{sort_by}
use zano_p2pool.Share.{is_zero_share_id}
use zano_p2pool.Chain.{ShareChain, ConnectedShare, better_tip}
use zano_p2pool.Chain.Connect.{children_of}

-- The loop that fills `children`.
unfoldable pub children_from :
    OrderedMap Bytes ConnectedShare → OrderedMap Bytes (List Bytes) → OrderedMap Bytes (List Bytes)
children_from [] children = children
children_from ((id, c) ∷ connected) children = children_from connected (
    if is_zero_share_id c.share.parent_id
    then children
    else insert c.share.parent_id (children_of (find c.share.parent_id children) ++ (id ∷ []))
        children)

-- The loop over `removed` from `index` on: the ids from there on, with those that it appends.
unfoldable pub collect : ℕ → OrderedMap Bytes (List Bytes) → List Bytes → List Bytes
collect zero children todo = todo
collect (suc fuel) children [] = []
collect (suc fuel) children (id ∷ todo) =
    id ∷ collect fuel children (todo ++ children_of (find id children))

-- The greatest height of a connected share.
unfoldable pub max_height : OrderedMap Bytes ConnectedShare → ℕ
max_height [] = 0
max_height ((id, c) ∷ connected) =
    let rest = max_height connected in
    if ltb rest c.share.share_height then c.share.share_height else rest

abbrev pub height_of : Option ConnectedShare → ℕ
height_of none = 0
height_of (some c) = c.share.share_height

-- No share has more children than there are shares, and a child is one higher, so the number of
-- shares above one of this height is at most the power: see Closure.
abbrev pub subtree_fuel : OrderedMap Bytes ConnectedShare → Bytes → ℕ
subtree_fuel connected root_id =
    suc (length connected) ^ (max_height connected - height_of (find root_id connected))

unfoldable pub erase_all :
    List Bytes → OrderedMap Bytes ConnectedShare → OrderedMap Bytes ConnectedShare
erase_all [] connected = connected
erase_all (id ∷ ids) connected = erase_all ids (erase id connected)

-- The loop that chooses the tip, over the entries that are left.
unfoldable pub choose_tip :
    OrderedMap Bytes ConnectedShare
    → Option Bytes
    → OrderedMap Bytes ConnectedShare
    → Result (Option Bytes)
choose_tip connected tip [] = ok tip
choose_tip connected none ((id, c) ∷ rest) = choose_tip connected (some id) rest
choose_tip connected (some tip) ((id, c) ∷ rest) = elim (find tip connected) [
  | none ↦ throws logic_error
  | some current ↦ choose_tip connected (if better_tip c current then some id else some tip) rest
]

unfoldable pub removed_ids : OrderedMap Bytes ConnectedShare → Bytes → List Bytes
unfolding children_from collect
removed_ids connected root_id =
    collect (subtree_fuel connected root_id) (children_from connected []) (root_id ∷ [])

unfoldable pub prune_connected_subtree_ids : ShareChain → Bytes → Result (List Bytes × ShareChain)
unfolding removed_ids erase_all choose_tip
prune_connected_subtree_ids chain root_id =
    if not (contains root_id chain.connected) then ok ([], chain) else (do
      let removed = removed_ids chain.connected root_id
      let left = erase_all removed chain.connected
      tip ← choose_tip left none left
      ok (sort_by before removed, record chain { connected = left; best_tip_id = tip }))

unfoldable pub prune_connected_subtree : ShareChain → Bytes → Result (ℕ × ShareChain)
unfolding prune_connected_subtree_ids
prune_connected_subtree chain root_id = do
  (removed, new) ← prune_connected_subtree_ids chain root_id
  ok (length removed, new)
