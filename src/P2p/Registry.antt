-- ===== src/P2p/Registry.antt =====
-- `P2pTrustedWorkRegistry` of include/zano_p2pool/p2p_share.hpp and src/p2p_share.cpp: the work
-- contexts that a node has derived itself, by height, mining header and parent share.
pub mod Trust
pub mod Erasure
use zano_p2pool.Prelude.{
  ℕ, ◌≡◌, ◌↔◌, Bool, true, false, not, ◌&&◌, ◌||◌, Option, none, some, List, [], ◌∷◌, ◌+◌, ◌>>=◌,
  ◌>>◌, Result, ok, throw_if, runtime_error, if◌then◌else◌, ltb, ◌==◌, length, arith,
}
use zano_p2pool.Bytes.{Bytes, same, before, zeros}
use zano_p2pool.Share.{difficulty128_is_zero, has_value}
use zano_p2pool.OrderedMap.{Key, OrderedMap, find, insert}
use zano_p2pool.Chain.{ShareWorkContext}
use zano_p2pool.P2p.WorkKey.{WorkKey, work_key}

pub record TrustedEntry : Type 0 where
  pub context : ShareWorkContext
  pub zano_parent_hash : Option Bytes

abbrev pub P2pTrustedWorkRegistry : Type 0
P2pTrustedWorkRegistry = OrderedMap WorkKey TrustedEntry

abbrev pub key_of : ShareWorkContext → Bytes → WorkKey
key_of context parent_id = record {
  zano_height = context.zano_height;
  mining_header_hash = context.mining_header_hash;
  parent_id = parent_id;
}

-- The context of a new entry must have a difficulty.
unfoldable pub require_difficulty : ShareWorkContext → Result (Unit {0})
require_difficulty context =
    throw_if (difficulty128_is_zero context.network_difficulty) runtime_error

abbrev pub same_difficulty : TrustedEntry → ShareWorkContext → Bool
same_difficulty entry context = same entry.context.network_difficulty context.network_difficulty

-- `remember(context, parent_id)`
unfoldable pub remember :
    P2pTrustedWorkRegistry → ShareWorkContext → Bytes → Result P2pTrustedWorkRegistry
unfolding require_difficulty
remember contexts context parent_id = do
  require_difficulty context
  elim (find (key_of context parent_id) contexts) [
    | some entry ↦ throw_if (not (same_difficulty entry context)) runtime_error >> ok contexts
    | none ↦ ok (
        insert (key_of context parent_id) (record { context = context; zano_parent_hash = none })
          contexts)
  ]

-- `remember(context)`
unfoldable pub remember_at_root :
    P2pTrustedWorkRegistry → ShareWorkContext → Result P2pTrustedWorkRegistry
remember_at_root contexts context = remember contexts context (zeros 32)

abbrev pub other_parent : Option Bytes → Bytes → Bool
other_parent none hash = false
other_parent (some known) hash = not (same known hash)

-- `it->second.zano_parent_hash = zano_parent_hash` in the entry that was found.
unfoldable pub confirm_parent :
    P2pTrustedWorkRegistry
    → WorkKey
    → TrustedEntry
    → ShareWorkContext
    → Bytes
    → Result P2pTrustedWorkRegistry
confirm_parent contexts key entry context hash = do
  throw_if (not (same_difficulty entry context)) runtime_error
  throw_if (other_parent entry.zano_parent_hash hash) runtime_error
  ok (insert key (record entry { zano_parent_hash = some hash }) contexts)

-- `remember(context, parent_id, zano_parent_hash)`
unfoldable pub remember_with_parent :
    P2pTrustedWorkRegistry → ShareWorkContext → Bytes → Bytes → Result P2pTrustedWorkRegistry
unfolding require_difficulty confirm_parent
remember_with_parent contexts context parent_id hash = do
  require_difficulty context
  elim (find (key_of context parent_id) contexts) [
    | some entry ↦ confirm_parent contexts (key_of context parent_id) entry context hash
    | none ↦ ok (
        insert (key_of context parent_id)
          (record { context = context; zano_parent_hash = some hash }) contexts)
  ]

unfoldable pub find_context : P2pTrustedWorkRegistry → ℕ → Bytes → Bytes → Option ShareWorkContext
find_context contexts zano_height mining_header_hash parent_id =
    elim (find
      (record {
        zano_height = zano_height;
        mining_header_hash = mining_header_hash;
        parent_id = parent_id;
      })
      contexts) [ none ↦ none | some entry ↦ some entry.context ]

-- The lookup below a root share.
unfoldable pub find_context_at_root : P2pTrustedWorkRegistry → ℕ → Bytes → Option ShareWorkContext
find_context_at_root contexts zano_height mining_header_hash =
    find_context contexts zano_height mining_header_hash (zeros 32)

unfoldable pub find_zano_parent_hash : P2pTrustedWorkRegistry → WorkKey → Option Bytes
find_zano_parent_hash contexts key = elim (find key contexts) [
  | none ↦ none
  | some entry ↦ entry.zano_parent_hash
]

-- The loops of the three `erase` functions: the number of erased entries, and the entries left.
unfoldable pub erase_where :
    (WorkKey → TrustedEntry → Bool) → P2pTrustedWorkRegistry → ℕ × P2pTrustedWorkRegistry
erase_where stale [] = (0, [])
erase_where stale ((key, entry) ∷ contexts) =
    let (erased, left) = erase_where stale contexts in
    if stale key entry then (erased + 1, left) else (erased, (key, entry) ∷ left)

abbrev pub at_height : ℕ → WorkKey → TrustedEntry → Bool
at_height zano_height key entry = key.zano_height == zano_height

abbrev pub above_height : ℕ → WorkKey → TrustedEntry → Bool
above_height maximum key entry = ltb maximum key.zano_height

abbrev pub at_other_parent : ℕ → Bytes → WorkKey → TrustedEntry → Bool
at_other_parent zano_height canonical key entry =
    (key.zano_height == zano_height) && other_parent entry.zano_parent_hash canonical

unfoldable pub erase_zano_height : P2pTrustedWorkRegistry → ℕ → ℕ × P2pTrustedWorkRegistry
unfolding erase_where
erase_zano_height contexts zano_height = erase_where (at_height zano_height) contexts

unfoldable pub erase_zano_heights_above : P2pTrustedWorkRegistry → ℕ → ℕ × P2pTrustedWorkRegistry
unfolding erase_where
erase_zano_heights_above contexts maximum = erase_where (above_height maximum) contexts

unfoldable pub erase_zano_parent_mismatch :
    P2pTrustedWorkRegistry → ℕ → Bytes → ℕ × P2pTrustedWorkRegistry
unfolding erase_where
erase_zano_parent_mismatch contexts zano_height canonical =
    erase_where (at_other_parent zano_height canonical) contexts

-- `heights.empty() || heights.back() != height`, from the height that was taken last.
abbrev pub is_new_height : Option ℕ → ℕ → Bool
is_new_height none height = true
is_new_height (some last) height = not (last == height)

unfoldable pub provenance_from : Option ℕ → P2pTrustedWorkRegistry → List ℕ
provenance_from last [] = []
provenance_from last ((key, entry) ∷ contexts) =
    let taken = has_value entry.zano_parent_hash && is_new_height last key.zano_height in
    let rest = provenance_from (if taken then some key.zano_height else last) contexts in
    if taken then key.zano_height ∷ rest else rest

unfoldable pub provenance_zano_heights : P2pTrustedWorkRegistry → List ℕ
unfolding provenance_from
provenance_zano_heights contexts = provenance_from none contexts
