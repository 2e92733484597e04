-- ===== src/Chain/Prune/Pruning.antt =====
-- The chain after `prune_connected_subtree_ids`.
use zano_p2pool.Prelude.{
  ◌≡◌, ◌↔◌, refl, sym, ◌∙◌, ap, subst, Bool-cases, inl, inr, true, false, none, some, List, [], ◌∷◌,
  ok, arith, if◌then◌else◌,
}
use zano_p2pool.Bytes.{Bytes, same, before}
use zano_p2pool.Sorting.{sort_by, insert_by}
use zano_p2pool.OrderedMap.{bytes_key, find, contains, erase}
use zano_p2pool.OrderedMap.Laws.{find-erase}
use zano_p2pool.OrderedMap.Sorted.{IsSorted, erase-IsSorted}
use zano_p2pool.Chain.{ShareChain, ConnectedShare}
use zano_p2pool.Chain.Invariant.{Connected, IsValid, HasParent, Apart}
use zano_p2pool.Chain.Prune.{erase_all, removed_ids, prune_connected_subtree_ids}
use zano_p2pool.Chain.Prune.Subtree.{elem}
use zano_p2pool.Chain.Prune.Closure.{Descends}
use zano_p2pool.Chain.Prune.Weight.{removed_ids_iff, removed_ids-closed}
use zano_p2pool.Chain.Prune.Retip.{choose_tip-IsBest}

find-erase_all :
    (ids : List Bytes) (m : Connected) (id : Bytes)
    → find id (erase_all ids m) ≡ (if elem id ids then none else find id m)
unfolding erase_all
find-erase_all [] m id = refl
find-erase_all (i ∷ ids) m id = elim (Bool-cases (same i id)) [
  | inl e ↦ rw e (find-erase_all ids (erase i m) id ∙ rw (find-erase id i m, e) (ground arith))
  | inr e ↦ rw e (find-erase_all ids (erase i m) id ∙ rw (find-erase id i m, e) refl)
]

erase_all-IsSorted : (ids : List Bytes) (m : Connected) → IsSorted m → IsSorted (erase_all ids m)
unfolding erase_all
erase_all-IsSorted [] m sorted = sorted
erase_all-IsSorted (i ∷ ids) m sorted =
    erase_all-IsSorted ids (erase i m) (erase-IsSorted i m sorted)

elem-insert_by :
    (id x : Bytes) (xs : List Bytes) → elem id (insert_by before x xs) ≡ elem id (x ∷ xs)
unfolding insert_by
elem-insert_by id x [] = refl
elem-insert_by id x (y ∷ xs) = elim (Bool-cases (before y x)) [
  | inl e ↦ rw e (ground (arith, elem-insert_by id x xs))
  | inr e ↦ rw e refl
]

elem-sort_by : (id : Bytes) (xs : List Bytes) → elem id (sort_by before xs) ≡ elem id xs
unfolding sort_by
elem-sort_by id [] = refl
elem-sort_by id (x ∷ xs) =
    elem-insert_by id x (sort_by before xs)
    ∙ ap (λ b. if same x id then true else b) (elem-sort_by id xs)

-- What is left, with what the removal did not touch.
pub record Prunes (old : ShareChain) (root : Bytes) (ids : List Bytes) (new : ShareChain)
    : Type 0 where
  pub valid : IsValid new
  pub apart : Apart new
  pub sorted : IsSorted new.connected
  pub removed : (id : Bytes) → (elem id ids ≡ true) ↔ Descends old.connected root id
  pub left :
      (id : Bytes) → find id new.connected ≡ (if elem id ids then none else find id old.connected)
  pub orphans : new.orphans ≡ old.orphans

left-found :
    (ids : List Bytes) (m : Connected) (id : Bytes) (c : ConnectedShare)
    → find id (erase_all ids m) ≡ some c
    → (elem id ids ≡ false) × (find id m ≡ some c)
left-found ids m id c h =
    let now = sym (find-erase_all ids m id) ∙ h in
    elim (Bool-cases (elem id ids)) [
      | inl e ↦ absurd (ground (arith, rw e at now))
      | inr e ↦ (e, rw e at now)
    ]

-- A share that is left has its parent left.
left-HasParent :
    (chain : ShareChain) (root id : Bytes) (c : ConnectedShare)
    → IsValid chain
    → IsSorted chain.connected
    → elem id (removed_ids chain.connected root) ≡ false
    → find id chain.connected ≡ some c
    → HasParent (erase_all (removed_ids chain.connected root) chain.connected) c
left-HasParent chain root id c v sorted stays there = elim (v.entries id c there).has_parent [
  | inl own_root ↦ inl own_root
  | inr (p, child, found, rel) ↦
      let ids = removed_ids chain.connected root in
      elim (Bool-cases (elem c.share.parent_id ids)) [
        | inl e ↦ absurd (
            cc (
              removed_ids-closed chain root c.share.parent_id id v sorted e (c, there, child, refl),
              stays,
            ))
        | inr e ↦
            inr (p, child, find-erase_all ids chain.connected c.share.parent_id ∙ rw e found, rel)
      ]
]

-- On a valid chain with unconnected orphans and sorted entries, `prune_connected_subtree_ids` of
-- a connected share returns; the removed ids are exactly those of the shares that stand on it
-- through connected children, every other entry is as before, the orphans are untouched, and the
-- new chain is valid, with the best tip of what is left.
pub prune-Prunes :
    (chain : ShareChain) (root : Bytes)
    → IsValid chain
    → Apart chain
    → IsSorted chain.connected
    → contains root chain.connected ≡ true
    → (ids : List Bytes) × (new : ShareChain) × (prune_connected_subtree_ids chain root
        ≡ ok (ids, new))
      × Prunes chain root ids new
unfolding prune_connected_subtree_ids
prune-Prunes chain root v apart sorted there =
    let ids = removed_ids chain.connected root in
    let left = erase_all ids chain.connected in
    let left_sorted = erase_all-IsSorted ids chain.connected sorted in
    let (tip, chosen, best) = choose_tip-IsBest left left_sorted in
    (
      sort_by before ids,
      record chain { connected = left; best_tip_id = tip },
      rw (prune_connected_subtree_ids, there, chosen) refl,
      record {
        valid = record {
          entries = λ id c h.
              let (stays, found) = left-found ids chain.connected id c h in
              let e = v.entries id c found in
              record {
                own_id = e.own_id;
                share_ranges = e.share_ranges;
                work_array = e.work_array;
                nonzero = e.nonzero;
                has_parent = left-HasParent chain root id c v sorted stays found;
              };
          best = best;
          waiting = v.waiting;
        };
        apart = λ id o h.
            find-erase_all ids chain.connected id
            ∙ rw (apart id o h)
                (elim (Bool-cases (elem id ids)) [ inl e ↦ rw e refl | inr e ↦ rw e refl ]);
        sorted = left_sorted;
        removed = λ id.
            subst (λ b. (b ≡ true) ↔ Descends chain.connected root id) (sym (elem-sort_by id ids))
              (removed_ids_iff chain root id v sorted);
        left = λ id.
            find-erase_all ids chain.connected id
            ∙ ap (λ b. if b then none else find id chain.connected) (sym (elem-sort_by id ids));
        orphans = refl;
      },
    )
