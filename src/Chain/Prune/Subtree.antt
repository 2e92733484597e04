-- ===== src/Chain/Prune/Subtree.antt =====
-- The children of a share, as the loop of `prune_connected_subtree_ids` finds them.
use zano_p2pool.Prelude.{
  ◌≤◌, ◌≡◌, refl, sym, ◌∙◌, ap, subst, Bool, Bool-cases, inl, inr, true, false, ◌||◌, none, some,
  List, [], ◌∷◌, ◌++◌, arith, length, if◌then◌else◌,
}
use mathlib.Core.List.{append_assoc, append-nil}
use zano_p2pool.Bytes.{Bytes, same}
use zano_p2pool.Bytes.Order.{same_iff, same_refl}
use zano_p2pool.OrderedMap.{bytes_key, OrderedMap, find, insert}
use zano_p2pool.OrderedMap.Laws.{find-insert}
use zano_p2pool.OrderedMap.Sorted.{IsSorted, After, find-After}
use zano_p2pool.Share.{is_zero_share_id}
use zano_p2pool.Chain.{ConnectedShare}
use zano_p2pool.Chain.Connect.{children_of}
use zano_p2pool.Chain.Invariant.{Connected}
use zano_p2pool.Chain.Prune.{children_from}

-- Whether the id is one of the list.
abbrev pub elem : Bytes → List Bytes → Bool
elem id [] = false
elem id (x ∷ xs) = if same x id then true else elem id xs

pub elem-append : (id : Bytes) (xs ys : List Bytes) → elem id (xs ++ ys) ≡ elem id xs || elem id ys
elem-append id [] ys = refl
elem-append id (x ∷ xs) ys = ground (arith, elem-append id xs ys)

pub elem-later : (id x : Bytes) (xs : List Bytes) → elem id xs ≡ true → elem id (x ∷ xs) ≡ true
elem-later id x xs h = ground (arith, h)

abbrev is_child_of : Bytes → ConnectedShare → Bool
is_child_of parent c =
    if is_zero_share_id c.share.parent_id then false else same c.share.parent_id parent

-- The ids of the children of a share, in the order of the map.
abbrev pub kids : Bytes → Connected → List Bytes
kids parent [] = []
kids parent ((id, c) ∷ m) = if is_child_of parent c then id ∷ kids parent m else kids parent m

find-children_from :
    (parent : Bytes) (m : Connected) (children : OrderedMap Bytes (List Bytes))
    → children_of (find parent (children_from m children))
      ≡ children_of (find parent children) ++ kids parent m
unfolding children_from
find-children_from parent [] children = sym (append-nil (children_of (find parent children)))
find-children_from parent ((id, c) ∷ m) children =
    elim (Bool-cases (is_zero_share_id c.share.parent_id)) [
      | inl e ↦ rw e (find-children_from parent m children)
      | inr e ↦
          let own = c.share.parent_id in
          let row = children_of (find own children) ++ (id ∷ []) in
          let rest = find-children_from parent m (insert own row children) in
          let here = find-insert parent own row children in
          elim (Bool-cases (same own parent)) [
            | inr f ↦ rw (e, f) (rest ∙ rw (here, f) refl)
            | inl f ↦
                let same_parent = (same_iff own parent).0 f in
                rw (e, f)
                  (rest
                    ∙ rw (here, f)
                        (append_assoc (children_of (find own children)) (id ∷ []) (kids parent m)
                          ∙ ap (λ p. children_of (find p children) ++ (id ∷ kids parent m))
                              same_parent))
          ]
    ]

-- The map of the children holds the children.
pub children-kids :
    (parent : Bytes) (m : Connected)
    → children_of (find parent (children_from m [])) ≡ kids parent m
unfolding find
children-kids parent m = find-children_from parent m []

pub length-kids-le : (parent : Bytes) (m : Connected) → length (kids parent m) ≤ length m
length-kids-le parent [] = omega arith
length-kids-le parent ((id, c) ∷ m) = ground (arith, length-kids-le parent m)

-- A child of the share is connected, and names it.
abbrev pub IsKid : Connected → Bytes → Bytes → Type 0
IsKid m parent id =
    (c : ConnectedShare) × (find id m ≡ some c)
    × (is_zero_share_id c.share.parent_id ≡ false)
    × (c.share.parent_id ≡ parent)

-- Every entry of `rest` is one of the map.
abbrev pub Within : Connected → Connected → Type 0
Within all rest = (id : Bytes) (c : ConnectedShare) → find id rest ≡ some c → find id all ≡ some c

pub find-head :
    (j : Bytes) (w : ConnectedShare) (rest : Connected) → find j ((j, w) ∷ rest) ≡ some w
unfolding find
find-head j w rest = rw (same_refl j) refl

pub find-later :
    (id j : Bytes) (w c : ConnectedShare) (m : Connected)
    → After j m
    → find id m ≡ some c
    → find id ((j, w) ∷ m) ≡ some c
unfolding find
find-later id j w c m after h = elim (Bool-cases (same j id)) [
  | inr e ↦ rw e h
  | inl e ↦
      let gone = find-After j m after in
      cc (subst (λ k. find k m ≡ none) ((same_iff j id).0 e) gone, h)
]

pub kids-IsKid :
    (parent : Bytes) (m : Connected) (id : Bytes)
    → IsSorted m
    → elem id (kids parent m) ≡ true
    → IsKid m parent id
unfolding find
kids-IsKid parent [] id sorted h = cc
kids-IsKid parent ((j, w) ∷ m) id sorted h =
    let later : elem id (kids parent m) ≡ true → IsKid ((j, w) ∷ m) parent id = λ there.
      let (c, found, child, own) = kids-IsKid parent m id sorted.1 there in
      (c, find-later id j w c m sorted.0 found, child, own) in
    elim (Bool-cases (is_zero_share_id w.share.parent_id)) [
      | inl e ↦ later (rw e at h)
      | inr e ↦ elim (Bool-cases (same w.share.parent_id parent)) [
        | inr f ↦ later (rw (e, f) at h)
        | inl f ↦ elim (Bool-cases (same j id)) [
          | inl g ↦ (w, rw g refl, e, (same_iff w.share.parent_id parent).0 f)
          | inr g ↦ later (rw (e, f, g) at h)
        ]
      ]
    ]

pub IsKid-kids :
    (parent : Bytes) (m : Connected) (id : Bytes)
    → IsKid m parent id
    → elem id (kids parent m) ≡ true
unfolding find
IsKid-kids parent [] id (c, found, child, own) = cc
IsKid-kids parent ((j, w) ∷ m) id (c, found, child, own) = elim (Bool-cases (same j id)) [
  | inr g ↦
      let there = IsKid-kids parent m id (c, rw (find, g) at found, child, own) in
      ground (arith, g, there)
  | inl g ↦
      let same_entry : w ≡ c = ground (arith, g) in
      let w_child =
        subst (λ x. is_zero_share_id x.share.parent_id ≡ false) (sym same_entry) child in
      let w_own = subst (λ x. x.share.parent_id ≡ parent) (sym same_entry) own in
      rw (w_child, (same_iff w.share.parent_id parent).1 w_own, g) refl
]
