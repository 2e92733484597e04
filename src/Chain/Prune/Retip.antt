-- ===== src/Chain/Prune/Retip.antt =====
-- The choice of the tip in `prune_connected_subtree_ids`.
use zano_p2pool.Prelude.{
  ◌≡◌, refl, sym, ◌∙◌, subst, Bool-cases, Option-cases, inl, inr, false, Option, none, some, [],
  ◌∷◌, Result, ok, arith, some-injective,
}
use zano_p2pool.Bytes.{Bytes, same}
use zano_p2pool.Bytes.Order.{same_iff}
use zano_p2pool.OrderedMap.{bytes_key, find}
use zano_p2pool.OrderedMap.Sorted.{IsSorted}
use zano_p2pool.Chain.{ConnectedShare, better_tip}
use zano_p2pool.Chain.TipOrder.{better_tip_irrefl, better_tip_trans}
use zano_p2pool.Chain.Invariant.{Connected, IsBest}
use zano_p2pool.Chain.Prune.{choose_tip}
use zano_p2pool.Chain.Prune.Subtree.{Within, find-later, find-head}

-- The entries before `rest` are not better than the tip so far, and there are none without one.
abbrev BestSoFar : Connected → Option Bytes → Connected → Type 0
BestSoFar all none rest =
    (id : Bytes) (c : ConnectedShare) → find id all ≡ some c → find id rest ≡ some c
BestSoFar all (some tip) rest =
    (best : ConnectedShare) × (find tip all ≡ some best)
    × ((id : Bytes) (c : ConnectedShare)
        → find id all ≡ some c
        → find id rest ≡ none
        → better_tip c best ≡ false)

Within-tail :
    (all : Connected) (j : Bytes) (w : ConnectedShare) (rest : Connected)
    → IsSorted ((j, w) ∷ rest)
    → Within all ((j, w) ∷ rest)
    → Within all rest
Within-tail all j w rest sorted within id c h = within id c (find-later id j w c rest sorted.0 h)

-- What is not in the rest is the head or before it.
not_in_tail :
    (all : Connected) (id j : Bytes) (w c : ConnectedShare) (rest : Connected)
    → find id all ≡ some c
    → find j all ≡ some w
    → (find id ((j, w) ∷ rest) ≡ none → better_tip c w ≡ false)
    → find id rest ≡ none
    → better_tip c w ≡ false
unfolding find
not_in_tail all id j w c rest here there earlier gone = elim (Bool-cases (same j id)) [
  | inr e ↦ earlier (rw e gone)
  | inl e ↦
      let own : c ≡ w =
        some-injective (sym here ∙ subst (λ k. find k all ≡ some w) ((same_iff j id).0 e) there) in
      subst (λ x. better_tip x w ≡ false) (sym own) (better_tip_irrefl w)
]

-- The tip that is found is the best, and one is found.
abbrev Chooses : Connected → Result (Option Bytes) → Type 0
Chooses all result = (tip : Option Bytes) × (result ≡ ok tip) × IsBest all tip

choose_tip-Chooses :
    (all : Connected) (tip : Option Bytes) (rest : Connected)
    → IsSorted rest
    → Within all rest
    → BestSoFar all tip rest
    → Chooses all (choose_tip all tip rest)
unfolding choose_tip find
choose_tip-Chooses all none [] sorted within so_far = (
  none,
  refl,
  λ id. elim (Option-cases (find id all)) [
    | inl gone ↦ gone
    | inr (c, there) ↦ cc (so_far id c there)
  ],
)
choose_tip-Chooses all (some tip) [] sorted within (best, here, so_far) =
    (some tip, refl, (best, here, λ id c there. so_far id c there refl))
choose_tip-Chooses all none ((j, w) ∷ rest) sorted within so_far =
    let here = within j w (find-head j w rest) in
    choose_tip-Chooses all (some j) rest sorted.1 (Within-tail all j w rest sorted within) (
      w,
      here,
      λ id c there gone.
          not_in_tail all id j w c rest there here (λ before_it. cc (before_it, so_far id c there))
            gone,
    )
choose_tip-Chooses all (some tip) ((j, w) ∷ rest) sorted within (best, known, so_far) =
    let here = within j w (find-head j w rest) in
    elim (Bool-cases (better_tip w best)) [
      | inl better ↦
          rw (choose_tip, known, better)
            (choose_tip-Chooses all (some j) rest sorted.1 (Within-tail all j w rest sorted within)
              (
                w,
                here,
                λ id c there gone.
                    not_in_tail all id j w c rest there here
                      (λ before_it.
                        let old = so_far id c there before_it in
                        ground (arith, old, better, better_tip_trans c w best))
                      gone,
              ))
      | inr worse ↦
          rw (choose_tip, known, worse)
            (choose_tip-Chooses all (some tip) rest sorted.1
              (Within-tail all j w rest sorted within)
              (
                best,
                known,
                λ id c there gone. elim (Bool-cases (same j id)) [
                  | inr e ↦ so_far id c there (rw e gone)
                  | inl e ↦
                      let own : c ≡ w =
                        some-injective (
                          sym there
                          ∙ subst (λ k. find k all ≡ some w) ((same_iff j id).0 e) here) in
                      subst (λ x. better_tip x best ≡ false) (sym own) worse
                ],
              ))
    ]

-- The tip that is chosen among all entries is the best one, none if there is none.
pub choose_tip-IsBest :
    (all : Connected)
    → IsSorted all
    → (tip : Option Bytes) × (choose_tip all none all ≡ ok tip) × IsBest all tip
choose_tip-IsBest all sorted = choose_tip-Chooses all none all sorted (λ id c h. h) (λ id c h. h)
