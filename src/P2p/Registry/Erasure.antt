-- ===== src/P2p/Registry/Erasure.antt =====
-- What is left of the registry of trusted work after an erasure.
use zano_p2pool.Bytes.{Bytes}
use zano_p2pool.Bytes.Order.{same_iff}
use zano_p2pool.Prelude.{
  ℕ, ◌==◌, false, ◌≢◌, ◌↔◌, ◌⊎◌, ◌≤◌, some-injective, ◌+◌, ◌≡◌, refl, sym, ◌∙◌, ap, subst, Bool,
  Bool-cases, inl, inr, Option, none, some, [], ◌∷◌, arith, length, if◌then◌else◌,
}
use zano_p2pool.OrderedMap.{find}
use zano_p2pool.OrderedMap.Sorted.{After, IsSorted, find-After}
use zano_p2pool.P2p.WorkKey.{WorkKey, work_key, same_work_key, same_work_key_iff}
use zano_p2pool.P2p.Registry.{
  TrustedEntry, P2pTrustedWorkRegistry, erase_where, at_height, above_height, at_other_parent,
  other_parent, erase_zano_height, erase_zano_heights_above, erase_zano_parent_mismatch,
}

-- A lookup that must not find what is stale.
abbrev pub unless_stale :
    (WorkKey → TrustedEntry → Bool) → WorkKey → Option TrustedEntry → Option TrustedEntry
unless_stale stale key none = none
unless_stale stale key (some entry) = if stale key entry then none else some entry

After-erase_where :
    (stale : WorkKey → TrustedEntry → Bool) (first : WorkKey) (contexts : P2pTrustedWorkRegistry)
    → After first contexts
    → After first (erase_where stale contexts).1
unfolding erase_where
After-erase_where stale first [] after = tt
After-erase_where stale first ((key, entry) ∷ contexts) after =
    elim (Bool-cases (stale key entry)) [
      | inl e ↦ rw e (After-erase_where stale first contexts after.1)
      | inr e ↦ rw e (after.0, After-erase_where stale first contexts after.1)
    ]

erase_where-IsSorted :
    (stale : WorkKey → TrustedEntry → Bool) (contexts : P2pTrustedWorkRegistry)
    → IsSorted contexts
    → IsSorted (erase_where stale contexts).1
unfolding erase_where
erase_where-IsSorted stale [] sorted = tt
erase_where-IsSorted stale ((key, entry) ∷ contexts) sorted = elim (Bool-cases (stale key entry)) [
  | inl e ↦ rw e (erase_where-IsSorted stale contexts sorted.1)
  | inr e ↦
      rw e (
        After-erase_where stale key contexts sorted.0,
        erase_where-IsSorted stale contexts sorted.1,
      )
]

length-erase_where :
    (stale : WorkKey → TrustedEntry → Bool) (contexts : P2pTrustedWorkRegistry)
    → (erase_where stale contexts).0 + length (erase_where stale contexts).1 ≡ length contexts
unfolding erase_where
length-erase_where stale [] = refl
length-erase_where stale ((key, entry) ∷ contexts) = elim (Bool-cases (stale key entry)) [
  | inl e ↦ rw e (omega (arith, length-erase_where stale contexts))
  | inr e ↦ rw e (omega (arith, length-erase_where stale contexts))
]

find-erase_where :
    (stale : WorkKey → TrustedEntry → Bool) (contexts : P2pTrustedWorkRegistry) (key : WorkKey)
    → IsSorted contexts
    → find key (erase_where stale contexts).1 ≡ unless_stale stale key (find key contexts)
unfolding erase_where find
find-erase_where stale [] key sorted = refl
find-erase_where stale ((first, entry) ∷ contexts) key sorted =
    let rest = find-erase_where stale contexts key sorted.1 in
    elim (Bool-cases (same_work_key first key)) [
      | inr e ↦ elim (Bool-cases (stale first entry)) [
        | inl old ↦ rw (e, old) rest
        | inr fresh ↦ rw (e, fresh, e) rest
      ]
      | inl e ↦
          let same_key = (same_work_key_iff first key).0 e in
          let gone = find-After key contexts (subst (λ k. After k contexts) same_key sorted.0) in
          let stale_key = ap (λ k. stale k entry) same_key in
          elim (Bool-cases (stale first entry)) [
            | inl old ↦ rw (e, old, sym stale_key, old) (rest ∙ rw gone refl)
            | inr fresh ↦ rw (e, fresh, sym stale_key, fresh) (rw e refl)
          ]
    ]

-- What an erasure counts and leaves: the entries that are to be kept, and only those, as they were.
pub record Erases (kept : WorkKey → TrustedEntry → Type 0) (contexts : P2pTrustedWorkRegistry)
    (erased : ℕ) (left : P2pTrustedWorkRegistry) : Type 0 where
  pub sorted : IsSorted left
  pub counted : erased + length left ≡ length contexts
  pub keeps :
      (key : WorkKey) (entry : TrustedEntry)
      → (find key left ≡ some entry) ↔ ((find key contexts ≡ some entry) × kept key entry)

unless_stale-some :
    (stale : WorkKey → TrustedEntry → Bool) (key : WorkKey) (found : Option TrustedEntry)
    (entry : TrustedEntry)
    → (unless_stale stale key found ≡ some entry)
      ↔ ((found ≡ some entry) × (stale key entry ≡ false))
unless_stale-some stale key none entry = (λ h. absurd cc, λ (e, fresh). absurd cc)
unless_stale-some stale key (some other) entry = (
  λ h. elim (Bool-cases (stale key other)) [
    | inl old ↦ absurd (ground (arith, old, h))
    | inr fresh ↦
        let known : other ≡ entry = some-injective (ground (arith, fresh, h)) in
        (ap some known, subst (λ e. stale key e ≡ false) known fresh)
  ],
  λ (e, fresh).
      let known : other ≡ entry = some-injective e in
      let still : stale key other ≡ false = subst (λ x. stale key x ≡ false) (sym known) fresh in
      rw still e,
)

erase_where-Erases :
    (stale : WorkKey → TrustedEntry → Bool) (kept : WorkKey → TrustedEntry → Type 0)
    (contexts : P2pTrustedWorkRegistry)
    → IsSorted contexts
    → ((key : WorkKey) (entry : TrustedEntry) → (stale key entry ≡ false) ↔ kept key entry)
    → Erases kept contexts (erase_where stale contexts).0 (erase_where stale contexts).1
erase_where-Erases stale kept contexts sorted fits = record {
  sorted = erase_where-IsSorted stale contexts sorted;
  counted = length-erase_where stale contexts;
  keeps = λ key entry.
      let same_lookup = find-erase_where stale contexts key sorted in
      let split = unless_stale-some stale key (find key contexts) entry in
      (
        λ h.
            let (there, fresh) = split.0 (sym same_lookup ∙ h) in (there, (fits key entry).0 fresh),
        λ (there, good). same_lookup ∙ split.1 (there, (fits key entry).1 good),
      );
}

-- An entry that `erase_zano_height` keeps.
abbrev pub AtOtherHeight : ℕ → WorkKey → TrustedEntry → Type 0
AtOtherHeight zano_height key entry = key.zano_height ≢ zano_height

-- An entry that `erase_zano_heights_above` keeps.
abbrev pub UpToHeight : ℕ → WorkKey → TrustedEntry → Type 0
UpToHeight maximum key entry = key.zano_height ≤ maximum

-- An entry that `erase_zano_parent_mismatch` keeps.
abbrev pub NoMismatch : ℕ → Bytes → WorkKey → TrustedEntry → Type 0
NoMismatch zano_height canonical key entry =
    (key.zano_height ≢ zano_height)
    ⊎ ((entry.zano_parent_hash ≡ none) ⊎ (entry.zano_parent_hash ≡ some canonical))

at_height-fits :
    (zano_height : ℕ) (key : WorkKey) (entry : TrustedEntry)
    → (at_height zano_height key entry ≡ false) ↔ AtOtherHeight zano_height key entry
at_height-fits zano_height key entry = (λ h e. ground (arith, h, e), λ other. ground (arith, other))

above_height-fits :
    (maximum : ℕ) (key : WorkKey) (entry : TrustedEntry)
    → (above_height maximum key entry ≡ false) ↔ UpToHeight maximum key entry
above_height-fits maximum key entry = (λ h. ground (arith, h), λ low. ground (arith, low))

other_parent-fits :
    (known : Option Bytes) (canonical : Bytes)
    → (other_parent known canonical ≡ false) ↔ ((known ≡ none) ⊎ (known ≡ some canonical))
other_parent-fits none canonical = (λ h. inl refl, λ e. refl)
other_parent-fits (some hash) canonical = (
  λ h. inr (ap some ((same_iff hash canonical).0 (ground (arith, h)))),
  λ e. elim e [
    | inl none_known ↦ absurd cc
    | inr same_hash ↦ ground (arith, (same_iff hash canonical).1 (some-injective same_hash))
  ],
)

at_other_parent-fits :
    (zano_height : ℕ) (canonical : Bytes) (key : WorkKey) (entry : TrustedEntry)
    → (at_other_parent zano_height canonical key entry ≡ false)
      ↔ NoMismatch zano_height canonical key entry
at_other_parent-fits zano_height canonical key entry =
    let parents = other_parent-fits entry.zano_parent_hash canonical in
    (
      λ h. elim (Bool-cases (key.zano_height == zano_height)) [
        | inr other ↦ inl (λ e. ground (arith, other, e))
        | inl here ↦ inr (parents.0 (ground (arith, here, h)))
      ],
      λ kept. elim kept [
        | inl other ↦ ground (arith, other)
        | inr agrees ↦ ground (arith, parents.1 agrees)
      ],
    )

-- On a sorted registry each of the three erasing functions leaves a sorted registry, returns the
-- number of entries that are gone, and leaves a key its entry exactly if it is to be kept:
-- `erase_zano_height` those of other heights, `erase_zano_heights_above` those up to the
-- maximum, `erase_zano_parent_mismatch` those of other heights, without a parent hash, or with
-- the canonical one.
pub erasures-Erase :
    (contexts : P2pTrustedWorkRegistry) (zano_height : ℕ) (canonical : Bytes)
    → IsSorted contexts
    → Erases
        (AtOtherHeight zano_height)
        contexts
        (erase_zano_height contexts zano_height).0
        (erase_zano_height contexts zano_height).1
      × Erases
          (UpToHeight zano_height)
          contexts
          (erase_zano_heights_above contexts zano_height).0
          (erase_zano_heights_above contexts zano_height).1
      × Erases
          (NoMismatch zano_height canonical)
          contexts
          (erase_zano_parent_mismatch contexts zano_height canonical).0
          (erase_zano_parent_mismatch contexts zano_height canonical).1
unfolding erase_zano_height erase_zano_heights_above erase_zano_parent_mismatch
erasures-Erase contexts zano_height canonical sorted = (
  erase_where-Erases _ _ contexts sorted (at_height-fits zano_height),
  erase_where-Erases _ _ contexts sorted (above_height-fits zano_height),
  erase_where-Erases _ _ contexts sorted (at_other_parent-fits zano_height canonical),
)
