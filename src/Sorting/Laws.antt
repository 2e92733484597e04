-- ===== src/Sorting/Laws.antt =====
-- What sorting keeps, and the order of its result.
use mathlib.Core.List.{Perm}
use mathlib.Core.List.Perm
use zano_p2pool.Prelude.{
  ℕ, suc, zero, ◌+◌, ◌≤◌, ◌<◌, ◌≡◌, refl, Bool, Bool-cases, inl, inr, List, [], ◌∷◌, All, arith,
  length, get_or, ltb,
}
use zano_p2pool.Sorting.{insert_by, sort_by}

module _ {ℓ} {A : Type ℓ} (less : A → A → Bool) where
  insert_by-perm : (a : A) (xs : List A) → Perm (insert_by less a xs) (a ∷ xs)
  unfolding insert_by
  insert_by-perm a [] = Perm.refl (a ∷ [])
  insert_by-perm a (x ∷ xs) = elim (Bool-cases (less x a)) [
    | inl e ↦ rw e (Perm.trans (Perm.cons x (insert_by-perm a xs)) (Perm.swap a x xs))
    | inr e ↦ rw e (Perm.refl (a ∷ x ∷ xs))
  ]

  -- The sorted list holds the same elements.
  pub sort_by-perm : (xs : List A) → Perm (sort_by less xs) xs
  unfolding sort_by
  sort_by-perm [] = Perm.refl []
  sort_by-perm (x ∷ xs) =
      Perm.trans (insert_by-perm x (sort_by less xs)) (Perm.cons x (sort_by-perm xs))

  length-insert_by : (a : A) (xs : List A) → length (insert_by less a xs) ≡ suc (length xs)
  unfolding insert_by
  length-insert_by a [] = refl
  length-insert_by a (x ∷ xs) = ground (arith, length-insert_by a xs)

  pub length-sort_by : (xs : List A) → length (sort_by less xs) ≡ length xs
  unfolding sort_by
  length-sort_by [] = refl
  length-sort_by (x ∷ xs) = omega (arith, length-insert_by x (sort_by less xs), length-sort_by xs)

  module _ {κ} (P : A → Type κ) where
    All-insert_by : (a : A) (xs : List A) → P a → All P xs → All P (insert_by less a xs)
    unfolding insert_by
    All-insert_by a [] h hs = (h, tt)
    All-insert_by a (x ∷ xs) h hs = elim (Bool-cases (less x a)) [
      | inl e ↦ rw e (hs.0, All-insert_by a xs h hs.1)
      | inr e ↦ rw e (h, hs)
    ]

    pub All-sort_by : (xs : List A) → All P xs → All P (sort_by less xs)
    unfolding sort_by
    All-sort_by [] h = tt
    All-sort_by (x ∷ xs) h = All-insert_by x (sort_by less xs) h.0 (All-sort_by xs h.1)

  module _ (weight : A → ℕ) where
    unfoldable pub sum_by : List A → ℕ
    sum_by [] = 0
    sum_by (x ∷ xs) = weight x + sum_by xs

    sum_by-insert_by : (a : A) (xs : List A) → sum_by (insert_by less a xs) ≡ weight a + sum_by xs
    unfolding sum_by insert_by
    sum_by-insert_by a [] = refl
    sum_by-insert_by a (x ∷ xs) = ground (arith, sum_by-insert_by a xs)

    pub sum_by-sort_by : (xs : List A) → sum_by (sort_by less xs) ≡ sum_by xs
    unfolding sum_by sort_by
    sum_by-sort_by [] = refl
    sum_by-sort_by (x ∷ xs) = omega (arith, sum_by-insert_by x (sort_by less xs), sum_by-sort_by xs)

-- Numbers come out in increasing order.
abbrev pub IsAscending : ℕ → List ℕ → Type 0
IsAscending low [] = Unit
IsAscending low (x ∷ xs) = (low ≤ x) × IsAscending x xs

IsAscending-mono : (a b : ℕ) (xs : List ℕ) → a ≤ b → IsAscending b xs → IsAscending a xs
IsAscending-mono a b [] h s = tt
IsAscending-mono a b (x ∷ xs) h s = (omega arith, s.1)

insert_by-IsAscending :
    (low a : ℕ) (xs : List ℕ) → low ≤ a → IsAscending low xs → IsAscending low (insert_by ltb a xs)
unfolding insert_by
insert_by-IsAscending low a [] h s = (h, tt)
insert_by-IsAscending low a (x ∷ xs) h s = elim (Bool-cases (ltb x a)) [
  | inl e ↦ rw e (s.0, insert_by-IsAscending x a xs (ground arith) s.1)
  | inr e ↦ rw e (h, (ground arith, s.1))
]

pub sort_by-IsAscending : (xs : List ℕ) → IsAscending 0 (sort_by ltb xs)
unfolding sort_by
sort_by-IsAscending [] = tt
sort_by-IsAscending (x ∷ xs) =
    insert_by-IsAscending 0 x (sort_by ltb xs) (omega arith) (sort_by-IsAscending xs)

-- A later element of an increasing list is not smaller.
pub get_or-IsAscending :
    (low : ℕ) (xs : List ℕ) (i j : ℕ)
    → IsAscending low xs
    → i ≤ j
    → j < length xs
    → (low ≤ get_or xs i 0) × (get_or xs i 0 ≤ get_or xs j 0)
get_or-IsAscending low [] i j s h k = absurd (omega arith)
get_or-IsAscending low (x ∷ xs) zero zero s h k = (s.0, omega arith)
get_or-IsAscending low (x ∷ xs) zero (suc j) s h k =
    let ih = get_or-IsAscending x xs j j s.1 (omega arith) (omega arith) in (s.0, ih.0)
get_or-IsAscending low (x ∷ xs) (suc i) zero s h k = absurd (omega arith)
get_or-IsAscending low (x ∷ xs) (suc i) (suc j) s h k =
    let ih = get_or-IsAscending x xs i j s.1 (omega arith) (omega arith) in (omega arith, ih.1)

pub All-get_or {κ} :
    (P : ℕ → Type κ) (xs : List ℕ) (i : ℕ) → All P xs → i < length xs → P (get_or xs i 0)
All-get_or P [] i h k = absurd (omega arith)
All-get_or P (x ∷ xs) zero h k = h.0
All-get_or P (x ∷ xs) (suc i) h k = All-get_or P xs i h.1 (omega arith)
