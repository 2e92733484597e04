-- ===== src/OrderedMap/Sorted.antt =====
-- The order of the entries, and sums over them.
use zano_p2pool.Prelude.{
  ℕ, ◌+◌, ◌≤◌, ◌≡◌, refl, true, false, Option, none, some, [], ◌∷◌, arith, Bool-cases, inl, inr,
  subst,
}
use zano_p2pool.OrderedMap.{Key, OrderedMap, find, insert, erase}

module _ {K : Type 0} ⦃key : Key K⦄ where
  -- The key that is neither equal nor smaller is larger.
  before_of_not :
      (j k : K) → key.same_key j k ≡ false → key.before_key k j ≡ false → key.before_key j k ≡ true
  before_of_not j k e f = elim (Bool-cases (key.before_key j k)) [
    | inl g ↦ g
    | inr g ↦ ground (arith, key.same_key_iff j k, key.total j k)
  ]

-- The weight of a lookup.
abbrev pub weight_of {ℓ} : {V : Type ℓ} → (V → ℕ) → Option V → ℕ
weight_of weight none = 0
weight_of weight (some v) = weight v

module _ {ℓ} {K : Type 0} {V : Type ℓ} ⦃key : Key K⦄ where
  -- Every key of the map comes after `k`.
  abbrev pub After : K → OrderedMap K V → Type 0
  After k [] = Unit
  After k ((j, w) ∷ m) = (key.before_key k j ≡ true) × After k m

  abbrev pub IsSorted : OrderedMap K V → Type 0
  IsSorted [] = Unit
  IsSorted ((k, v) ∷ m) = After k m × IsSorted m

  After-trans : (a b : K) (m : OrderedMap K V) → key.before_key a b ≡ true → After b m → After a m
  After-trans a b [] h k = tt
  After-trans a b ((j, w) ∷ m) h k = (key.trans a b j h k.0, After-trans a b m h k.1)

  After-insert :
      (a k : K) (v : V) (m : OrderedMap K V)
      → key.before_key a k ≡ true
      → After a m
      → After a (insert k v m)
  unfolding insert
  After-insert a k v [] h s = (h, tt)
  After-insert a k v ((j, w) ∷ m) h s = elim (Bool-cases (key.same_key j k)) [
    | inl e ↦ rw e (h, s.1)
    | inr e ↦ rw e (elim (Bool-cases (key.before_key k j)) [
      | inl f ↦ rw f (h, s)
      | inr f ↦ rw f (s.0, After-insert a k v m h s.1)
    ])
  ]

  pub insert-IsSorted : (k : K) (v : V) (m : OrderedMap K V) → IsSorted m → IsSorted (insert k v m)
  unfolding insert
  insert-IsSorted k v [] s = (tt, tt)
  insert-IsSorted k v ((j, w) ∷ m) s = elim (Bool-cases (key.same_key j k)) [
    | inl e ↦ rw e (subst (λ i. After i m) ((key.same_key_iff j k).0 e) s.0, s.1)
    | inr e ↦ rw e (elim (Bool-cases (key.before_key k j)) [
      | inl f ↦ rw f ((f, After-trans k j m f s.0), s)
      | inr f ↦ rw f (After-insert j k v m (before_of_not j k e f) s.0, insert-IsSorted k v m s.1)
    ])
  ]

  After-erase : (a k : K) (m : OrderedMap K V) → After a m → After a (erase k m)
  unfolding erase
  After-erase a k [] s = tt
  After-erase a k ((j, w) ∷ m) s = elim (Bool-cases (key.same_key j k)) [
    | inl e ↦ rw e (After-erase a k m s.1)
    | inr e ↦ rw e (s.0, After-erase a k m s.1)
  ]

  pub erase-IsSorted : (k : K) (m : OrderedMap K V) → IsSorted m → IsSorted (erase k m)
  unfolding erase
  erase-IsSorted k [] s = tt
  erase-IsSorted k ((j, w) ∷ m) s = elim (Bool-cases (key.same_key j k)) [
    | inl e ↦ rw e (erase-IsSorted k m s.1)
    | inr e ↦ rw e (After-erase j k m s.0, erase-IsSorted k m s.1)
  ]

  -- A key before all others is not there.
  pub find-After : (k : K) (m : OrderedMap K V) → After k m → find k m ≡ none
  unfolding find
  find-After k [] s = refl
  find-After k ((j, w) ∷ m) s = ground (arith, find-After k m, key.same_key_iff j k, key.irrefl k)

  -- What is found behind a key is another key.
  pub After-found :
      (j k : K) (m : OrderedMap K V) {v : V}
      → After j m
      → find k m ≡ some v
      → key.same_key j k ≡ false
  After-found j k m {v} after h = elim (Bool-cases (key.same_key j k)) [
    | inr e ↦ e
    | inl e ↦
        let gone = find-After j m after in
        cc (subst (λ i. find i m ≡ none) ((key.same_key_iff j k).0 e) gone, h)
  ]

  pub find-none-erase : (k : K) (m : OrderedMap K V) → find k m ≡ none → erase k m ≡ m
  unfolding find erase
  find-none-erase k [] h = refl
  find-none-erase k ((j, w) ∷ m) h = ground (arith, find-none-erase k m)

  module _ (weight : V → ℕ) where
    -- The sum of a weight over the entries.
    unfoldable pub sum_of : OrderedMap K V → ℕ
    sum_of [] = 0
    sum_of ((k, v) ∷ m) = weight v + sum_of m

    -- An insertion replaces the weight of what stood at the key.
    pub sum_of-insert :
        (k : K) (v : V) (m : OrderedMap K V)
        → IsSorted m
        → sum_of (insert k v m) + weight_of weight (find k m) ≡ sum_of m + weight v
    unfolding sum_of insert find
    sum_of-insert k v [] s = omega arith
    sum_of-insert k v ((j, w) ∷ m) s = elim (Bool-cases (key.same_key j k)) [
      | inl e ↦ rw e (omega arith)
      | inr e ↦ rw e (elim (Bool-cases (key.before_key k j)) [
        | inl f ↦ rw (f, find-After k m (After-trans k j m f s.0)) (omega arith)
        | inr f ↦ rw f (omega (arith, sum_of-insert k v m s.1))
      ])
    ]

    pub weight-le-sum_of : (k : K) (m : OrderedMap K V) → weight_of weight (find k m) ≤ sum_of m
    unfolding sum_of find
    weight-le-sum_of k [] = omega arith
    weight-le-sum_of k ((j, w) ∷ m) = ground (arith, weight-le-sum_of k m)
