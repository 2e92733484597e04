-- ===== src/OrderedMap/Laws.antt =====
-- What a lookup finds after an insertion and an erasure.
use zano_p2pool.Prelude.{
  ◌≤◌, ◌<◌, ◌≡◌, refl, ◌≢◌, true, false, none, some, [], ◌∷◌, if◌then◌else◌, length, arith,
  Bool-cases, inl, inr,
}
use zano_p2pool.OrderedMap.{Key, OrderedMap, find, contains, insert, erase}

module _ {K : Type 0} ⦃key : Key K⦄ where
  pub same_key_refl : (a : K) → key.same_key a a ≡ true
  same_key_refl a = (key.same_key_iff a a).1 refl

module _ {ℓ} {K : Type 0} {V : Type ℓ} ⦃key : Key K⦄ where
  pub find-insert :
      (j k : K) (v : V) (m : OrderedMap K V)
      → find j (insert k v m) ≡ (if key.same_key k j then some v else find j m)
  unfolding find insert
  find-insert j k v [] = refl
  find-insert j k v ((i, w) ∷ m) =
      ground (
        arith,
        find-insert j k v m,
        key.same_key_iff i k,
        key.same_key_iff i j,
        key.same_key_iff k j,
      )

  pub find-insert_self : (k : K) (v : V) (m : OrderedMap K V) → find k (insert k v m) ≡ some v
  find-insert_self k v m = rw (find-insert k k v m, same_key_refl k)

  pub find-insert_ne :
      (j k : K) (v : V) (m : OrderedMap K V) → k ≢ j → find j (insert k v m) ≡ find j m
  find-insert_ne j k v m h = ground (arith, find-insert j k v m, key.same_key_iff k j)

  pub find-erase :
      (j k : K) (m : OrderedMap K V)
      → find j (erase k m) ≡ (if key.same_key k j then none else find j m)
  unfolding find erase
  find-erase j k [] = ground arith
  find-erase j k ((i, w) ∷ m) =
      ground
        (arith, find-erase j k m, key.same_key_iff i k, key.same_key_iff i j, key.same_key_iff k j)

  pub find-erase_self : (k : K) (m : OrderedMap K V) → find k (erase k m) ≡ none
  find-erase_self k m = rw (find-erase k k m, same_key_refl k)

  pub contains-find : (k : K) (m : OrderedMap K V) {v : V} → find k m ≡ some v → contains k m ≡ true
  unfolding find contains
  contains-find k [] h = cc
  contains-find k ((j, w) ∷ m) {v} h = ground (arith, contains-find k m {v = v})

  pub contains-find-none : (k : K) (m : OrderedMap K V) → find k m ≡ none → contains k m ≡ false
  unfolding find contains
  contains-find-none k [] h = refl
  contains-find-none k ((j, w) ∷ m) h = ground (arith, contains-find-none k m)

  pub find_of_contains :
      (k : K) (m : OrderedMap K V) → contains k m ≡ true → (v : V) × (find k m ≡ some v)
  unfolding find contains
  find_of_contains k [] h = cc
  find_of_contains k ((j, w) ∷ m) h = elim (Bool-cases (key.same_key j k)) [
    | inl e ↦ (w, rw e)
    | inr e ↦ rw e (find_of_contains k m (rw (e, contains) at h))
  ]

  pub find_of_not_contains : (k : K) (m : OrderedMap K V) → contains k m ≡ false → find k m ≡ none
  unfolding find contains
  find_of_not_contains k [] h = refl
  find_of_not_contains k ((j, w) ∷ m) h = ground (arith, find_of_not_contains k m)

  pub length-erase-le : (k : K) (m : OrderedMap K V) → length (erase k m) ≤ length m
  unfolding erase
  length-erase-le k [] = omega arith
  length-erase-le k ((j, w) ∷ m) = ground (arith, length-erase-le k m)

  -- Erasing a key that is there shortens the map.
  pub length-erase-lt :
      (k : K) (m : OrderedMap K V) {v : V} → find k m ≡ some v → length (erase k m) < length m
  unfolding erase find
  length-erase-lt k [] h = cc
  length-erase-lt k ((j, w) ∷ m) {v} h =
      ground (arith, length-erase-lt k m {v = v}, length-erase-le k m)

  pub contains-insert :
      (j k : K) (v : V) (m : OrderedMap K V)
      → contains j (insert k v m) ≡ (if key.same_key k j then true else contains j m)
  unfolding contains insert
  contains-insert j k v [] = refl
  contains-insert j k v ((i, w) ∷ m) = ground (
    arith,
    contains-insert j k v m,
    key.same_key_iff i k,
    key.same_key_iff i j,
    key.same_key_iff k j,
  )
