-- ===== src/OrderedMap.antt =====
-- std::map: entries in the order of their keys. The order and the equality of the keys are an
-- instance, since maps are keyed by byte arrays (share ids, miner ids, node ids) and by numbers
-- (Stratum sessions).
pub mod Laws
pub mod Sorted
use zano_p2pool.Prelude.{
  ℕ, ◌≡◌, ◌↔◌, Bool, true, false, Option, none, some, List, [], ◌∷◌, if◌then◌else◌, length, ltb,
  ◌==◌, ==_iff, arith,
}
use zano_p2pool.Bytes.{Bytes, same, before}
use zano_p2pool.Bytes.Order.{same_iff, before_irrefl, before_trans, before_total}

pub record Key (K : Type 0) : Type 0 where
  pub same_key : K → K → Bool
  pub before_key : K → K → Bool
  pub same_key_iff : (a b : K) → (same_key a b ≡ true) ↔ (a ≡ b)
  pub irrefl : (a : K) → before_key a a ≡ false
  pub trans : (a b c : K) → before_key a b ≡ true → before_key b c ≡ true → before_key a c ≡ true
  pub total : (a b : K) → before_key a b ≡ false → before_key b a ≡ false → a ≡ b

instance abbrev pub bytes_key : Key Bytes
bytes_key = record {
  same_key = same;
  before_key = before;
  same_key_iff = same_iff;
  irrefl = before_irrefl;
  trans = before_trans;
  total = before_total;
}

pub ltb_irrefl : (a : ℕ) → ltb a a ≡ false
ltb_irrefl a = ground arith

pub ltb_trans : (a b c : ℕ) → ltb a b ≡ true → ltb b c ≡ true → ltb a c ≡ true
ltb_trans a b c h k = ground arith

pub ltb_total : (a b : ℕ) → ltb a b ≡ false → ltb b a ≡ false → a ≡ b
ltb_total a b h k = ground arith

instance abbrev pub nat_key : Key ℕ
nat_key = record {
  same_key = ◌==◌;
  before_key = ltb;
  same_key_iff = ==_iff;
  irrefl = ltb_irrefl;
  trans = ltb_trans;
  total = ltb_total;
}

abbrev pub OrderedMap {ℓ} : Type 0 → Type ℓ → Type ℓ
OrderedMap K V = List (K × V)

module _ {ℓ} {K : Type 0} {V : Type ℓ} ⦃key : Key K⦄ where
  -- `it = m.find(k)`: none for `m.end()`.
  unfoldable pub find : K → OrderedMap K V → Option V
  find k [] = none
  find k ((j, v) ∷ m) = if key.same_key j k then some v else find k m

  -- `m.contains(k)`.
  unfoldable pub contains : K → OrderedMap K V → Bool
  contains k [] = false
  contains k ((j, v) ∷ m) = if key.same_key j k then true else contains k m

  -- `m.emplace(k, v)` for a new key, and `m[k] = v`.
  unfoldable pub insert : K → V → OrderedMap K V → OrderedMap K V
  insert k v [] = (k, v) ∷ []
  insert k v ((j, w) ∷ m) =
      if key.same_key j k
      then (k, v) ∷ m
      else if key.before_key k j
      then (k, v) ∷ (j, w) ∷ m
      else (j, w) ∷ insert k v m

  -- `m.erase(k)`.
  unfoldable pub erase : K → OrderedMap K V → OrderedMap K V
  erase k [] = []
  erase k ((j, w) ∷ m) = if key.same_key j k then erase k m else (j, w) ∷ erase k m

  -- The keys in iteration order.
  unfoldable pub keys : OrderedMap K V → List K
  keys [] = []
  keys ((k, v) ∷ m) = k ∷ keys m
