-- ===== src/Tests/Samples.antt =====
-- Shares, chains and windows to apply the theorems to.
use zano_p2pool.Prelude.{
  ℕ, ◌≡◌, refl, Bool, true, false, none, [], ◌∷◌, ◌++◌, All, Result, ok, throws, arith, length, ltb,
  ◌&&◌,
}
use zano_p2pool.Bytes.{Bytes, zeros, IsArray, IsByte}
use zano_p2pool.Share.{Share, IsShare}
use zano_p2pool.Chain.{ShareWorkContext, empty_chain}
use zano_p2pool.Chain.Invariant.{IsValid, Apart}
use zano_p2pool.OrderedMap.{bytes_key, find}

-- The value of a result that is one.
abbrev pub value_or {ℓ} : {A : Type ℓ} → A → Result A → A
value_or d (ok a) = a
value_or d (throws e) = d

abbrev pub is_ok {ℓ} : {A : Type ℓ} → Result A → Bool
is_ok (ok a) = true
is_ok (throws e) = false

pub ok_value_or {ℓ} : {A : Type ℓ} (d : A) (r : Result A) → is_ok r ≡ true → r ≡ ok (value_or d r)
ok_value_or d (ok a) h = refl
ok_value_or d (throws e) h = absurd (ground (arith, h))

abbrev pub all_bytes : Bytes → Bool
all_bytes [] = true
all_bytes (b ∷ bs) = ltb b 256 && all_bytes bs

pub all_bytes-All : (bs : Bytes) → all_bytes bs ≡ true → All IsByte bs
all_bytes-All [] h = tt
all_bytes-All (b ∷ bs) h = (ground arith, all_bytes-All bs (ground arith))

-- An array written out.
pub array : (n : ℕ) (bs : Bytes) → length bs ≡ n → all_bytes bs ≡ true → IsArray n bs
array n bs l h = (l, all_bytes-All bs h)

abbrev pub header : Bytes
header = zeros 31 ++ (7 ∷ [])

abbrev pub one : Bytes
one = zeros 15 ++ (1 ∷ [])

abbrev pub ten : Bytes
ten = zeros 15 ++ (10 ∷ [])

abbrev pub root_share : Share
root_share = record {
  version = 1;
  parent_id = zeros 32;
  share_height = 0;
  timestamp = 1000;
  zano_height = 60000;
  mining_header_hash = header;
  nonce = 5;
  share_difficulty = one;
  network_difficulty = ten;
  miner_id = zeros 32;
  payout = none;
}

pub root_share-IsShare : IsShare root_share
root_share-IsShare = record {
  version_range = omega arith;
  parent_array = array 32 (zeros 32) refl refl;
  height_range = omega arith;
  timestamp_range = omega arith;
  zano_height_range = omega arith;
  header_array = array 32 header refl refl;
  nonce_range = omega arith;
  share_difficulty_array = array 16 one refl refl;
  network_difficulty_array = array 16 ten refl refl;
  miner_array = array 32 (zeros 32) refl refl;
  keys_arrays = λ p h. absurd (ground (arith, h));
}

abbrev pub context : ShareWorkContext
context = record { zano_height = 60000; mining_header_hash = header; network_difficulty = ten }

pub empty_chain-IsValid : IsValid empty_chain
unfolding empty_chain find
empty_chain-IsValid = record {
  entries = λ id c h. absurd (ground (arith, h));
  best = λ id. refl;
  waiting = λ id o h. absurd (ground (arith, h));
}

pub empty_chain-Apart : Apart empty_chain
unfolding empty_chain find
empty_chain-Apart = λ id o h. refl
