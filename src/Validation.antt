-- ===== src/Validation.antt =====
-- src/progpowz.cpp and src/share_validation.cpp: the proof of work of a candidate, checked against
-- the share difficulty and against the network difficulty.
pub mod Candidate
use zano_p2pool.Prelude.{
  ℕ, zero, suc, ◌-◌, ◌/◌, ◌^◌, ◌>>=◌, ◌>>◌, Bool, true, false, not, Result, ok, throws, throw_if,
  out_of_range, runtime_error, bad_alloc, ltb, if◌then◌else◌,
}
use zano_p2pool.Bytes.{Bytes, zeros}
use zano_p2pool.Hash.{cn_fast_hash}
use zano_p2pool.Decimal.{Text}
use zano_p2pool.Target.{hash_meets_difficulty}
use zano_p2pool.Platform.{Platform, ProgPowZResult, ProgPowZContextMode, light, full}

abbrev pub progpowz_epoch_length : ℕ
progpowz_epoch_length = 30000

-- std::numeric_limits<int>::max()
abbrev pub max_int : ℕ
max_int = 2 ^ 31 - 1

unfoldable pub progpowz_epoch : ℕ → ℕ
progpowz_epoch height = height / progpowz_epoch_length

abbrev hash_times : ℕ → Bytes → Bytes
hash_times zero seed = seed
hash_times (suc n) seed = hash_times n (cn_fast_hash seed)

unfoldable pub progpowz_seed : ℕ → Result Bytes
unfolding progpowz_epoch
progpowz_seed height = do
  throw_if (ltb max_int height) out_of_range
  ok (hash_times (progpowz_epoch height) (zeros 32))

pub data CandidateClassification : Type 0 where
  invalid share block : CandidateClassification

abbrev pub is_invalid : CandidateClassification → Bool
is_invalid invalid = true
is_invalid share = false
is_invalid block = false

pub record CandidateValidation : Type 0 where
  pub pow : ProgPowZResult
  pub meets_share_difficulty : Bool
  pub meets_network_difficulty : Bool
  pub classification : CandidateClassification

abbrev pub classify : Bool → Bool → CandidateClassification
classify meets_share meets_network =
    if meets_network then block else if meets_share then share else invalid

-- The share difficulty is read only if the network difficulty is not met.
unfoldable pub classify_pow_hash : Bytes → Text → Text → Result CandidateClassification
classify_pow_hash pow_hash share_difficulty network_difficulty = do
  meets_network ← hash_meets_difficulty pow_hash network_difficulty
  if meets_network then ok block else (do
    meets_share ← hash_meets_difficulty pow_hash share_difficulty
    if meets_share then ok share else ok invalid)

module _ (platform : Platform) where
  abbrev pub progpowz_available : Bool
  progpowz_available = platform.have_progpowz

  unfoldable pub progpowz_hash : ℕ → Bytes → ℕ → ProgPowZContextMode → Result ProgPowZResult
  unfolding progpowz_epoch
  progpowz_hash height header_hash nonce mode = do
    throw_if (not platform.have_progpowz) runtime_error
    throw_if (ltb max_int height) out_of_range
    let out = platform.progpow_hash mode (progpowz_epoch height) height header_hash nonce
    elim mode [
      | light ↦ ok out
      | full ↦
          if platform.epoch_context_full (progpowz_epoch height) then ok out else throws bad_alloc
    ]

  unfoldable pub validate_candidate :
      ℕ → Bytes → ℕ → Text → Text → ProgPowZContextMode → Result CandidateValidation
  validate_candidate height header_hash nonce share_difficulty network_difficulty mode = do
    pow ← progpowz_hash height header_hash nonce mode
    meets_share ← hash_meets_difficulty pow.final_hash share_difficulty
    meets_network ← hash_meets_difficulty pow.final_hash network_difficulty
    ok (record {
      pow = pow;
      meets_share_difficulty = meets_share;
      meets_network_difficulty = meets_network;
      classification = classify meets_share meets_network;
    })
