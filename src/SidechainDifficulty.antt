-- ===== src/SidechainDifficulty.antt =====
-- include/zano_p2pool/sidechain_difficulty.hpp: the share difficulty that the next share of a
-- branch must carry. Unbounded integers (`cpp_int`) are numbers; the history is newest first.
pub mod Samples
pub mod Bounds
use zano_p2pool.Prelude.{
  ℕ, suc, ◌+◌, ◌-◌, ◌*◌, ◌/◌, ◌^◌, ◌>>=◌, ◌>>◌, ◌||◌, not, min, max, Bool, true, false, Option,
  none, some, List, [], ◌∷◌, Result, ok, throws, throw_if, invalid_argument, runtime_error, length,
  take, get_or, ltb, ◌==◌, if◌then◌else◌,
}
use zano_p2pool.Bytes.{Bytes, value, fill}
use zano_p2pool.Share.{difficulty128_is_zero}
use zano_p2pool.Sorting.{sort_by}

pub record SidechainDifficultySample : Type 0 where
  pub timestamp : ℕ
  pub cumulative_work : Bytes

unfoldable pub big_endian_to_int : Bytes → ℕ
big_endian_to_int = value

unfoldable pub int_to_difficulty128 : ℕ → Result Bytes
int_to_difficulty128 v = do
  throw_if (v == 0) runtime_error
  let (bytes, rest) = fill 16 v []
  throw_if (not (rest == 0)) runtime_error
  ok bytes

abbrev pub max64 : ℕ
max64 = 2 ^ 64 - 1

abbrev pub max32 : ℕ
max32 = 2 ^ 32 - 1

unfoldable pub oldest_from : ℕ → List SidechainDifficultySample → ℕ
oldest_from oldest [] = oldest
oldest_from oldest (sample ∷ samples) = oldest_from (min oldest sample.timestamp) samples

-- `sample.timestamp - oldest_timestamp` does not wrap: the oldest is the minimum.
unfoldable pub timestamp_deltas : ℕ → List SidechainDifficultySample → Result (List ℕ)
timestamp_deltas oldest [] = ok []
timestamp_deltas oldest (sample ∷ samples) = do
  let delta = sample.timestamp - oldest
  throw_if (ltb max32 delta) runtime_error
  deltas ← timestamp_deltas oldest samples
  ok (delta ∷ deltas)

-- The smallest and the largest work of the samples in the band, none while none was found.
unfoldable pub work_range : ℕ → ℕ → Option (ℕ × ℕ) → List SidechainDifficultySample → Option (ℕ × ℕ)
unfolding big_endian_to_int
work_range timestamp1 timestamp2 range [] = range
work_range timestamp1 timestamp2 range (sample ∷ samples) =
    work_range timestamp1 timestamp2
      (if ltb sample.timestamp timestamp1 || ltb timestamp2 sample.timestamp
        then range
        else (elim range [
          | none ↦
              some
                (big_endian_to_int sample.cumulative_work, big_endian_to_int sample.cumulative_work)
          | some (low, high) ↦ some (
            min low (big_endian_to_int sample.cumulative_work),
            max high (big_endian_to_int sample.cumulative_work),
          )
        ]))
      samples

-- The last steps: scale the retained work, and clamp it.
unfoldable pub scaled_difficulty : Option (ℕ × ℕ) → ℕ → ℕ → ℕ → ℕ → Result Bytes
scaled_difficulty none target delta_t effective_minimum network = throws runtime_error
scaled_difficulty (some (low, high)) target delta_t effective_minimum network =
    int_to_difficulty128 (min (max ((high - low) * target / delta_t) effective_minimum) network)

abbrev pub cut_size : ℕ → ℕ
cut_size sample_count = (sample_count + 9) / 10

-- The number of samples is given, so that the indices are seen apart from the list.
unfoldable pub retarget : ℕ → List SidechainDifficultySample → ℕ → ℕ → ℕ → Result Bytes
retarget sample_count samples target effective_minimum network = do
  let oldest_timestamp = oldest_from max64 samples
  deltas ← timestamp_deltas oldest_timestamp samples
  let index1 = cut_size sample_count - 1
  let index2 = sample_count - cut_size sample_count
  let timestamp1 = oldest_timestamp + get_or (sort_by ltb deltas) index1 0
  let timestamp2 = oldest_timestamp + get_or (sort_by ltb deltas) index2 0
  let delta_index = if ltb index1 index2 then index2 - index1 else 1
  let timestamp_span = if ltb timestamp1 timestamp2 then timestamp2 - timestamp1 else 0
  let delta_t = max timestamp_span delta_index
  scaled_difficulty (work_range timestamp1 timestamp2 none samples) target delta_t effective_minimum
      network

unfoldable pub calculate_next_sidechain_difficulty :
    List SidechainDifficultySample → ℕ → ℕ → ℕ → Bytes → Result Bytes
calculate_next_sidechain_difficulty history target_share_seconds minimum_share_difficulty
      difficulty_window_shares network_difficulty =
    do
      throw_if
          ((target_share_seconds == 0)
            || ((minimum_share_difficulty == 0) || ltb difficulty_window_shares 2))
          invalid_argument
      throw_if (difficulty128_is_zero network_difficulty) invalid_argument
      let network = value network_difficulty
      let effective_minimum = min minimum_share_difficulty network
      let samples = take difficulty_window_shares history
      elim history [
        | [] ↦ int_to_difficulty128 effective_minimum
        | _ ↦ retarget (length samples) samples target_share_seconds effective_minimum network
      ]
