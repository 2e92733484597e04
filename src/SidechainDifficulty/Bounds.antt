-- ===== src/SidechainDifficulty/Bounds.antt =====
-- The range of the retargeted difficulty.
use zano_p2pool.Prelude.{
  ℕ, ◌+◌, ◌-◌, ◌*◌, ◌/◌, ◌^◌, ◌≤◌, ◌<◌, ◌≡◌, refl, ◌||◌, min, max, Option, none, [], ◌∷◌, ok, arith,
  ltb, get_or, length, ◌==◌, Result, false, take, length-take,
}
use zano_p2pool.Bytes.{Bytes, IsArray, fill, value}
use zano_p2pool.Bytes.Value.{fill_rest, to_bytes-IsArray, value-to_bytes}
use zano_p2pool.Share.{difficulty128_is_zero}
use zano_p2pool.Share.Difficulty.{value-pos, value-lt_of_array}
use zano_p2pool.Sorting.{sort_by}
use zano_p2pool.Sorting.Laws.{get_or-IsAscending, sort_by-IsAscending, length-sort_by}
use zano_p2pool.SidechainDifficulty.{
  int_to_difficulty128, oldest_from, work_range, scaled_difficulty, cut_size, retarget,
  calculate_next_sidechain_difficulty, max64,
}
use zano_p2pool.SidechainDifficulty.Samples.{
  Samples, Spans32, HasTimestamp-index, timestamp_deltas_lem, work_range_found, oldest_from-le-All,
  IsRange, deltas_of, length-deltas_of,
}

-- A difficulty of 128 bits between two numbers.
abbrev pub Within : ℕ → ℕ → Result Bytes → Type 0
Within low high r = (d : Bytes) × (r ≡ ok d) × IsArray 16 d × (low ≤ value d) × (value d ≤ high)

int_to_difficulty128_lem : (v : ℕ) → 0 < v → v < 2 ^ 128 → Within v v (int_to_difficulty128 v)
unfolding int_to_difficulty128
int_to_difficulty128_lem v p h =
    let e = value-to_bytes 16 v h in
    (
      (fill 16 v []).0,
      ground (arith, fill_rest 16 v [] h),
      to_bytes-IsArray 16 v,
      omega arith,
      omega arith,
    )

Within-mono :
    (a b low high : ℕ) (r : Result Bytes) → low ≤ a → b ≤ high → Within a b r → Within low high r
Within-mono a b low high r h k (d, e, s, l, u) = (d, e, s, omega arith, omega arith)

scaled_Within :
    (range : Option (ℕ × ℕ)) (target delta_t low high : ℕ)
    → IsRange range
    → 0 < low
    → low ≤ high
    → high < 2 ^ 128
    → Within low high (scaled_difficulty range target delta_t low high)
unfolding scaled_difficulty
scaled_Within range target delta_t low high (x, y, e) p h k =
    let v = min (max ((y - x) * target / delta_t) low) high in
    rw e (
      Within-mono v v low high _ (omega arith) (omega arith)
        (int_to_difficulty128_lem v (omega arith) (omega arith)))

retarget-Within :
    (n : ℕ) (ss : Samples) (target low high : ℕ)
    → n ≡ length ss
    → 0 < n
    → Spans32 (oldest_from max64 ss) ss
    → 0 < low
    → low ≤ high
    → high < 2 ^ 128
    → Within low high (retarget n ss target low high)
unfolding retarget
retarget-Within n ss target low high e p spans q h k =
    let oldest = oldest_from max64 ss in
    let deltas = deltas_of oldest ss in
    let i1 = cut_size n - 1 in
    let i2 = n - cut_size n in
    let t1 = oldest + get_or (sort_by ltb deltas) i1 0 in
    let t2 = oldest + get_or (sort_by ltb deltas) i2 0 in
    let order =
      get_or-IsAscending 0 (sort_by ltb deltas) i1 i2 (sort_by-IsAscending deltas) (omega arith)
        (omega (arith, length-sort_by ltb deltas, length-deltas_of oldest ss)) in
    rw (timestamp_deltas_lem oldest ss spans) (
      scaled_Within (work_range t1 t2 none ss) target _ low high
        (work_range_found t1 t2 t1 ss (omega arith) (omega (arith, order.1))
          (HasTimestamp-index oldest ss i1 (oldest_from-le-All max64 ss) (omega arith)))
        q h k)

admissible :
    (target minimum window : ℕ)
    → 0 < target
    → 0 < minimum
    → 2 ≤ window
    → ((target == 0) || ((minimum == 0) || ltb window 2)) ≡ false
admissible target minimum window t m w = ground arith

-- For a positive target time, a positive minimum, a window of at least two shares, a nonzero
-- network difficulty of 16 bytes and timestamps less than 2 ^ 32 seconds past the oldest, the
-- next share difficulty is computed without an exception, and lies between the smaller of
-- minimum and network difficulty, and the network difficulty.
pub calculate_Within :
    (history : Samples) (target minimum window : ℕ) (network : Bytes)
    → 0 < target
    → 0 < minimum
    → 2 ≤ window
    → IsArray 16 network
    → difficulty128_is_zero network ≡ false
    → Spans32 (oldest_from max64 (take window history)) (take window history)
    → Within
        (min minimum (value network))
        (value network)
        (calculate_next_sidechain_difficulty history target minimum window network)
unfolding calculate_next_sidechain_difficulty
calculate_Within [] target minimum window network t m w a z spans =
    let v = min minimum (value network) in
    let big = value-lt_of_array 16 network a in
    let pos = value-pos network z in
    rw (admissible target minimum window t m w, z)
      (Within-mono v v v (value network) _ (omega arith) (omega arith)
        (int_to_difficulty128_lem v (omega arith) (omega arith)))
calculate_Within (s ∷ ss) target minimum window network t m w a z spans =
    let samples = take window (s ∷ ss) in
    let big = value-lt_of_array 16 network a in
    let pos = value-pos network z in
    rw (admissible target minimum window t m w, z)
      (retarget-Within (length samples) samples target (min minimum (value network)) (value network)
        refl (omega (arith, length-take window (s ∷ ss))) spans (omega arith) (omega arith)
        (omega arith))
