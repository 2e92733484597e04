-- ===== src/SidechainDifficulty/Samples.antt =====
-- The timestamps of the samples, and the band of samples that is kept.
use zano_p2pool.Prelude.{
  ℕ, ◌+◌, ◌-◌, ◌≤◌, ◌<◌, ◌≡◌, refl, ◌||◌, ◌⊎◌, inl, inr, Bool-cases, min, Option, none, some, List,
  [], ◌∷◌, map, All, ok, arith, ltb, get_or, length,
}
use zano_p2pool.Sorting.{sort_by}
use zano_p2pool.Sorting.Laws.{All-sort_by, All-get_or, length-sort_by}
use zano_p2pool.SidechainDifficulty.{
  SidechainDifficultySample, oldest_from, timestamp_deltas, work_range, max32,
}

abbrev pub Samples : Type 0
Samples = List SidechainDifficultySample

-- Some sample carries the timestamp.
abbrev pub HasTimestamp : Samples → ℕ → Type 0
HasTimestamp [] t = ⊥
HasTimestamp (s ∷ ss) t = (s.timestamp ≡ t) ⊎ HasTimestamp ss t

oldest_from-le : (o : ℕ) (ss : Samples) → oldest_from o ss ≤ o
unfolding oldest_from
oldest_from-le o [] = omega arith
oldest_from-le o (s ∷ ss) = omega (arith, oldest_from-le (min o s.timestamp) ss)

pub oldest_from-le-All : (o : ℕ) (ss : Samples) → All (λ s. oldest_from o ss ≤ s.timestamp) ss
unfolding oldest_from
oldest_from-le-All o [] = tt
oldest_from-le-All o (s ∷ ss) = (
  omega (arith, oldest_from-le (min o s.timestamp) ss),
  oldest_from-le-All (min o s.timestamp) ss,
)

-- The timestamps of the samples span less than 2 ^ 32 seconds.
abbrev pub Spans32 : ℕ → Samples → Type 0
Spans32 oldest = All (λ s. s.timestamp - oldest ≤ max32)

abbrev pub deltas_of : ℕ → Samples → List ℕ
deltas_of oldest = map (λ s. s.timestamp - oldest)

pub timestamp_deltas_lem :
    (oldest : ℕ) (ss : Samples)
    → Spans32 oldest ss
    → timestamp_deltas oldest ss ≡ ok (deltas_of oldest ss)
unfolding timestamp_deltas
timestamp_deltas_lem oldest [] h = refl
timestamp_deltas_lem oldest (s ∷ ss) h = ground (arith, timestamp_deltas_lem oldest ss h.1)

-- Every distance belongs to a sample.
HasTimestamp-deltas :
    (oldest : ℕ) (ss : Samples)
    → All (λ s. oldest ≤ s.timestamp) ss
    → (all : Samples) → ((t : ℕ) → HasTimestamp ss t → HasTimestamp all t)
    → All (λ d. HasTimestamp all (oldest + d)) (deltas_of oldest ss)
HasTimestamp-deltas oldest [] h all f = tt
HasTimestamp-deltas oldest (s ∷ ss) h all f = (
  f (oldest + (s.timestamp - oldest)) (inl (omega arith)),
  HasTimestamp-deltas oldest ss h.1 all (λ t k. f t (inr k)),
)

pub length-deltas_of : (oldest : ℕ) (ss : Samples) → length (deltas_of oldest ss) ≡ length ss
length-deltas_of oldest [] = refl
length-deltas_of oldest (s ∷ ss) = omega (arith, length-deltas_of oldest ss)

-- The timestamp at an index of the sorted distances is that of a sample.
pub HasTimestamp-index :
    (oldest : ℕ) (ss : Samples) (i : ℕ)
    → All (λ s. oldest ≤ s.timestamp) ss
    → i < length ss
    → HasTimestamp ss (oldest + get_or (sort_by ltb (deltas_of oldest ss)) i 0)
HasTimestamp-index oldest ss i h k =
    All-get_or (λ d. HasTimestamp ss (oldest + d)) (sort_by ltb (deltas_of oldest ss)) i
      (All-sort_by ltb (λ d. HasTimestamp ss (oldest + d)) (deltas_of oldest ss)
        (HasTimestamp-deltas oldest ss h ss (λ t x. x)))
      (omega (arith, length-sort_by ltb (deltas_of oldest ss), length-deltas_of oldest ss))

abbrev pub IsRange : Option (ℕ × ℕ) → Type 0
IsRange r = (low : ℕ) × (high : ℕ) × (r ≡ some (low, high))

work_range-some :
    (t1 t2 : ℕ) (ss : Samples) (low high : ℕ) → IsRange (work_range t1 t2 (some (low, high)) ss)
unfolding work_range
work_range-some t1 t2 [] low high = (low, high, refl)
work_range-some t1 t2 (s ∷ ss) low high =
    elim (Bool-cases (ltb s.timestamp t1 || ltb t2 s.timestamp)) [
      | inl e ↦ rw e (work_range-some t1 t2 ss low high)
      | inr e ↦ rw e (work_range-some t1 t2 ss _ _)
    ]

-- A sample inside the band is found.
pub work_range_found :
    (t1 t2 t : ℕ) (ss : Samples)
    → t1 ≤ t
    → t ≤ t2
    → HasTimestamp ss t
    → IsRange (work_range t1 t2 none ss)
unfolding work_range
work_range_found t1 t2 t [] h k f = absurd f
work_range_found t1 t2 t (s ∷ ss) h k f =
    elim (Bool-cases (ltb s.timestamp t1 || ltb t2 s.timestamp)) [
      | inl e ↦ rw e (elim f [
        | inl here ↦ absurd (ground arith)
        | inr there ↦ work_range_found t1 t2 t ss h k there
      ])
      | inr e ↦ rw e (work_range-some t1 t2 ss _ _)
    ]
