-- ===== src/Reward/Exact.antt =====
-- The sum of the amounts of the payouts.
use zano_p2pool.Prelude.{
  ℕ, zero, suc, ◌+◌, ◌-◌, ◌*◌, ◌/◌, ◌%◌, ◌^◌, ◌<◌, ◌≤◌, ◌≡◌, refl, sym, subst, false, List, [], ◌∷◌,
  All, ok, arith, length, length-take, All-take, take, ◌==◌, le→ltb,
}
use zano_p2pool.Bytes.{to_bytes}
use zano_p2pool.OrderedMap.Sorted.{sum_of}
use zano_p2pool.Sorting.{sort_by}
use zano_p2pool.Sorting.Laws.{length-sort_by, All-sort_by}
use zano_p2pool.Pplns.{PplnsPayout, PplnsWindow, Credited, int_to_work}
use zano_p2pool.Reward.{
  aggregate_rows, allocate_pplns_reward, FractionalRow, Shared, share_out, add_one, add_ones,
  larger_remainder, distribute, total_credited,
}
use zano_p2pool.Reward.Quotas.{quota-upper, quota-fits, quota-lower, leftover-le}

unfoldable pub total_amount : List PplnsPayout → ℕ
total_amount [] = 0
total_amount (p ∷ payouts) = p.amount + total_amount payouts

add_one-sum :
    (i : ℕ) (payouts : List PplnsPayout)
    → i < length payouts
    → (total_amount (add_one i payouts) ≡ total_amount payouts + 1)
      × (length (add_one i payouts) ≡ length payouts)
unfolding add_one total_amount
add_one-sum i [] h = absurd (omega arith)
add_one-sum zero (p ∷ payouts) h = (omega arith, refl)
add_one-sum (suc i) (p ∷ payouts) h =
    let (s, l) = add_one-sum i payouts (omega arith) in (omega (arith, s), omega (arith, l))

add_ones-sum :
    (fractional : List FractionalRow) (payouts : List PplnsPayout)
    → All (λ f. f.payout_index < length payouts) fractional
    → total_amount (add_ones fractional payouts) ≡ total_amount payouts + length fractional
unfolding add_ones
add_ones-sum [] payouts h = omega arith
add_ones-sum (f ∷ fractional) payouts (here, there) =
    let (s, l) = add_one-sum f.payout_index payouts here in
    omega (
      arith,
      s,
      add_ones-sum fractional (add_one f.payout_index payouts)
          (subst (λ n. All (λ g. g.payout_index < n) fractional) (sym l) there),
    )

int_to_work-fits : (n : ℕ) → n < 2 ^ 256 → int_to_work n ≡ ok (to_bytes 32 n)
unfolding int_to_work
int_to_work-fits n h = ground (arith, h)

==_of_pos : (n : ℕ) → 0 < n → (n == 0) ≡ false
==_of_pos n p = ground arith

-- What the loop over the rows returns.
record IsShared (reward total index allocated : ℕ) (credited : Credited) (s : Shared) : Type 0 where
  fits : s.allocated ≤ reward
  handed_out : s.allocated ≡ allocated + total_amount s.payouts
  same_length : length s.fractional ≡ length s.payouts
  indexes : All (λ f. f.payout_index < index + length s.payouts) s.fractional
  enough :
      total * allocated + reward * total_credited credited
      ≤ total * s.allocated + total * length s.fractional

All-index :
    (a b : ℕ) (fractional : List FractionalRow)
    → a ≡ b
    → All (λ f. f.payout_index < a) fractional
    → All (λ f. f.payout_index < b) fractional
All-index a b fractional e = subst (λ n. All (λ f. f.payout_index < n) fractional) e

share_out-total :
    (reward total index allocated : ℕ) (credited : Credited)
    → 0 < total
    → total * allocated + reward * total_credited credited ≤ reward * total
    → total_credited credited < 2 ^ 256
    → (s : Shared) × (share_out reward total index allocated credited ≡ ok s)
      × IsShared reward total index allocated credited s
unfolding share_out total_credited sum_of total_amount
share_out-total reward total index allocated [] p h small = (
  record { payouts = []; fractional = []; allocated = allocated },
  refl,
  record {
    fits = omega (arith, leftover-le allocated total reward 0 p (omega arith));
    handed_out = omega arith;
    same_length = refl;
    indexes = tt;
    enough = omega arith;
  },
)
share_out-total reward total index allocated ((id, row) ∷ rest) p h small =
    let amount = (reward * row.work) / total in
    let fits = quota-fits reward row.work total allocated (total_credited rest) h p in
    let (others, e, ih) =
      share_out-total reward total (index + 1) (allocated + amount) rest p
        (quota-upper reward row.work total allocated (total_credited rest) h p) (omega arith) in
    (
      record {
        payouts =
            record {
              miner_id = id;
              work = to_bytes 32 row.work;
              amount = amount;
              payout = row.payout;
            }
            ∷ others.payouts;
        fractional =
            record { miner_id = id; remainder = (reward * row.work) % total; payout_index = index }
            ∷ others.fractional;
        allocated = others.allocated;
      },
      rw (
        le→ltb amount (reward - allocated) (omega (arith, fits)),
        int_to_work-fits row.work (omega arith),
        e,
      ),
      record {
        fits = ih.fits;
        handed_out = omega (arith, ih.handed_out);
        same_length = omega (arith, ih.same_length);
        indexes = (
          omega arith,
          All-index (index + 1 + length others.payouts) (index + suc (length others.payouts))
              others.fractional (omega arith) ih.indexes,
        );
        enough = omega (
          arith,
          quota-lower reward row.work total allocated (total_credited rest) others.allocated
              (length others.fractional) ih.enough p,
        );
      },
    )

-- The rounded shares and the handed-out units are the reward, exactly.
pub distribute-exact :
    (credited : Credited) (reward : ℕ)
    → 0 < total_credited credited
    → total_credited credited < 2 ^ 256
    → (payouts : List PplnsPayout) × (distribute credited reward ≡ ok payouts)
      × (total_amount payouts ≡ reward)
unfolding distribute
distribute-exact credited reward p small =
    let total = total_credited credited in
    let (s, e, shared) = share_out-total reward total 0 0 credited p (omega arith) small in
    let leftover = reward - s.allocated in
    let enough =
      leftover-le reward total s.allocated (length s.fractional) p (omega (arith, shared.enough)) in
    let chosen = take leftover (sort_by larger_remainder s.fractional) in
    let indexes =
      All-take (λ f. f.payout_index < length s.payouts) leftover
        (sort_by larger_remainder s.fractional)
        (All-sort_by larger_remainder (λ f. f.payout_index < length s.payouts) s.fractional
          (All-index (0 + length s.payouts) (length s.payouts) s.fractional (omega arith)
            shared.indexes)) in
    (
      add_ones chosen s.payouts,
      rw (==_of_pos total p, e, le→ltb leftover (length s.fractional) (omega (arith, enough))),
      omega (
        arith,
        add_ones-sum chosen s.payouts indexes,
        length-take leftover (sort_by larger_remainder s.fractional),
        length-sort_by larger_remainder s.fractional,
        shared.handed_out,
        shared.fits,
        enough,
      ),
    )

-- If the rows of a window aggregate to credited rows with positive total work below 2 ^ 256,
-- `allocate_pplns_reward` returns payouts, and their amounts add up to the reward exactly.
pub allocate-exact :
    (window : PplnsWindow) (reward : ℕ) (credited : Credited)
    → aggregate_rows [] window.miners ≡ ok credited
    → 0 < total_credited credited
    → total_credited credited < 2 ^ 256
    → (payouts : List PplnsPayout) × (allocate_pplns_reward window reward ≡ ok payouts)
      × (total_amount payouts ≡ reward)
unfolding allocate_pplns_reward total_credited sum_of
allocate-exact window reward [] h p small = absurd (omega arith)
allocate-exact window reward (row ∷ rows) h p small =
    let (payouts, e, exact) = distribute-exact (row ∷ rows) reward p small in
    (payouts, rw (h, e), exact)
