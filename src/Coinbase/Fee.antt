-- ===== src/Coinbase/Fee.antt =====
-- The fee of src/pplns_coinbase.cpp, without the detour that avoids overflow.
use zano_p2pool.Prelude.{
  ℕ, ◌+◌, ◌-◌, ◌*◌, ◌/◌, ◌%◌, ◌^◌, ◌<◌, ◌≤◌, ◌≡◌, some, arith, ap, inl, inr, Bool-cases, false, ltb,
  ◌==◌, lt→ltb, le→ltb,
}
use zano_p2pool.SidechainDifficulty.{max64}
use zano_p2pool.Coinbase.{calculate_basis_point_share}

split_product :
    (amount basis_points : ℕ)
    → amount * basis_points
      ≡ 10000 * ((amount / 10000) * basis_points) + (amount % 10000) * basis_points
split_product amount basis_points =
    let parts : amount ≡ 10000 * (amount / 10000) + amount % 10000 = omega arith in
    omega (arith, ap (λ n. n * basis_points) parts)

le-div : (w b m : ℕ) → w * b ≤ m → 0 < b → w ≤ m / b
le-div w b m h p = grind arith

times_small : (n b : ℕ) → b < 10000 → n * b ≤ n * 10000
times_small n b h = grind arith

-- For a 64-bit amount and fewer than 10000 basis points, the fee computation succeeds and gives
-- the amount times the basis points over 10000, rounded down.
pub calculate_basis_point_share-floor :
    (amount basis_points : ℕ)
    → amount < 2 ^ 64
    → basis_points < 10000
    → calculate_basis_point_share amount basis_points ≡ some ((amount * basis_points) / 10000)
unfolding calculate_basis_point_share
calculate_basis_point_share-floor amount basis_points h b =
    let whole = times_small (amount / 10000) basis_points b in
    let remainder = times_small (amount % 10000) basis_points b in
    let product = split_product amount basis_points in
    let exact : (amount / 10000) * basis_points + ((amount % 10000) * basis_points) / 10000
        ≡ (amount * basis_points) / 10000 =
      omega (arith, product) in
    let fits : ltb (max64 - (amount / 10000) * basis_points)
          (((amount % 10000) * basis_points) / 10000)
        ≡ false =
      le→ltb (((amount % 10000) * basis_points) / 10000) (max64 - (amount / 10000) * basis_points)
        (omega (arith, whole, remainder)) in
    elim (Bool-cases (basis_points == 0)) [
      | inl zero ↦ rw (lt→ltb basis_points 10000 b, zero, fits, exact)
      | inr nonzero ↦ rw (
        lt→ltb basis_points 10000 b,
        nonzero,
        le→ltb (amount / 10000) (max64 / basis_points)
            (le-div (amount / 10000) basis_points max64 (omega (arith, whole)) (ground arith)),
        fits,
        exact,
      )
    ]
