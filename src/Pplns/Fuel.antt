-- ===== src/Pplns/Fuel.antt =====
-- The fuel of the walk over the payout window.
use zano_p2pool.Prelude.{
  ℕ, zero, suc, ◌≤◌, ◌≡◌, Bool-cases, Result-cases, inl, inr, ◌||◌, some, arith, ◌==◌,
}
use zano_p2pool.Bytes.{Bytes}
use zano_p2pool.OrderedMap.{bytes_key, find}
use zano_p2pool.Share.{is_zero_share_id}
use zano_p2pool.Chain.{ShareChain, ConnectedShare, branch_fuel}
use zano_p2pool.Chain.Invariant.{IsValid}
use zano_p2pool.Chain.Ancestry.{parent_of_connected}
use zano_p2pool.Pplns.{Walk, include_share, walk_window}

-- In a valid chain, the walk over the payout window from a connected share gives the same with
-- every fuel above the height of the share.
pub walk_window-enough :
    (fuel more : ℕ) (chain : ShareChain) (own : Bytes) (current : ConnectedShare) (s : Walk)
    → IsValid chain
    → find own chain.connected ≡ some current
    → branch_fuel (some current) ≤ fuel
    → branch_fuel (some current) ≤ more
    → walk_window fuel chain current s ≡ walk_window more chain current s
unfolding walk_window
walk_window-enough zero more chain own current s v here a b = absurd (omega arith)
walk_window-enough (suc fuel) zero chain own current s v here a b = absurd (omega arith)
walk_window-enough (suc fuel) (suc more) chain own current s v here a b =
    elim (Result-cases (include_share chain current s)) [
      | inr (x, e) ↦ rw (walk_window, e)
      | inl (s1, e) ↦
          elim (Bool-cases ((s1.remaining == 0) || is_zero_share_id current.share.parent_id)) [
            | inl stop ↦ rw (walk_window, e, stop)
            | inr go ↦
                let (parent, there, lower) =
                  parent_of_connected chain own current v here (ground (arith, go)) in
                rw (
                  walk_window,
                  e,
                  go,
                  there,
                  walk_window-enough fuel more chain current.share.parent_id parent s1 v there
                      (omega arith) (omega arith),
                )
          ]
    ]
