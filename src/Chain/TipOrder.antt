-- ===== src/Chain/TipOrder.antt =====
-- The order of `better_tip` of src/share_chain.cpp.
use zano_p2pool.Prelude.{◌≡◌, true, false, arith}
use zano_p2pool.Bytes.Order.{
  same_iff, same_refl, before_irrefl, before_trans, before_total, before_asymm,
}
use zano_p2pool.Chain.{ConnectedShare, better_tip}

-- No connected share is a better tip than itself.
pub better_tip_irrefl : (a : ConnectedShare) → better_tip a a ≡ false
unfolding better_tip
better_tip_irrefl a = ground (arith, same_refl a.cumulative_work, before_irrefl a.id)

-- A tip that is better than a second, which is better than a third, is better than the third.
pub better_tip_trans :
    (a b c : ConnectedShare) → better_tip a b ≡ true → better_tip b c ≡ true → better_tip a c ≡ true
unfolding better_tip
better_tip_trans a b c h k = ground (
  arith,
  same_iff a.cumulative_work b.cumulative_work,
  same_iff b.cumulative_work c.cumulative_work,
  same_iff a.cumulative_work c.cumulative_work,
  before_trans c.cumulative_work b.cumulative_work a.cumulative_work,
  before_asymm c.cumulative_work b.cumulative_work,
  before_asymm b.cumulative_work a.cumulative_work,
  before_irrefl a.cumulative_work,
  before_trans a.id b.id c.id,
)

-- Two connected shares of which neither is the better tip have the same id.
pub better_tip_total :
    (a b : ConnectedShare) → better_tip a b ≡ false → better_tip b a ≡ false → a.id ≡ b.id
unfolding better_tip
better_tip_total a b h k = ground (
  arith,
  same_iff a.cumulative_work b.cumulative_work,
  same_iff b.cumulative_work a.cumulative_work,
  before_total a.cumulative_work b.cumulative_work,
  before_total a.id b.id,
)
