-- ===== src/Backoff/Delays.antt =====
-- The delays after repeated failures.
use zano_p2pool.Prelude.{ℕ, zero, suc, ◌*◌, ◌^◌, ◌≤◌, ◌≡◌, refl, ◌∙◌, arith}
use zano_p2pool.Pplns.{min}
use zano_p2pool.Backoff.{RpcRetryBackoff, record_failure, next_delay}

-- The state after this many failures in a row.
unfoldable pub after_failures : ℕ → RpcRetryBackoff → RpcRetryBackoff
after_failures zero b = b
after_failures (suc n) b = (record_failure (after_failures n b)).1

record_failure-doubles :
    (b : RpcRetryBackoff)
    → b.next ≤ b.maximum
    → (record_failure b).1.next ≡ min (b.next * 2) b.maximum
unfolding record_failure
record_failure-doubles b h = ground arith

record_failure-maximum : (b : RpcRetryBackoff) → (record_failure b).1.maximum ≡ b.maximum
unfolding record_failure
record_failure-maximum b = ground arith

after_failures-maximum : (n : ℕ) (b : RpcRetryBackoff) → (after_failures n b).maximum ≡ b.maximum
unfolding after_failures
after_failures-maximum zero b = refl
after_failures-maximum (suc n) b =
    record_failure-maximum (after_failures n b) ∙ after_failures-maximum n b

double_power : (a n : ℕ) → a * 2 ^ suc n ≡ (a * 2 ^ n) * 2
double_power a n = grind arith

-- If the next delay is at most the maximum, then after any number of failures in a row it is the
-- smaller of the maximum and the delay doubled as many times.
pub after_failures-delay :
    (n : ℕ) (b : RpcRetryBackoff)
    → b.next ≤ b.maximum
    → next_delay (after_failures n b) ≡ min (b.next * 2 ^ n) b.maximum
unfolding after_failures next_delay
after_failures-delay zero b h = ground arith
after_failures-delay (suc n) b h =
    let m = after_failures-maximum n b in
    let ih = after_failures-delay n b h in
    let bounded : (after_failures n b).next ≤ (after_failures n b).maximum =
      ground (arith, m, ih) in
    let doubled = record_failure-doubles (after_failures n b) bounded in
    ground (arith, m, ih, doubled, double_power b.next n)
