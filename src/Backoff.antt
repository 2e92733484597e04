-- ===== src/Backoff.antt =====
-- include/zano_p2pool/rpc_backoff.hpp: the delay before the next attempt to reach the daemon.
-- Delays are counts of milliseconds.
pub mod Delays
use zano_p2pool.Prelude.{
  ℕ, ◌*◌, ◌/◌, ◌>>=◌, ◌>>◌, Result, ok, throw_if, invalid_argument, if◌then◌else◌, ltb, ◌==◌,
}
use zano_p2pool.Pplns.{min}

pub record RpcRetryBackoff : Type 0 where
  pub initial : ℕ
  pub maximum : ℕ
  pub next : ℕ

unfoldable pub new_backoff : ℕ → ℕ → Result RpcRetryBackoff
new_backoff initial maximum = do
  throw_if (initial == 0) invalid_argument
  throw_if (ltb maximum initial) invalid_argument
  ok (record { initial = initial; maximum = maximum; next = initial })

-- The delay, and the state with the next one.
unfoldable pub record_failure : RpcRetryBackoff → ℕ × RpcRetryBackoff
record_failure b = (
  b.next,
  (if ltb b.next b.maximum
      then (record b {
        next = if ltb (b.maximum / 2) b.next then b.maximum else min (b.next * 2) b.maximum;
      })
      else b),
)

unfoldable pub record_success : RpcRetryBackoff → RpcRetryBackoff
record_success b = record b { next = b.initial }

unfoldable pub next_delay : RpcRetryBackoff → ℕ
next_delay b = b.next
