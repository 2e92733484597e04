-- ===== src/Platform.antt =====
-- What the program takes from outside its repository: the ethash/ProgPoWZ implementation of the
-- Zano source tree, whether the build has it, and the decimal printer of the number library.
use zano_p2pool.Prelude.{ℕ, Bool}
use zano_p2pool.Bytes.{Bytes}
use zano_p2pool.Decimal.{Printer}

pub record ProgPowZResult : Type 0 where
  pub final_hash : Bytes
  pub mix_hash : Bytes

pub data ProgPowZContextMode : Type 0 where
  light full : ProgPowZContextMode

pub record Platform : Type 0 where
  pub printer : Printer
  -- The macro ZANO_P2POOL_HAVE_PROGPOWZ.
  pub have_progpowz : Bool
  -- Whether `ethash::get_global_epoch_context_full` returns a context for the epoch.
  pub epoch_context_full : ℕ → Bool
  -- `progpow::hash` in an epoch's light or full context: block number, header hash, nonce.
  pub progpow_hash : ProgPowZContextMode → ℕ → ℕ → Bytes → ℕ → ProgPowZResult
