-- ===== src/P2p/Capability.antt =====
-- The capability bits of include/zano_p2pool/p2p_protocol.hpp.
use Prim.Native.Nat.{bit_and}
use zano_p2pool.Prelude.{ℕ, Bool, ◌==◌}

abbrev pub share_gossip : ℕ
share_gossip = 1

abbrev pub share_sync : ℕ
share_sync = 2

abbrev pub mining_context : ℕ
mining_context = 4

abbrev pub work_retrieval : ℕ
work_retrieval = 8

-- `(capabilities & required) == required`
abbrev pub has_all : ℕ → ℕ → Bool
has_all capabilities required = bit_and capabilities required == required

-- `(capabilities & bit) == 0`
abbrev pub lacks : ℕ → ℕ → Bool
lacks capabilities bit = bit_and capabilities bit == 0
