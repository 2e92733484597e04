-- ===== src/P2p/MessageType.antt =====
-- `P2pMessageType` of include/zano_p2pool/p2p_protocol.hpp: a byte, of which these are supported.
use zano_p2pool.Prelude.{ℕ, Bool, ◌||◌, ◌==◌}

abbrev pub handshake : ℕ
handshake = 1

abbrev pub share_announce : ℕ
share_announce = 2

abbrev pub share_request : ℕ
share_request = 3

abbrev pub share_response : ℕ
share_response = 4

abbrev pub tip_announce : ℕ
tip_announce = 5

abbrev pub mining_context_announce : ℕ
mining_context_announce = 6

abbrev pub mining_work_request : ℕ
mining_work_request = 7

abbrev pub mining_work_response : ℕ
mining_work_response = 8

unfoldable pub p2p_message_type_supported : ℕ → Bool
p2p_message_type_supported value =
    (value == handshake)
    || (value == share_announce)
    || (value == share_request)
    || (value == share_response)
    || (value == tip_announce)
    || (value == mining_context_announce)
    || (value == mining_work_request)
    || (value == mining_work_response)
