-- ===== src/Lib.antt =====
-- zano-p2pool is a decentralised mining pool for Zano. Its nodes keep a chain of shares, proofs of
-- work below the difficulty of a block, and pay every block's reward to the miners of the newest
-- shares. This library models the core of a node: what a share is, when the share chain takes it,
-- and what the miners are paid for it.
--
-- Bytes, Prelude, OrderedMap and Sorting hold what the parts share: byte arrays with their
-- big-endian value and order, exceptions as results, std::map as a list sorted by key, std::sort.
--   Hash                 src/crypto_hash.cpp: Keccak-f[1600] and cn_fast_hash
--   Decimal, Target      src/pow_target.cpp: difficulties as text, targets, the hash test
--   Share                src/share.cpp, include/zano_p2pool/share.hpp: the wire format and the id
--   Work                 src/share_chain.cpp: share_work, add_chain_work_checked, chain_work_hex
--   SidechainDifficulty  include/zano_p2pool/sidechain_difficulty.hpp: the expected difficulty
--   Params               include/zano_p2pool/sidechain_params.hpp: the consensus parameters
--   Validation           src/progpowz.cpp, src/share_validation.cpp: the proof of work of a candidate
--   Chain                include/zano_p2pool/share_chain.hpp and src/share_chain.cpp: Rules holds
--                        the reject reasons, Connect the admission of shares and orphans, Submit
--                        the entry points submit_share and revalidate_connected_share,
--                        Replay and Snapshot the validation state that is put back and written
--                        out, Prune the removal of a share with all above it
--   Pplns, Reward        src/pplns.cpp: the payout window and allocate_pplns_reward
--   Coinbase             src/pplns_coinbase.cpp: the outputs of the coinbase transaction
--   PeerScore            include/zano_p2pool/p2p_peer_score.hpp: peer scores and bans
--   Backoff              include/zano_p2pool/rpc_backoff.hpp: the delays between attempts
--   P2p                  src/p2p_protocol.cpp, src/p2p_tip.cpp, src/p2p_share.cpp,
--                        src/p2p_sync.cpp: messages between nodes, the registry of trusted work
--                        (Registry), the receiver of shares (Receiver), requests (Sync)
--   Stratum              src/stratum_session.cpp, src/stratum_submission.cpp: the sessions of the
--                        miners (Session), their jobs (Issuing), their nonces (Submission)
--   Platform             what comes from outside: the ProgPoWZ hash and the number printer
--   Tests                concrete inputs
--
-- A submitted share passes Rules, is hashed by the platform (Validation over Target and Decimal),
-- and is added by Connect, which sums its work (Work), chooses the tip and takes in the orphans
-- that waited for it. Pplns walks the chain from a tip and credits the miners, Reward splits the
-- reward over the credits, and Coinbase turns the payouts and the operator's fee into outputs.
--
-- A node takes a share from a peer only through Chain.Submit, with the work that its own registry
-- holds for the height, the header and the parent of the share. A nonce from a miner becomes a share
-- of the job that its session was given, and goes to the chain through Chain.Submit too.
--
-- A method that changes the chain takes the chain and returns the result with the new chain; a
-- thrown exception is the throws of Result, by its C++ class. Integers are natural numbers with the
-- guards of the source written out. The walks to the parent, over the best chain and over the payout
-- window, have the height of the first share and one as fuel, since heights fall by one with each
-- step; the promotion of orphans has the number of parents that orphans wait for, of which each call
-- removes one; the removal of a share has a power, since a level has at most as many children as
-- there are shares; see Chain.Ancestry, Pplns.Fuel, Chain.Fuel and Chain.Prune.Weight.
--
-- Not modelled: the files of the share store, the sockets and the timers of the peer-to-peer
-- network, the sockets and the JSON text of the Stratum server, the decoder of addresses, block
-- templates, curve arithmetic.
pub mod Prelude
pub mod Bytes
pub mod OrderedMap
pub mod Hash
pub mod Decimal
pub mod Target
pub mod Share
pub mod Sorting
pub mod SidechainDifficulty
pub mod Work
pub mod Params
pub mod Platform
pub mod Validation
pub mod Chain
pub mod Pplns
pub mod Reward
pub mod Coinbase
pub mod Tests
pub mod PeerScore
pub mod Backoff
pub mod P2p
pub mod Stratum
