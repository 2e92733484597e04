-- ===== src/P2p.antt =====
-- The peer-to-peer messages of a node: Protocol holds the envelope and the handshake, Tip the
-- announcements of the best tip, Registry the trusted work contexts, Receiver the admission of
-- shares from peers, and Sync the requests for shares and the answers.
pub mod MessageType
pub mod Capability
pub mod Protocol
pub mod Framing
pub mod Greeting
pub mod Tip
pub mod WorkKey
pub mod Registry
pub mod Receiver
pub mod Sync
