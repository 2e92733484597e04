-- ===== src/Tests.antt =====
-- Concrete inputs on which the theorems are applied, by part of the program.
pub mod Printing
pub mod Samples
pub mod ChainTests
pub mod HashTests
pub mod PeerTests
pub mod ReplayTests
pub mod P2pTests
pub mod FuelTests
pub mod PayoutTests
pub mod ShareTests
pub mod StratumTests
