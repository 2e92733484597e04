-- ===== src/Stratum.antt =====
-- The Stratum side of a node: Session holds the sessions of the miners and the published template,
-- Issuing the jobs that they are given, Submission what becomes of the nonces they send.
pub mod Session
pub mod Issuing
pub mod Submission
