-- ===== src/SecOc.antt =====
-- subProj 12 SecOC Mock: secure onboard communication.
pub mod Crypto
pub mod Nodes
pub mod Encoding
pub mod Acceptance
pub mod Replay
pub mod Forgery
pub mod Senders
mod Tests
