-- ===== src/Peer.antt =====
-- The peer layer, src/peer.
pub mod Manager
mod Runs
