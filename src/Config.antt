-- ===== src/Config.antt =====
-- The node's configuration, src/config.
pub mod Overlay
pub mod SharedTopics
mod Runs
