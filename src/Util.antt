-- ===== src/Util.antt =====
-- The shared text utilities, src/util.
pub mod Strings
pub mod Topics
pub mod Md5
pub mod Uuid
mod Runs
