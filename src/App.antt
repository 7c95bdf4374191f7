-- ===== src/App.antt =====
-- The application layer, src/app.
pub mod Reliable
mod Runs
