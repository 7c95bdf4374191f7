-- ===== src/Mesh.antt =====
-- The Bluetooth Mesh layer, src/mesh.
pub mod Number
pub mod Uuid
pub mod Application
pub mod Swarm
mod Runs
