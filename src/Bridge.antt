-- ===== src/Bridge.antt =====
-- The transport-independent message bridge, src/bridge.
pub mod Scalar
pub mod Codec
pub mod Math
pub mod Transport
mod Runs
