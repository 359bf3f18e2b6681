-- ===== src/Tests.antt =====
-- The theorems applied to concrete files, inputs and reads.
pub mod Data
pub mod Arrays
pub mod Commands
pub mod Now
pub mod Network
pub mod Register
pub mod Menu
pub mod Parser
pub mod Sensor
pub mod Bright
pub mod Mesh
