-- ===== src/Tests.antt =====
-- Runs at concrete inputs, and the theorems at inputs that meet their conditions.
pub mod Wire
pub mod Crypto
pub mod Files
pub mod Host
pub mod Client
pub mod Tools
pub mod Login
pub mod Screen
pub mod Session
