-- ===== src/Channels.antt =====
-- The bootstrap of channels, internal/controller/fabricnetwork_channel.go.
pub mod Status
pub mod Bootstrap
pub mod Messages
pub mod Kept
pub mod Ready
pub mod Accepted
pub mod Order
mod Examples
