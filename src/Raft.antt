-- ===== src/Raft.antt =====
-- internal/channelconfig/raft.go: plans for a change of one Raft consenter.
pub mod Result
pub mod Json
pub mod Consenters
pub mod Plan
mod Examples
