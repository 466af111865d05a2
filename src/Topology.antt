-- ===== src/Topology.antt =====
-- internal/controller/fabricnetwork_topology.go.
pub mod Text
pub mod Values
pub mod Lists
pub mod Refs
pub mod Orgs
pub mod External
pub mod Channels
pub mod Policies
pub mod Chaincodes
pub mod Network
mod Examples
