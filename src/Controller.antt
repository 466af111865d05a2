-- ===== src/Controller.antt =====
-- The controller of FabricNetwork objects, internal/controller/fabricnetwork_controller.go.
pub mod Tasks
pub mod Orgs
pub mod Conditions
pub mod Reconcile
mod Examples
