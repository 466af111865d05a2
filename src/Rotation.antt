-- ===== src/Rotation.antt =====
-- The rotation of the registrar of a certificate authority,
-- internal/controller/fabricnetwork_ca_registrar_rotation.go.
pub mod Secrets
pub mod Steps
pub mod Promotion
pub mod Advance
pub mod Reconcile
mod Examples
