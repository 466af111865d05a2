-- ===== src/Api.antt =====
-- The types of api/v1alpha1/fabricnetwork_types.go.
pub mod Spec
pub mod Status
pub mod Network
