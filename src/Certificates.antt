-- ===== src/Certificates.antt =====
-- internal/controller/fabricnetwork_certificate_lifecycle.go: the states of the certificates that
-- the Fabric CA issues, the requests to renew them, and the condition that sums them up.
pub mod Window
pub mod Renewal
mod Examples
pub mod Condition
