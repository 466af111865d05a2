-- ===== src/Api/Status.antt =====
-- The status of a network, api/v1alpha1/fabricnetwork_types.go. A time is a number of seconds
-- from the origin of Go's calendar, so that 0 is the zero time.
use fabric_ops.Prelude.{ℕ, String, Bool, List}

pub record WorkloadStatus : Type 0 where
  pub desired : ℕ
  pub ready : ℕ

-- `other` is any text but those of the constants; it is "" in a status that was never set.
pub data CertificateState : Type 0 where
  valid renewal_due renewing renewal_failed expired missing invalid : CertificateState
  other : String → CertificateState

pub record CertificateStatus : Type 0 where
  pub name : String
  pub namespace : String
  pub secret_name : String
  pub secret_kind : String
  pub key : String
  pub component : String
  pub workload_name : String
  pub renewable : Bool
  pub state : CertificateState
  pub subject : String
  pub issuer : String
  pub not_before : ℕ
  pub not_after : ℕ
  pub renewal_time : ℕ
  pub renewal_job_name : String
  pub message : String

pub data CaRegistrarRotationPhase : Type 0 where
  idle waiting_for_ca staging rotating ready failed unset : CaRegistrarRotationPhase

pub record CaRegistrarRotationStatus : Type 0 where
  pub observed_request_id : String
  pub phase : CaRegistrarRotationPhase
  pub active_secret_name : String
  pub active_username : String
  pub previous_secret_name : String
  pub staged_secret_name : String
  pub rotation_job_name : String
  pub last_rotation_time : ℕ
  pub message : String

pub record OrdererEndpointStatus : Type 0 where
  pub name : String
  pub namespace : String
  pub client_address : String
  pub tls_hostname_override : String
  pub admin_address : String
  pub operations_address : String

pub record PeerEndpointStatus : Type 0 where
  pub name : String
  pub address : String
  pub tls_hostname_override : String
  pub chaincode_address : String
  pub operations_address : String
  pub database : String

pub record OrgStatus : Type 0 where
  pub name : String
  pub namespace : String
  pub identity_ready : Bool
  pub identity_error : String
  pub ca_ready : Bool
  pub ca_endpoint : String
  pub orderer_endpoints : List OrdererEndpointStatus
  pub orderers : WorkloadStatus
  pub orderers_ready : Bool
  pub peer_endpoints : List PeerEndpointStatus
  pub peers : WorkloadStatus
  pub peers_ready : Bool
  pub connection_profile_config_map_name : String
  pub certificates : List CertificateStatus
  pub certificate_renewal_required : Bool
  pub certificate_renewal_error : String
  pub ca_registrar_rotation : CaRegistrarRotationStatus
  pub ready : Bool
