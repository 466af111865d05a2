-- ===== src/Certificates/Examples.antt =====
-- A certificate of 90 days, and an organization with three of them.
use fabric_ops.Prelude.{ℕ, String, true, List, [], ◌∷◌, All, ◌≡◌, ◌↔◌}
use fabric_ops.Api.Status.{
  CertificateState, CertificateStatus, OrgStatus, valid, expired, renewing, staging,
}
use fabric_ops.Certificates.Window.{certificate_state}
use fabric_ops.Certificates.Window.Forward.{Windows, certificate_state-Windows}
use fabric_ops.Prelude.{get_elem?}
use fabric_ops.Prelude.Maps.{lookup}
use fabric_ops.Certificates.Renewal.{CertificateInventoryItem, requests_by_workload}
use fabric_ops.Certificates.Renewal.Groups.{has_index, is_due_at, requests_by_workload-partition}
use fabric_ops.Certificates.Condition.{certificate_lifecycle_condition_status}
use fabric_ops.Certificates.Condition.Priority.{
  CoversOrg, certificate_lifecycle_condition_status-CoversOrg,
}
use fabric_ops.Certificates.Condition.Quiet.{Quiet, certificate_lifecycle_condition_status-Quiet}

certificate_state-Windows_example :
    Windows 6000000 0 7776000 (certificate_state 6000000 0 7776000 true).0
certificate_state-Windows_example = certificate_state-Windows 6000000 0 7776000 true

abbrev certificate : CertificateState → CertificateStatus
certificate s = record {
  name = "peer0-tls";
  namespace = "org1";
  secret_name = "peer0-tls";
  secret_kind = "tls";
  key = "server.crt";
  component = "peer";
  workload_name = "peer0";
  renewable = true;
  state = s;
  subject = "";
  issuer = "";
  not_before = 0;
  not_after = 7776000;
  renewal_time = 5184000;
  renewal_job_name = "";
  message = "";
}

abbrev statuses : List OrgStatus
statuses =
    record {
      name = "Org1";
      namespace = "org1";
      identity_ready = true;
      identity_error = "";
      ca_ready = true;
      ca_endpoint = "";
      orderer_endpoints = [];
      orderers = record { desired = 0; ready = 0 };
      orderers_ready = true;
      peer_endpoints = [];
      peers = record { desired = 1; ready = 1 };
      peers_ready = true;
      connection_profile_config_map_name = "";
      certificates = certificate valid ∷ certificate renewing ∷ certificate expired ∷ [];
      certificate_renewal_required = true;
      certificate_renewal_error = "";
      ca_registrar_rotation = record {
        observed_request_id = "1";
        phase = staging;
        active_secret_name = "";
        active_username = "";
        previous_secret_name = "";
        staged_secret_name = "";
        rotation_job_name = "";
        last_rotation_time = 0;
        message = "";
      };
      ready = true;
    }
    ∷ []

certificate_lifecycle_condition_status-CoversOrg_example :
    All (CoversOrg (certificate_lifecycle_condition_status statuses).1) statuses
certificate_lifecycle_condition_status-CoversOrg_example =
    certificate_lifecycle_condition_status-CoversOrg statuses

certificate_lifecycle_condition_status-Quiet_example :
    ((certificate_lifecycle_condition_status statuses).0 ≡ true) ↔ All Quiet statuses
certificate_lifecycle_condition_status-Quiet_example =
    certificate_lifecycle_condition_status-Quiet statuses

abbrev inventory_item : CertificateState → CertificateInventoryItem
inventory_item s = record {
  ref = record {
    component = "peer";
    workload_name = "peer0";
    renewal_mode = "workload";
    renewable = true;
    csr_hosts = [];
  };
  status = certificate s;
  raw = [];
}

abbrev inventory : List CertificateInventoryItem
inventory = inventory_item valid ∷ inventory_item expired ∷ []

abbrev no_bytes : String → List ℕ
no_bytes s = []

requests_by_workload-partition_example :
    has_index 1 (lookup "peer0" (requests_by_workload no_bytes [] 0 inventory))
    ≡ is_due_at "peer0" (get_elem? inventory 1)
requests_by_workload-partition_example = requests_by_workload-partition no_bytes inventory "peer0" 1
