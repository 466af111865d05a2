-- ===== src/Controller/Orgs.antt =====
-- `reconcileOrg` and `reconcileOrgs` of internal/controller/fabricnetwork_controller.go. What is done for the
-- parts of an organization is a record of tasks; the status that comes with an error is left out of
-- `reconcile_org`, as its caller drops it.
-- Numbers of instances stay below 2 ^ 31, so that the sums do not leave the range of an int32.
pub mod Ready
pub mod Blocked
use fabric_ops.Prelude.{
  ℕ, zero, suc, ◌+◌, ◌≤◌, String, Bool, true, false, not, ◌&&◌, List, [], ◌∷◌, Option, none, some,
  ◌==◌, leb, all, if◌then◌else◌,
}
use fabric_ops.Text.{◌<>◌, trim_space}
use fabric_ops.Api.Spec.{FabricNetwork, Org, OrdererGroup, FabricNetworkSpec}
use fabric_ops.Api.Status.{
  WorkloadStatus, OrgStatus, OrdererEndpointStatus, PeerEndpointStatus, CertificateStatus,
  CaRegistrarRotationStatus, unset,
}
use fabric_ops.Rotation.Steps.{ca_registrar_rotation_blocks_work}
use fabric_ops.Controller.Tasks.{Reply, problem, value, Task, ◌>>=◌, ◌>>◌, return, when_needed}

unfoldable pub workload_ready : WorkloadStatus → Bool
workload_ready s = leb s.desired s.ready

total_instances : List OrdererGroup → ℕ
total_instances [] = 0
total_instances (g ∷ gs) = g.instances + total_instances gs

unfoldable pub desired_orderer_status : Org → WorkloadStatus
unfolding total_instances
desired_orderer_status org = record { desired = total_instances org.orderers; ready = 0 }

unfoldable pub desired_peer_status : Org → WorkloadStatus
desired_peer_status org = record {
  desired = elim org.peer [ none ↦ 0 | some p ↦ p.instances ];
  ready = 0;
}

-- What the steps of `reconcileOrg` call, for one network and one organization.
pub record OrgTasks (W : Type 0) : Type 0 where
  pub namespace : String
  pub ca_endpoint : String
  pub orderer_endpoints : List OrdererEndpointStatus
  pub peer_endpoints : List PeerEndpointStatus
  pub ensure_namespace : Task W (Unit {0})
  pub network_policy_enabled : Bool
  pub ensure_network_policy : Task W (Unit {0})
  pub ensure_network_policy_absent : Task W (Unit {0})
  pub service_monitor_enabled : Bool
  pub ensure_service_monitor : Task W (Unit {0})
  pub reconcile_identity_material : Task W (Unit {0})
  pub reconcile_ca : Task W Bool
  pub reconcile_ca_registrar_rotation : Bool → Task W CaRegistrarRotationStatus
  pub reconcile_admin_enrollment : Task W (Unit {0})
  pub reconcile_workload_enrollments : Task W (Unit {0})
  pub identity_material_status : Task W (Bool × String)
  pub reconcile_certificate_lifecycle :
      Bool → Bool → Bool → Task W (List CertificateStatus × Bool × String)
  pub reconcile_orderers : Task W WorkloadStatus
  pub reconcile_peers : Task W WorkloadStatus

abbrev pub unset_rotation : CaRegistrarRotationStatus
unset_rotation = record {
  observed_request_id = "";
  phase = unset;
  active_secret_name = "";
  active_username = "";
  previous_secret_name = "";
  staged_secret_name = "";
  rotation_job_name = "";
  last_rotation_time = 0;
  message = "";
}

module _ {W : Type 0} where
  -- The last part: the orderers and the peers, once the identities are there.
  unfoldable pub reconcile_workloads : OrgTasks W → Org → OrgStatus → Task W OrgStatus
  unfolding workload_ready desired_orderer_status desired_peer_status
  reconcile_workloads t org status =
      if not status.identity_ready
      then return (record status {
        orderers = desired_orderer_status org;
        orderers_ready = workload_ready (desired_orderer_status org);
        peers = desired_peer_status org;
        peers_ready = workload_ready (desired_peer_status org);
        ready = false;
      })
      else (do
        orderers ← t.reconcile_orderers
        peers ← t.reconcile_peers
        return (record status {
          orderers = orderers;
          orderers_ready = workload_ready orderers;
          peers = peers;
          peers_ready = workload_ready peers;
          ready =
              status.identity_ready
              && status.ca_ready
              && workload_ready orderers
              && workload_ready peers;
        }))

  unfoldable pub initial_org_status : OrgTasks W → Org → OrgStatus
  initial_org_status t org = record {
    name = org.organization.name;
    namespace = t.namespace;
    identity_ready = false;
    identity_error = "";
    ca_ready = false;
    ca_endpoint = t.ca_endpoint;
    orderer_endpoints = t.orderer_endpoints;
    orderers = record { desired = 0; ready = 0 };
    orderers_ready = false;
    peer_endpoints = t.peer_endpoints;
    peers = record { desired = 0; ready = 0 };
    peers_ready = false;
    connection_profile_config_map_name = "";
    certificates = [];
    certificate_renewal_required = false;
    certificate_renewal_error = "";
    ca_registrar_rotation = unset_rotation;
    ready = false;
  }

  -- The status once the certificates have been looked at.
  unfoldable pub observed_org_status :
      OrgTasks W
      → Org
      → Bool
      → CaRegistrarRotationStatus
      → Bool × String
      → List CertificateStatus × Bool × String
      → OrgStatus
  unfolding initial_org_status
  observed_org_status t org ca_ready rotation identity certificates =
      record (initial_org_status t org) {
        ca_ready = ca_ready;
        ca_registrar_rotation = rotation;
        identity_ready = identity.0;
        identity_error = identity.1;
        certificates = certificates.0;
        certificate_renewal_required = certificates.1;
        certificate_renewal_error = certificates.2;
      }

  unfoldable pub reconcile_org : OrgTasks W → Org → Task W OrgStatus
  unfolding reconcile_workloads observed_org_status ca_registrar_rotation_blocks_work
  reconcile_org t org = do
    t.ensure_namespace
    (if t.network_policy_enabled then t.ensure_network_policy else t.ensure_network_policy_absent)
    when_needed t.service_monitor_enabled t.ensure_service_monitor
    t.reconcile_identity_material
    ca_ready ← t.reconcile_ca
    rotation ← t.reconcile_ca_registrar_rotation ca_ready
    when_needed (ca_ready && not (ca_registrar_rotation_blocks_work rotation))
        (do t.reconcile_admin_enrollment; t.reconcile_workload_enrollments)
    identity ← t.identity_material_status
    certificates ←
        t.reconcile_certificate_lifecycle ca_ready identity.0
          (ca_registrar_rotation_blocks_work rotation)
    reconcile_workloads t org (observed_org_status t org ca_ready rotation identity certificates)

  -- The statuses so far, and the error that ended the loop.
  unfoldable pub reconcile_orgs_from :
      (Org → OrgTasks W) → List Org → W → (List OrgStatus × Option String) × W
  unfolding reconcile_org
  reconcile_orgs_from tasks [] w = (([], none), w)
  reconcile_orgs_from tasks (org ∷ orgs) w =
      let first = reconcile_org (tasks org) org w in
      let rest = reconcile_orgs_from tasks orgs first.1 in
      elim first.0 [
        | problem text ↦ (([], some text), first.1)
        | value status ↦ ((status ∷ rest.0.0, rest.0.1), rest.1)
      ]

  unfoldable pub reconcile_orgs :
      (Org → OrgTasks W) → FabricNetwork → W → (List OrgStatus × Option String) × W
  unfolding reconcile_orgs_from
  reconcile_orgs tasks net = reconcile_orgs_from tasks net.spec.orgs

unfoldable pub all_orgs_ready : List OrgStatus → Bool
all_orgs_ready [] = false
all_orgs_ready (s ∷ rest) = all (λ status. status.ready) (s ∷ rest)
