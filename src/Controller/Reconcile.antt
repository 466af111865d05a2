-- ===== src/Controller/Reconcile.antt =====
-- `Reconcile` of internal/controller/fabricnetwork_controller.go, with `updateStatus`, and
-- `resultWithCleanupRequeue` of fabricnetwork_job_cleanup.go. The parts that it calls are a record of
-- tasks on a world; the text of an error stands for the error. An event is a task too.
pub mod Kept
pub mod Requeue
pub mod Honest
use fabric_ops.Prelude.{
  ℕ, zero, suc, String, Bool, true, false, not, ◌&&◌, ◌||◌, List, [], ◌∷◌, Option, none, some, ◌==◌,
  ltb, if◌then◌else◌,
}
use fabric_ops.Text.{◌<>◌, join}
use fabric_ops.Api.Spec.{FabricNetwork, Org}
use fabric_ops.Api.Status.{OrgStatus}
use fabric_ops.Api.Network.{
  ChannelStatus, ChaincodeStatus, Condition, condition_unknown, Phase, pending, creating, ready,
  failed, unset, FabricNetworkStatus,
}
use fabric_ops.Controller.Orgs.{OrgTasks, reconcile_orgs}
use fabric_ops.Controller.Conditions.{
  Finding, channels_finding, is_ready, topology_invalid_conditions, error_conditions, verdict,
}

-- The object as it is read: `is_deleting` is that its time of deletion is set, `is_finalized` that it has
-- the operator's finalizer.
pub record StoredNetwork : Type 0 where
  pub network : FabricNetwork
  pub generation : ℕ
  pub is_deleting : Bool
  pub is_finalized : Bool
  pub status : FabricNetworkStatus

pub data Found : Type 0 where
  missing : Found
  unreadable : String → Found
  found : StoredNetwork → Found

abbrev pub Failure : Type 0
Failure = Option String

pub record NetworkTasks (W : Type 0) : Type 0 where
  pub get_network : W → Found × W
  pub cleanup_network : FabricNetwork → W → Failure × W
  pub ensure_finalizer : W → Failure × W
  pub remove_finalizer : W → Failure × W
  pub validate_topology : FabricNetwork → List String
  pub set_condition : List Condition → Condition → List Condition
  pub deep_equal : FabricNetworkStatus → FabricNetworkStatus → Bool
  pub patch_status : FabricNetworkStatus → W → Failure × W
  pub record_event : String → String → W → W
  pub org_tasks : FabricNetwork → Org → OrgTasks W
  pub reconcile_channels : FabricNetwork → List OrgStatus → W → (List ChannelStatus × Failure) × W
  pub reconcile_chaincodes :
      FabricNetwork → List ChannelStatus → W → (List ChaincodeStatus × Failure) × W
  pub reconcile_connection_profiles :
      FabricNetwork → List OrgStatus → W → (List OrgStatus × Failure) × W
  pub cleanup_succeeded_jobs : FabricNetwork → W → (ℕ × Failure) × W

-- `ctrl.Result` by the nanoseconds after which the network is looked at again, 0 for none, and the error.
abbrev pub Answer : Type 0
Answer = ℕ × Failure

-- Ten seconds.
abbrev pub waiting_requeue : ℕ
waiting_requeue = 10000000000

unfoldable pub result_with_cleanup_requeue : ℕ → ℕ → ℕ
result_with_cleanup_requeue requeue zero = requeue
result_with_cleanup_requeue zero (suc cleanup) = suc cleanup
result_with_cleanup_requeue (suc requeue) (suc cleanup) =
    if ltb (suc cleanup) (suc requeue) then suc cleanup else suc requeue

unfoldable pub phase_eq : Phase → Phase → Bool
phase_eq pending pending = true
phase_eq creating creating = true
phase_eq ready ready = true
phase_eq failed failed = true
phase_eq unset unset = true
phase_eq _ _ = false

module _ {W : Type 0} (t : NetworkTasks W) where
  -- The event that goes with a new phase.
  unfoldable pub phase_event : FabricNetworkStatus → W → W
  phase_event status w = elim status.phase [
    | ready ↦ t.record_event "FabricNetworkReady" status.message w
    | failed ↦ t.record_event "FabricNetworkReconcileFailed" status.message w
    | _ ↦ w
  ]

  -- Nothing is written where nothing has changed.
  unfoldable pub update_status : FabricNetworkStatus → FabricNetworkStatus → W → Failure × W
  unfolding phase_event phase_eq
  update_status old new w =
      let patched = t.patch_status new w in
      let same_text = phase_eq old.phase new.phase && old.message == new.message in
      if same_text && t.deep_equal old new then (none, w) else elim patched.0 [
        | some error ↦ (some error, patched.1)
        | none ↦ (none, if same_text then patched.1 else phase_event new patched.1)
      ]

  -- The status is written, and the error is that of the reconciliation.
  unfoldable pub report_error : StoredNetwork → FabricNetworkStatus → String → W → Answer × W
  unfolding update_status
  report_error net status error w = ((0, some error), (update_status net.status status w).1)

  unfoldable pub failed_status :
      StoredNetwork
      → String
      → String
      → List OrgStatus
      → List ChannelStatus
      → List ChaincodeStatus
      → Finding
      → String
      → FabricNetworkStatus
  unfolding error_conditions
  failed_status net what error orgs channels chaincodes channels_finding observability = record {
    phase = failed;
    message = what <> error;
    org_status = orgs;
    channel_status = channels;
    chaincode_status = chaincodes;
    conditions =
        error_conditions t.set_condition net.status.conditions net.generation what error
          channels_finding observability;
  }

  unfoldable pub invalid_status : StoredNetwork → List String → FabricNetworkStatus
  unfolding topology_invalid_conditions join
  invalid_status net problems =
      let message = "Invalid Fabric topology: " <> join "; " problems in
      record {
        phase = failed;
        message = message;
        org_status = [];
        channel_status = [];
        chaincode_status = [];
        conditions =
            topology_invalid_conditions t.set_condition net.status.conditions net.generation
              message;
      }

  -- The Jobs that have succeeded are cleaned up, and the network is looked at again in time for the next.
  unfoldable pub clean_up : StoredNetwork → ℕ → W → Answer × W
  unfolding result_with_cleanup_requeue
  clean_up net requeue w =
      let cleaned = t.cleanup_succeeded_jobs net.network w in
      elim cleaned.0.1 [
        | some error ↦ ((0, some error), cleaned.1)
        | none ↦ ((result_with_cleanup_requeue requeue cleaned.0.0, none), cleaned.1)
      ]

  -- What follows the last of the parts.
  unfoldable pub conclude :
      StoredNetwork → List OrgStatus → List ChannelStatus → List ChaincodeStatus → W → Answer × W
  unfolding verdict is_ready update_status clean_up
  conclude net orgs channels chaincodes w =
      let status =
        verdict t.set_condition net.status.conditions net.generation orgs channels chaincodes in
      let written = update_status net.status status w in
      elim written.0 [
        | some error ↦ ((0, some error), written.1)
        | none ↦
            clean_up net (if is_ready orgs channels chaincodes then 0 else waiting_requeue)
              written.1
      ]

  -- The connection profiles and what follows.
  unfoldable pub run_profiles :
      StoredNetwork → List OrgStatus → List ChannelStatus → List ChaincodeStatus → W → Answer × W
  unfolding report_error failed_status conclude channels_finding
  run_profiles net orgs channels chaincodes w =
      let ran = t.reconcile_connection_profiles net.network orgs w in
      elim ran.0.1 [
        | some error ↦
            report_error net
              (failed_status net "Failed to reconcile connection profiles: " error ran.0.0 channels
                chaincodes (channels_finding channels) "Failed to reconcile connection profiles: ")
              error ran.1
        | none ↦ conclude net ran.0.0 channels chaincodes ran.1
      ]

  unfoldable pub run_chaincodes :
      StoredNetwork → List OrgStatus → List ChannelStatus → W → Answer × W
  unfolding report_error failed_status run_profiles channels_finding
  run_chaincodes net orgs channels w =
      let ran = t.reconcile_chaincodes net.network channels w in
      elim ran.0.1 [
        | some error ↦
            report_error net
              (failed_status net "Failed to reconcile chaincodes: " error orgs channels ran.0.0
                (channels_finding channels) "Failed to reconcile chaincodes: ")
              error ran.1
        | none ↦ run_profiles net orgs channels ran.0.0 ran.1
      ]

  unfoldable pub run_channels : StoredNetwork → List OrgStatus → W → Answer × W
  unfolding report_error failed_status run_chaincodes
  run_channels net orgs w =
      let ran = t.reconcile_channels net.network orgs w in
      elim ran.0.1 [
        | some error ↦
            report_error net
              (failed_status net "Failed to reconcile channels: " error orgs ran.0.0 []
                (condition_unknown, "ReconcileError", "Failed to reconcile channels: " <> error)
                "Failed to check observability: ")
              error ran.1
        | none ↦ run_chaincodes net orgs ran.0.0 ran.1
      ]

  unfoldable pub run_orgs : StoredNetwork → W → Answer × W
  unfolding report_error failed_status run_channels reconcile_orgs
  run_orgs net w =
      let ran = reconcile_orgs (t.org_tasks net.network) net.network w in
      elim ran.0.1 [
        | some error ↦
            report_error net
              (failed_status net "Failed to reconcile orgs: " error ran.0.0 [] []
                (condition_unknown, "ReconcileError", "Failed to check channels: " <> error)
                "Failed to check observability: ")
              error ran.1
        | none ↦ run_channels net ran.0.0 ran.1
      ]

  unfoldable pub run_network : StoredNetwork → W → Answer × W
  unfolding invalid_status update_status run_orgs
  run_network net w = elim (t.validate_topology net.network) [
    | [] ↦ run_orgs net w
    | problem ∷ more ↦
        let written = update_status net.status (invalid_status net (problem ∷ more)) w in
        ((0, written.0), written.1)
  ]

  -- The cleanup of a network that is being deleted.
  unfoldable pub run_deletion : StoredNetwork → W → Answer × W
  run_deletion net w =
      let cleaned = t.cleanup_network net.network w in
      let removed = t.remove_finalizer cleaned.1 in
      if net.is_finalized
      then elim cleaned.0 [
        | some error ↦ ((0, some error), cleaned.1)
        | none ↦ ((0, removed.0), removed.1)
      ]
      else ((0, none), w)

  unfoldable pub run_found : StoredNetwork → W → Answer × W
  unfolding run_deletion run_network
  run_found net w =
      let ensured = t.ensure_finalizer w in
      if net.is_deleting
      then run_deletion net w
      else if net.is_finalized
      then run_network net w
      else elim ensured.0 [
        | some error ↦ ((0, some error), ensured.1)
        | none ↦ run_network net ensured.1
      ]

  unfoldable pub reconcile : W → Answer × W
  unfolding run_found
  reconcile w =
      let got = t.get_network w in
      elim got.0 [
        | missing ↦ ((0, none), got.1)
        | unreadable error ↦ ((0, some error), got.1)
        | found net ↦ run_found net got.1
      ]
