-- ===== src/Controller/Reconcile/Honest.antt =====
-- Every status that a run of the controller writes is honest.
use fabric_ops.Prelude.{
  ℕ, String, Bool, true, false, ◌&&◌, List, [], ◌∷◌, none, some, ◌≡◌, refl, if◌then◌else◌, ◌==◌,
}
use fabric_ops.Text.{◌<>◌, join}
use fabric_ops.Api.Status.{OrgStatus}
use fabric_ops.Api.Network.{
  ChannelStatus, ChaincodeStatus, condition_false, condition_unknown, Phase, pending, creating,
  ready, failed, unset, FabricNetworkStatus,
}
use fabric_ops.Controller.Orgs.{reconcile_orgs}
use fabric_ops.Controller.Conditions.{
  Finding, channels_finding, SetsCondition, is_ready, verdict, topology_invalid_conditions,
  error_conditions,
}
use fabric_ops.Controller.Conditions.Ready.{
  Honest, verdict-Honest, failed-Honest, conditions_with-Reports,
}
use fabric_ops.Controller.Reconcile.{
  waiting_requeue, StoredNetwork, Found, missing, unreadable, found, Failure, NetworkTasks, Answer,
  phase_eq, phase_event, update_status, report_error, failed_status, invalid_status,
  result_with_cleanup_requeue, clean_up, conclude, run_profiles, run_chaincodes, run_channels,
  run_orgs, run_network, run_deletion, run_found, reconcile,
}
use fabric_ops.Controller.Reconcile.Kept.{Keeps, TasksKeep, reconcile_orgs-Keeps}

-- What follows a step that may have failed.
after_failure :
    {W A : Type 0} (I : W → Type 0) (failure : Failure) (w : W) (stop : String → W → A × W)
    (go : W → A × W)
    → I w
    → ((error : String) → Keeps I (stop error))
    → Keeps I go
    → I (elim failure as (λ _. A × W) [ some error ↦ stop error w | none ↦ go w ]).1
after_failure I (some error) w stop go i hs hg = hs error w i
after_failure I none w stop go i hs hg = hg w i

module _ {W : Type 0} (I : W → Type 0) (t : NetworkTasks W) (kept : TasksKeep I t)
    (law : SetsCondition t.set_condition) (net : StoredNetwork)
    (writes : (s : FabricNetworkStatus)
      → Honest net.generation s
      → Keeps I (t.patch_status s)) where
  phase_event-Keeps : (s : FabricNetworkStatus) (w : W) → I w → I (phase_event t s w)
  unfolding phase_event
  phase_event-Keeps s w i = by_phase s.phase
    where
      by_phase :
          (p : Phase)
          → I (elim p as (λ _. W) [
            | ready ↦ t.record_event "FabricNetworkReady" s.message w
            | failed ↦ t.record_event "FabricNetworkReconcileFailed" s.message w
            | _ ↦ w
          ])
      by_phase ready = kept.4 "FabricNetworkReady" s.message w i
      by_phase failed = kept.4 "FabricNetworkReconcileFailed" s.message w i
      by_phase pending = i
      by_phase creating = i
      by_phase unset = i

  update_status-Keeps :
      (s : FabricNetworkStatus) → Honest net.generation s → Keeps I (update_status t net.status s)
  unfolding update_status
  update_status-Keeps s honest w i =
      by_test (phase_eq net.status.phase s.phase && net.status.message == s.message)
        (t.deep_equal net.status s) (t.patch_status s w) (writes s honest w i)
    where
      by_test :
          (same_text same : Bool) (patched : Failure × W)
          → I patched.1
          → I
              (if◌then◌else◌ {A = Failure × W}
                (same_text && same)
                (none, w)
                (elim patched.0 as (λ _. Failure × W) [
                  | some error ↦ (some error, patched.1)
                  | none ↦ (none, if same_text then patched.1 else phase_event t s patched.1)
                ])).1
      by_test true true patched j = i
      by_test true false (some error, v) j = j
      by_test true false (none, v) j = j
      by_test false same (some error, v) j = j
      by_test false same (none, v) j = phase_event-Keeps s v j

  report_error-Keeps :
      (s : FabricNetworkStatus)
      → Honest net.generation s
      → (error : String) → Keeps I (report_error t net s error)
  unfolding report_error
  report_error-Keeps s honest error w i = update_status-Keeps s honest w i

  failed_status-Honest :
      (what error : String) (orgs : List OrgStatus) (channels : List ChannelStatus)
      (chaincodes : List ChaincodeStatus) (f : Finding) (observability : String)
      → Honest net.generation
          (failed_status t net what error orgs channels chaincodes f observability)
  unfolding failed_status error_conditions
  failed_status-Honest what error orgs channels chaincodes f observability =
      failed-Honest t.set_condition law net.generation
        (failed_status t net what error orgs channels chaincodes f observability)
        (condition_false, "ReconcileError", what <> error) refl refl
        (conditions_with-Reports t.set_condition law net.generation net.status.conditions
          (condition_false, "ReconcileError", what <> error)
          (condition_unknown, "ReconcileError", "Failed to check identity material: " <> error)
          (condition_unknown, "ReconcileError", "Failed to check certificate lifecycle: " <> error)
          f (condition_unknown, "ReconcileError", observability <> error)).0

  invalid_status-Honest :
      (problems : List String) → Honest net.generation (invalid_status t net problems)
  unfolding invalid_status topology_invalid_conditions
  invalid_status-Honest problems =
      let message = "Invalid Fabric topology: " <> join "; " problems in
      failed-Honest t.set_condition law net.generation (invalid_status t net problems)
        (condition_false, "TopologyInvalid", message) refl refl
        (conditions_with-Reports t.set_condition law net.generation net.status.conditions
          (condition_false, "TopologyInvalid", message)
          (
            condition_unknown,
            "TopologyInvalid",
            "Topology validation failed before identity material check: " <> message,
          )
          (
            condition_unknown,
            "TopologyInvalid",
            "Topology validation failed before certificate lifecycle check: " <> message,
          )
          (condition_unknown, "TopologyInvalid", message)
          (
            condition_unknown,
            "TopologyInvalid",
            "Topology validation failed before observability check: " <> message,
          )).0

  clean_up-Keeps : (requeue : ℕ) → Keeps I (clean_up t net requeue)
  unfolding clean_up
  clean_up-Keeps requeue w i =
      let cleaned = t.cleanup_succeeded_jobs net.network w in
      after_failure I cleaned.0.1 cleaned.1 (λ error v. ((0, some error), v))
        (λ v. ((result_with_cleanup_requeue requeue cleaned.0.0, none), v)) (kept.9 net.network w i)
        (λ error v j. j) (λ v j. j)

  conclude-Keeps :
      (orgs : List OrgStatus) (channels : List ChannelStatus) (chaincodes : List ChaincodeStatus)
      → Keeps I (conclude t net orgs channels chaincodes)
  unfolding conclude
  conclude-Keeps orgs channels chaincodes w i =
      let status =
        verdict t.set_condition net.status.conditions net.generation orgs channels chaincodes in
      let written = update_status t net.status status w in
      let requeue = if is_ready orgs channels chaincodes then 0 else waiting_requeue in
      after_failure I written.0 written.1 (λ error v. ((0, some error), v)) (clean_up t net requeue)
        (update_status-Keeps status
          (verdict-Honest t.set_condition law net.generation net.status.conditions orgs channels
            chaincodes)
          w i)
        (λ error v j. j) (clean_up-Keeps requeue)

  run_profiles-Keeps :
      (orgs : List OrgStatus) (channels : List ChannelStatus) (chaincodes : List ChaincodeStatus)
      → Keeps I (run_profiles t net orgs channels chaincodes)
  unfolding run_profiles
  run_profiles-Keeps orgs channels chaincodes w i =
      let ran = t.reconcile_connection_profiles net.network orgs w in
      after_failure I ran.0.1 ran.1
        (λ error.
          report_error t net
            (failed_status t net "Failed to reconcile connection profiles: " error ran.0.0 channels
              chaincodes (channels_finding channels) "Failed to reconcile connection profiles: ")
            error)
        (conclude t net ran.0.0 channels chaincodes) (kept.8 net.network orgs w i)
        (λ error.
          report_error-Keeps _
            (failed_status-Honest "Failed to reconcile connection profiles: " error ran.0.0 channels
              chaincodes (channels_finding channels) "Failed to reconcile connection profiles: ")
            error)
        (conclude-Keeps ran.0.0 channels chaincodes)

  run_chaincodes-Keeps :
      (orgs : List OrgStatus) (channels : List ChannelStatus)
      → Keeps I (run_chaincodes t net orgs channels)
  unfolding run_chaincodes
  run_chaincodes-Keeps orgs channels w i =
      let ran = t.reconcile_chaincodes net.network channels w in
      after_failure I ran.0.1 ran.1
        (λ error.
          report_error t net
            (failed_status t net "Failed to reconcile chaincodes: " error orgs channels ran.0.0
              (channels_finding channels) "Failed to reconcile chaincodes: ")
            error)
        (run_profiles t net orgs channels ran.0.0) (kept.7 net.network channels w i)
        (λ error.
          report_error-Keeps _
            (failed_status-Honest "Failed to reconcile chaincodes: " error orgs channels ran.0.0
              (channels_finding channels) "Failed to reconcile chaincodes: ")
            error)
        (run_profiles-Keeps orgs channels ran.0.0)

  run_channels-Keeps : (orgs : List OrgStatus) → Keeps I (run_channels t net orgs)
  unfolding run_channels
  run_channels-Keeps orgs w i =
      let ran = t.reconcile_channels net.network orgs w in
      after_failure I ran.0.1 ran.1
        (λ error.
          report_error t net
            (failed_status t net "Failed to reconcile channels: " error orgs ran.0.0 []
              (condition_unknown, "ReconcileError", "Failed to reconcile channels: " <> error)
              "Failed to check observability: ")
            error)
        (run_chaincodes t net orgs ran.0.0) (kept.6 net.network orgs w i)
        (λ error.
          report_error-Keeps _
            (failed_status-Honest "Failed to reconcile channels: " error orgs ran.0.0 []
              (condition_unknown, "ReconcileError", "Failed to reconcile channels: " <> error)
              "Failed to check observability: ")
            error)
        (run_chaincodes-Keeps orgs ran.0.0)

  run_orgs-Keeps : Keeps I (run_orgs t net)
  unfolding run_orgs
  run_orgs-Keeps w i =
      let ran = reconcile_orgs (t.org_tasks net.network) net.network w in
      after_failure I ran.0.1 ran.1
        (λ error.
          report_error t net
            (failed_status t net "Failed to reconcile orgs: " error ran.0.0 [] []
              (condition_unknown, "ReconcileError", "Failed to check channels: " <> error)
              "Failed to check observability: ")
            error)
        (run_channels t net ran.0.0)
        (reconcile_orgs-Keeps I (t.org_tasks net.network) (kept.5 net.network) net.network w i)
        (λ error.
          report_error-Keeps _
            (failed_status-Honest "Failed to reconcile orgs: " error ran.0.0 [] []
              (condition_unknown, "ReconcileError", "Failed to check channels: " <> error)
              "Failed to check observability: ")
            error)
        (run_channels-Keeps ran.0.0)

  run_network-Keeps : Keeps I (run_network t net)
  unfolding run_network
  run_network-Keeps w i = by_problems (t.validate_topology net.network)
    where
      by_problems :
          (problems : List String)
          → I
              (elim problems as (λ _. Answer × W) [
                | [] ↦ run_orgs t net w
                | p ∷ more ↦
                    let written = update_status t net.status (invalid_status t net (p ∷ more)) w in
                    ((0, written.0), written.1)
              ]).1
      by_problems [] = run_orgs-Keeps w i
      by_problems (p ∷ more) = update_status-Keeps _ (invalid_status-Honest (p ∷ more)) w i

  run_deletion-Keeps : Keeps I (run_deletion t net)
  unfolding run_deletion
  run_deletion-Keeps w i = by_finalizer net.is_finalized
    where
      cleaned : Failure × W
      cleaned = t.cleanup_network net.network w

      by_finalizer :
          (b : Bool)
          → I
              (if◌then◌else◌ {A = Answer × W} b
                (elim cleaned.0 as (λ _. Answer × W) [
                  | some error ↦ ((0, some error), cleaned.1)
                  | none ↦ ((0, (t.remove_finalizer cleaned.1).0), (t.remove_finalizer cleaned.1).1)
                ])
                ((0, none), w)).1
      by_finalizer false = i
      by_finalizer true =
          after_failure I cleaned.0 cleaned.1 (λ error v. ((0, some error), v))
            (λ v. ((0, (t.remove_finalizer v).0), (t.remove_finalizer v).1))
            (kept.1 net.network w i) (λ error v j. j) (kept.3)

  run_found-Keeps : Keeps I (run_found t net)
  unfolding run_found
  run_found-Keeps w i = by_state net.is_deleting net.is_finalized
    where
      ensured : Failure × W
      ensured = t.ensure_finalizer w

      by_state :
          (deleting finalized : Bool)
          → I
              (if◌then◌else◌ {A = Answer × W} deleting (run_deletion t net w) (
                if finalized then run_network t net w else elim ensured.0 as (λ _. Answer × W) [
                  | some error ↦ ((0, some error), ensured.1)
                  | none ↦ run_network t net ensured.1
                ])).1
      by_state true finalized = run_deletion-Keeps w i
      by_state false true = run_network-Keeps w i
      by_state false false =
          after_failure I ensured.0 ensured.1 (λ error v. ((0, some error), v)) (run_network t net)
            (kept.2 w i) (λ error v j. j) run_network-Keeps

-- An invariant of the world that every task but the writing of the status keeps, and that
-- the writing keeps for honest statuses of the generation that was read, is kept by a run of
-- Reconcile, on every path of it: so each status that is written is honest. A status is
-- honest if its phase is Ready exactly when it is not Failed, there is an organization, all
-- organizations, channels and chaincodes are ready and the certificates and rotations of all
-- organizations are in order, and if it has a condition Ready, of that generation, which is
-- true exactly when the phase is Ready. It is assumed that setting a condition puts it in
-- the place of the one of its type and changes no other.
pub reconcile-Honest :
    {W : Type 0} (I : W → Type 0) (t : NetworkTasks W)
    → TasksKeep I t
    → SetsCondition t.set_condition
    → (w : W)
    → ((net : StoredNetwork)
        → (t.get_network w).0 ≡ found net
        → (s : FabricNetworkStatus) → Honest net.generation s
        → Keeps I (t.patch_status s))
    → I w
    → I (reconcile t w).1
unfolding reconcile
reconcile-Honest {W = W} I t kept law w writes i = by_answer (t.get_network w).0 refl
  where
    by_answer :
        (read : Found)
        → (t.get_network w).0 ≡ read
        → I
            (elim read as (λ _. Answer × W) [
              | missing ↦ ((0, none), (t.get_network w).1)
              | unreadable error ↦ ((0, some error), (t.get_network w).1)
              | found net ↦ run_found t net (t.get_network w).1
            ]).1
    by_answer missing e = kept.0 w i
    by_answer (unreadable error) e = kept.0 w i
    by_answer (found net) e =
        run_found-Keeps I t kept law net (writes net e) (t.get_network w).1 (kept.0 w i)
