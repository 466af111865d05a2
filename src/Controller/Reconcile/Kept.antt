-- ===== src/Controller/Reconcile/Kept.antt =====
-- Invariants of the world through a whole run of the controller.
use fabric_ops.Prelude.{String, Bool, true, false, not, List, [], ◌∷◌, some, if◌then◌else◌}
use fabric_ops.Api.Spec.{FabricNetwork, Org}
use fabric_ops.Api.Status.{OrgStatus}
use fabric_ops.Api.Network.{ChannelStatus}
use fabric_ops.Controller.Tasks.{Reply, problem, value, Task, pass_on, ◌>>=◌, when_needed}
use fabric_ops.Controller.Orgs.{
  OrgTasks, reconcile_workloads, observed_org_status, reconcile_org, reconcile_orgs_from,
  reconcile_orgs,
}
use fabric_ops.Controller.Reconcile.{Failure, NetworkTasks}

module _ {W : Type 0} (I : W → Type 0) where
  -- The step leaves the invariant as it is.
  abbrev pub Keeps : {X : Type 0} → (W → X × W) → Type 0
  Keeps f = (w : W) → I w → I (f w).1

  abbrev pub OrgTasksKeep : OrgTasks W → Type 0
  OrgTasksKeep t =
      Keeps t.ensure_namespace
      × Keeps t.ensure_network_policy
      × Keeps t.ensure_network_policy_absent
      × Keeps t.ensure_service_monitor
      × Keeps t.reconcile_identity_material
      × Keeps t.reconcile_ca
      × ((ca : Bool) → Keeps (t.reconcile_ca_registrar_rotation ca))
      × Keeps t.reconcile_admin_enrollment
      × Keeps t.reconcile_workload_enrollments
      × Keeps t.identity_material_status
      × ((ca identity blocked : Bool)
          → Keeps (t.reconcile_certificate_lifecycle ca identity blocked))
      × Keeps t.reconcile_orderers
      × Keeps t.reconcile_peers

  -- Every task but the writing of the status.
  abbrev pub TasksKeep : NetworkTasks W → Type 0
  TasksKeep t =
      Keeps t.get_network
      × ((n : FabricNetwork) → Keeps (t.cleanup_network n))
      × Keeps t.ensure_finalizer
      × Keeps t.remove_finalizer
      × ((reason message : String) (w : W) → I w → I (t.record_event reason message w))
      × ((n : FabricNetwork) (org : Org) → OrgTasksKeep (t.org_tasks n org))
      × ((n : FabricNetwork) (orgs : List OrgStatus) → Keeps (t.reconcile_channels n orgs))
      × ((n : FabricNetwork) (channels : List ChannelStatus)
          → Keeps (t.reconcile_chaincodes n channels))
      × ((n : FabricNetwork) (orgs : List OrgStatus)
          → Keeps (t.reconcile_connection_profiles n orgs))
      × ((n : FabricNetwork) → Keeps (t.cleanup_succeeded_jobs n))

  after_reply :
      {A B : Type 0} (next : A → Task W B) (r : Reply A × W)
      → I r.1
      → ((a : A) → Keeps (next a))
      → I (pass_on next r).1
  after_reply next (problem text, w) h kept = h
  after_reply next (value a, w) h kept = kept a w h

  and_then :
      {A B : Type 0} (task : Task W A) (next : A → Task W B)
      → Keeps task
      → ((a : A) → Keeps (next a))
      → Keeps (task >>= next)
  and_then task next h kept w i = after_reply next (task w) (h w i) kept

  when_needed-Keeps :
      (b : Bool) (task : Task W (Unit {0})) → Keeps task → Keeps (when_needed b task)
  when_needed-Keeps true task h w i = h w i
  when_needed-Keeps false task h w i = i

  either-Keeps :
      {X : Type 0} (b : Bool) (f g : W → X × W) → Keeps f → Keeps g → Keeps (if b then f else g)
  either-Keeps true f g hf hg = hf
  either-Keeps false f g hf hg = hg

  workloads-Keeps :
      (t : OrgTasks W) (org : Org) (status : OrgStatus)
      → OrgTasksKeep t
      → Keeps (reconcile_workloads t org status)
  unfolding reconcile_workloads
  workloads-Keeps t org status (_, _, _, _, _, _, _, _, _, _, _, orderers, peers) =
      either-Keeps (not status.identity_ready) _ _ (λ w i. i)
        (and_then t.reconcile_orderers _ orderers
          (λ o. and_then t.reconcile_peers _ peers (λ p w i. i)))

  reconcile_org-Keeps : (t : OrgTasks W) (org : Org) → OrgTasksKeep t → Keeps (reconcile_org t org)
  unfolding reconcile_org
  reconcile_org-Keeps t org h =
      let (
        namespace, policy, absent, monitor, identity, ca, rotation, admin, workload, status,
        lifecycle, _, _,
      ) =
        h in
      and_then t.ensure_namespace _ namespace (λ _.
        and_then
          (if t.network_policy_enabled
            then t.ensure_network_policy
            else t.ensure_network_policy_absent)
          _ (either-Keeps t.network_policy_enabled _ _ policy absent)
          (λ _.
            and_then (when_needed t.service_monitor_enabled t.ensure_service_monitor) _
              (when_needed-Keeps t.service_monitor_enabled _ monitor)
              (λ _. and_then t.reconcile_identity_material _ identity (λ _.
                and_then t.reconcile_ca _ ca (λ c.
                  and_then (t.reconcile_ca_registrar_rotation c) _ (rotation c) (λ r.
                    and_then _ _
                      (when_needed-Keeps _ _
                        (and_then t.reconcile_admin_enrollment _ admin (λ _. workload)))
                      (λ _. and_then t.identity_material_status _ status (λ i.
                        and_then (t.reconcile_certificate_lifecycle c i.0 _) _ (lifecycle c i.0 _)
                          (λ l. workloads-Keeps t org (observed_org_status t org c r i l) h)))))))))

  orgs_from-Keeps :
      (tasks : Org → OrgTasks W)
      → ((org : Org) → OrgTasksKeep (tasks org))
      → (orgs : List Org) → Keeps (reconcile_orgs_from tasks orgs)
  unfolding reconcile_orgs_from
  orgs_from-Keeps tasks h [] w i = i
  orgs_from-Keeps tasks h (org ∷ orgs) w i =
      by_reply (reconcile_org (tasks org) org w) (reconcile_orgs_from tasks orgs)
        (reconcile_org-Keeps (tasks org) org (h org) w i) (orgs_from-Keeps tasks h orgs)
    where
      by_reply :
          (first : Reply OrgStatus × W) (more : W → (List OrgStatus × Failure) × W)
          → I first.1
          → Keeps more
          → I
              (elim first.0 as (λ _. (List OrgStatus × Failure) × W) [
                | problem text ↦ (([], some text), first.1)
                | value status ↦
                    ((status ∷ (more first.1).0.0, (more first.1).0.1), (more first.1).1)
              ]).1
      by_reply (problem text, v) more j k = j
      by_reply (value status, v) more j k = k v j

  pub reconcile_orgs-Keeps :
      (tasks : Org → OrgTasks W)
      → ((org : Org) → OrgTasksKeep (tasks org))
      → (net : FabricNetwork) → Keeps (reconcile_orgs tasks net)
  unfolding reconcile_orgs
  reconcile_orgs-Keeps tasks h net = orgs_from-Keeps tasks h net.spec.orgs
