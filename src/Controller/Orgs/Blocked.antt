-- ===== src/Controller/Orgs/Blocked.antt =====
-- While the registrar is being rotated, nothing is enrolled.
use fabric_ops.Prelude.{Bool, true, false, not, ◌&&◌, ◌≡◌, refl, if◌then◌else◌}
use fabric_ops.Api.Spec.{Org}
use fabric_ops.Rotation.Steps.{ca_registrar_rotation_blocks_work}
use fabric_ops.Controller.Tasks.{Task, ◌>>◌, when_needed, Gives}
use fabric_ops.Controller.Tasks.Agree.{Agree, bind_known, bind_any}
use fabric_ops.Controller.Orgs.{OrgTasks, reconcile_org}

-- The tasks with other enrollments.
abbrev pub with_enrollments :
    {W : Type 0} → OrgTasks W → Task W (Unit {0}) → Task W (Unit {0}) → OrgTasks W
with_enrollments t admin workloads = record t {
  reconcile_admin_enrollment = admin;
  reconcile_workload_enrollments = workloads;
}

module _ {W : Type 0} where
  skip_task :
      {B : Type 0} (c b : Bool) (task other : Task W (Unit {0})) (next : Task W B)
      → b ≡ true
      → Agree (when_needed (c && not b) task >> next) (when_needed (c && not b) other >> next)
  skip_task true true task other next e w = refl
  skip_task false true task other next e w = refl
  skip_task c false task other next e w = absurd (cc)

  -- Where the registrar rotation of an organization blocks work whatever the state of its
  -- certificate authority, reconcileOrg ends in the same way and in the same world with any
  -- other tasks for the enrollment of the admin and of the workloads: it runs neither.
  pub reconcile_org-Blocked :
      (t : OrgTasks W) (admin workloads : Task W (Unit {0})) (org : Org)
      → ((ca_ready : Bool) (w : W)
          → Gives
              (λ r. ca_registrar_rotation_blocks_work r ≡ true)
              (t.reconcile_ca_registrar_rotation ca_ready w))
      → (w : W) → reconcile_org (with_enrollments t admin workloads) org w ≡ reconcile_org t org w
  unfolding reconcile_org
  reconcile_org-Blocked t admin workloads org blocks = bind_any t.ensure_namespace _ _ (λ _.
      bind_any
        (if t.network_policy_enabled
          then t.ensure_network_policy
          else t.ensure_network_policy_absent)
        _ _
        (λ _. bind_any (when_needed t.service_monitor_enabled t.ensure_service_monitor) _ _ (λ _.
          bind_any t.reconcile_identity_material _ _ (λ _. bind_any t.reconcile_ca _ _ (λ c.
            bind_known (λ r. ca_registrar_rotation_blocks_work r ≡ true)
              (t.reconcile_ca_registrar_rotation c) _ _ (blocks c)
              (λ r b.
                skip_task c (ca_registrar_rotation_blocks_work r) (admin >> workloads)
                  (t.reconcile_admin_enrollment >> t.reconcile_workload_enrollments) _ b))))))
