-- ===== src/Rotation/Promotion.antt =====
-- When `reconcileCARegistrarRotation` replaces the active Secret: the names, and what holds of the Secrets then.
use fabric_ops.Prelude.{String, true, false, some, ◌≡◌, ◌≢◌, sym, ◌∙◌, ◌⊎◌, inl, inr}
use fabric_ops.Prelude.Maps.{Map, lookup}
use fabric_ops.Api.Spec.{FabricNetwork, Org}
use fabric_ops.Cluster.Calls.{Secret, Job, World}
use fabric_ops.Cluster.Objects.{job_failed, job_succeeded}
use fabric_ops.Cluster.Frames.{At, After}
use fabric_ops.Cluster.Effects.{Holds}
use fabric_ops.Rotation.Secrets.{
  ca_bootstrap_secret_name, ca_registrar_staged_secret_name, ca_registrar_previous_secret_name,
  ca_registrar_rotation_job_name, build_ca_registrar_staged_secret,
  enrollment_credential_secret_validation_error,
}
use fabric_ops.Rotation.Steps.{Outside}

-- The active Secret of `before` was usable, the Job has succeeded, and the Secrets have moved on by one place.
abbrev pub Promotion : String → String → String → String → Map Secret → World → Type 0
Promotion active previous staged job before w =
    (old : Secret) × (new : Secret) × (lookup active before ≡ some old)
    × (enrollment_credential_secret_validation_error old ≡ "")
    × ((j : Job) × (lookup job w.jobs ≡ some j) × (job_failed j ≡ false) × (job_succeeded j ≡ true))
    × Holds previous old.content w
    × (lookup staged w.secrets ≡ some new)
    × (enrollment_credential_secret_validation_error new ≡ "")
    × Holds active new.content w

abbrev pub Retained : String → Map Secret → World → Type 0
Retained active before w = lookup active w.secrets ≡ lookup active before

module _ (o : Outside) (net : FabricNetwork) (org : Org) (request_id : String) where
  abbrev pub boot : String
  boot = ca_bootstrap_secret_name o.hash o.digest org

  abbrev pub previous : String
  previous = ca_registrar_previous_secret_name o.hash o.digest org

  abbrev pub staged_name : String
  staged_name = ca_registrar_staged_secret_name o.hash o.digest org request_id

  abbrev pub job_name : String
  job_name = ca_registrar_rotation_job_name o.hash o.digest org request_id

  abbrev pub Safe : Map Secret → World → Type 0
  Safe ss w = Retained boot ss w ⊎ Promotion boot previous staged_name job_name ss w

  pub from_staged :
      (ts ss : Map Secret) (w : World) → lookup boot ts ≡ lookup boot ss → Safe ts w → Safe ss w
  from_staged ts ss w e (inl kept) = inl (kept ∙ e)
  from_staged ts ss w e (inr (old, new, was, valid, job, before, staged, good, after)) =
      inr (old, new, sym e ∙ was, valid, job, before, staged, good, after)

module _ (o : Outside) (net : FabricNetwork) (org : Org) where
  abbrev pub DistinctNames : String → Type 0
  DistinctNames id =
      (boot o net org id ≢ previous o net org id)
      × (boot o net org id ≢ staged_name o net org id)
      × (previous o net org id ≢ staged_name o net org id)

  abbrev pub LeavesObjects : Type 0
  LeavesObjects =
      (ss : Map Secret) (js : Map Job) (w : World)
      → At ss js w
      → After (λ _. At ss js) (At ss js) (o.ensure_enrollment_rbac w)

  abbrev pub DrawsUsable : String → Type 0
  DrawsUsable id =
      (p : String)
      → o.password ≡ some p
      → enrollment_credential_secret_validation_error
          (build_ca_registrar_staged_secret o.hash o.digest net org id p)
        ≡ ""
