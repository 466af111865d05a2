-- ===== src/Rotation/Reconcile.antt =====
-- The whole of `reconcileCARegistrarRotation`.
use fabric_ops.Prelude.{
  String, Bool, true, false, Option, none, some, ◌≡◌, ◌≢◌, refl, sym, ap, ◌∙◌, inl, ◌==◌,
  if◌then◌else◌,
}
use fabric_ops.Prelude.Maps.{Map, lookup}
use fabric_ops.Api.Spec.{FabricNetwork, Org}
use fabric_ops.Api.Status.{CaRegistrarRotationPhase, CaRegistrarRotationStatus}
use fabric_ops.Cluster.Calls.{
  Secret, Job, World, Outcome, failed, done, Action, continue, get_secret, give, ◌>>=◌,
}
use fabric_ops.Cluster.Frames.{At, After, After-continue, After-weaken, get_secret-At}
use fabric_ops.Cluster.Effects.{Others, Kept, Good, ensure_secret-Good}
use fabric_ops.Rotation.Secrets.{
  build_ca_registrar_staged_secret, enrollment_credential_secret_validation_error,
  ca_registrar_rotation_request_id,
}
use fabric_ops.Rotation.Steps.{
  Outside, or_zero, ensure_ca_registrar_staged_secret, observed_status, requested_status, advance,
  reconcile_ca_registrar_rotation,
}
use fabric_ops.Rotation.Promotion.{
  Retained, boot, previous, staged_name, job_name, Safe, from_staged, DistinctNames, LeavesObjects,
  DrawsUsable,
}
use fabric_ops.Rotation.Advance.{apart, advance-Safe}

validation-content :
    (s t : Secret)
    → s.content ≡ t.content
    → enrollment_credential_secret_validation_error s
      ≡ enrollment_credential_secret_validation_error t
unfolding enrollment_credential_secret_validation_error
validation-content s t e =
    ap (λ c. enrollment_credential_secret_validation_error (record s { content = c })) e

either_way :
    {A : Type 0} (P Q : World → Type 0) (r : Outcome A × World)
    → After (λ _. P) Q r
    → ((w : World) → Q w → P w)
    → P r.1
either_way P Q (failed f, w) h weaken = weaken w h
either_way P Q (done a, w) h weaken = h

module _ (o : Outside) (net : FabricNetwork) (org : Org) (request_id : String) where
  abbrev active_secret : String
  active_secret = boot o net org request_id

  abbrev previous_secret : String
  previous_secret = previous o net org request_id

  abbrev staged_secret : String
  staged_secret = staged_name o net org request_id

  abbrev rotation_job : String
  rotation_job = job_name o net org request_id

  abbrev SafeFrom : Map Secret → World → Type 0
  SafeFrom = Safe o net org request_id

  module _ (boot-previous : active_secret ≢ previous_secret)
      (boot-staged : active_secret ≢ staged_secret)
      (previous-staged : previous_secret ≢ staged_secret) where
    module _
        (rbac : (ss : Map Secret) (js : Map Job) (w : World)
          → At ss js w
          → After (λ _. At ss js) (At ss js) (o.ensure_enrollment_rbac w)) where
      module _
          (password : (p : String)
            → o.password ≡ some p
            → enrollment_credential_secret_validation_error
                (build_ca_registrar_staged_secret o.hash o.digest net org request_id p)
              ≡ "") where
        abbrev Staged : Map Secret → Secret → World → Type 0
        Staged ss s w =
            Others ss staged_secret w
            × (lookup staged_secret w.secrets ≡ some s)
            × (enrollment_credential_secret_validation_error s ≡ "")

        read_back :
            (ss : Map Secret) (js : Map Job) (w : World)
            → Kept ss js staged_secret w
            → Good enrollment_credential_secret_validation_error staged_secret w
            → After
                (Staged ss)
                (Retained active_secret ss)
                (continue (λ found. give (or_zero found)) (get_secret staged_secret w))
        read_back ss js w kept (s, there, good) =
            After-continue
              (λ found v. (found ≡ lookup staged_secret w.secrets) × At w.secrets w.jobs v)
              (At w.secrets w.jobs) (Staged ss) (Retained active_secret ss) _ _
              (get_secret-At w.secrets w.jobs staged_secret w (refl, refl))
              (λ v e.
                ap (λ m. lookup active_secret m) e.0
                ∙ kept.1 active_secret
                    (apart staged_secret active_secret (λ e. boot-staged (sym e))))
              (λ found v a.
                let is_s = ap or_zero (a.0 ∙ there) in
                (
                  λ n e. ap (λ m. lookup n m) a.1.0 ∙ kept.1 n e,
                  ap (λ m. lookup staged_secret m) a.1.0 ∙ there ∙ ap some (sym is_s),
                  ap enrollment_credential_secret_validation_error is_s ∙ good,
                ))

        first_steps :
            (drawn : Option String)
            → o.password ≡ drawn
            → (ss : Map Secret) (js : Map Job) (w : World) → At ss js w
            → After
                (Staged ss)
                (Retained active_secret ss)
                (ensure_ca_registrar_staged_secret o net org request_id w)
        unfolding ensure_ca_registrar_staged_secret
        first_steps none e ss js w h = rw e (ap (λ m. lookup active_secret m) h.0)
        first_steps (some p) e ss js w h = rw e (
            After-continue _ (At ss js) (Staged ss) (Retained active_secret ss) _ _
              (ensure_secret-Good ss js
                (build_ca_registrar_staged_secret o.hash o.digest net org request_id p)
                enrollment_credential_secret_validation_error (password p e) validation-content w h)
              (λ v a. ap (λ m. lookup active_secret m) a.0) (λ _ v a. read_back ss js v a.0 a.1))

        next_steps :
            (active : Option Secret) (ss : Map Secret)
            → active ≡ lookup active_secret ss
            → (staged : Secret) (ca_ready : Bool) (w : World) → Staged ss staged w
            → After
                (λ _. SafeFrom ss)
                (Retained active_secret ss)
                ((elim active as (λ _. Action CaRegistrarRotationStatus) [
                  | none ↦ give (record (requested_status o net org none request_id) {
                    phase = CaRegistrarRotationPhase.failed;
                    message = "Active CA bootstrap Secret is missing";
                  })
                  | some s ↦
                      advance o net org
                        (requested_status o net org (some s) request_id)
                        ca_ready
                        s
                        staged
                        request_id
                ])
                  w)
        next_steps none ss e staged ca_ready w h =
            inl (h.0 active_secret (apart staged_secret active_secret (λ e. boot-staged (sym e))))
        next_steps (some s) ss e staged ca_ready w h =
            let kept =
              h.0 active_secret (apart staged_secret active_secret (λ e. boot-staged (sym e))) in
            After-weaken (λ _. SafeFrom w.secrets) (Retained active_secret w.secrets)
              (λ _. SafeFrom ss) (Retained active_secret ss) _
              (advance-Safe o net org request_id boot-previous boot-staged previous-staged rbac
                w.secrets s staged (kept ∙ sym e) h.1 h.2
                (requested_status o net org (some s) request_id) ca_ready w refl)
              (λ v a. a ∙ kept) (λ _ v a. from_staged o net org request_id w.secrets ss v kept a)

        all_steps :
            (is_idle : Bool) (idle_status : CaRegistrarRotationStatus) (active : Option Secret)
            (ss : Map Secret) (js : Map Job)
            → active ≡ lookup active_secret ss
            → (ca_ready : Bool) (w : World) → At ss js w
            → After
                (λ _. SafeFrom ss)
                (Retained active_secret ss)
                ((if is_idle then give idle_status else (do
                  staged ← ensure_ca_registrar_staged_secret o net org request_id
                  elim active as (λ _. Action CaRegistrarRotationStatus) [
                    | none ↦ give (record (requested_status o net org none request_id) {
                      phase = CaRegistrarRotationPhase.failed;
                      message = "Active CA bootstrap Secret is missing";
                    })
                    | some s ↦
                        advance o net org
                          (requested_status o net org (some s) request_id)
                          ca_ready
                          s
                          staged
                          request_id
                  ]))
                  w)
        all_steps true idle_status active ss js e ca_ready w h =
            inl (ap (λ m. lookup active_secret m) h.0)
        all_steps false idle_status active ss js e ca_ready w h =
            After-continue (Staged ss) (Retained active_secret ss) (λ _. SafeFrom ss)
              (Retained active_secret ss) _ _ (first_steps o.password refl ss js w h) (λ v a. a)
              (λ staged v a. next_steps active ss e staged ca_ready v a)

-- Whatever the API server answers to the calls of reconcileCARegistrarRotation, afterwards
-- either the active Secret of the certificate authority is as it was; or it was there with
-- credentials that can be used, the rotation Job is there, has succeeded and has not failed,
-- the staged Secret is there with credentials that can be used, and both the previous Secret
-- holds the content that the active one had and the active Secret holds that of the staged
-- one, where content that secretDataEqual takes for the same is not written again. It is
-- assumed that the three names differ, that writing the roles changes no Secret and no Job,
-- and that a password that is drawn gives credentials that can be used.
pub reconcile_ca_registrar_rotation-Safe :
    (o : Outside) (net : FabricNetwork) (org : Org)
    → DistinctNames o net org (ca_registrar_rotation_request_id org)
    → LeavesObjects o net org
    → DrawsUsable o net org (ca_registrar_rotation_request_id org)
    → (ca_ready : Bool) (w : World)
    → Safe o net org
        (ca_registrar_rotation_request_id org)
        w.secrets
        (reconcile_ca_registrar_rotation o net org ca_ready w).1
unfolding reconcile_ca_registrar_rotation
reconcile_ca_registrar_rotation-Safe o net org names rbac password ca_ready w =
    let request = ca_registrar_rotation_request_id org in
    let name = boot o net org request in
    either_way (Safe o net org request w.secrets) (Retained name w.secrets)
      (reconcile_ca_registrar_rotation o net org ca_ready w)
      (After-continue (λ found v. (found ≡ lookup name w.secrets) × At w.secrets w.jobs v)
        (At w.secrets w.jobs) (λ _. Safe o net org request w.secrets) (Retained name w.secrets) _ _
        (get_secret-At w.secrets w.jobs name w (refl, refl)) (λ v e. ap (λ m. lookup name m) e.0)
        (λ active v a.
          After-continue
            (λ found u.
              (found ≡ lookup (previous o net org request) w.secrets) × At w.secrets w.jobs u)
            (At w.secrets w.jobs) (λ _. Safe o net org request w.secrets) (Retained name w.secrets)
            _ _ (get_secret-At w.secrets w.jobs (previous o net org request) v a.1)
            (λ u e. ap (λ m. lookup name m) e.0)
            (λ found u b.
              all_steps o net org request names.0 names.1 names.2 rbac password (request == "")
                (observed_status o net org active found) active w.secrets w.jobs a.0 ca_ready u
                b.1)))
      (λ v a. inl a)
