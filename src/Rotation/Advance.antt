-- ===== src/Rotation/Advance.antt =====
-- The part of a rotation after its staged Secret is there.
use fabric_ops.Prelude.{
  String, Bool, true, false, Option, none, some, ◌≡◌, ◌≢◌, refl, sym, ap, ◌∙◌, inl, inr, ◌==◌, not,
  if◌then◌else◌, eq_iff,
}
use fabric_ops.Prelude.Maps.{Map, lookup}
use fabric_ops.Api.Spec.{FabricNetwork, Org}
use fabric_ops.Api.Status.{
  CaRegistrarRotationPhase, idle, waiting_for_ca, staging, rotating, ready, unset,
  CaRegistrarRotationStatus,
}
use fabric_ops.Cluster.Calls.{Secret, Job, World, Action, give, ◌>>◌}
use fabric_ops.Cluster.Objects.{job_failed, job_succeeded}
use fabric_ops.Cluster.Frames.{At, After, After-continue, After-weaken, get_job-At}
use fabric_ops.Cluster.Effects.{
  Holds, Stored, Secrets, upsert_secret_data-Stored, ensure_job-Secrets,
}
use fabric_ops.Rotation.Secrets.{
  build_ca_registrar_previous_secret, credential_secret, build_promoted_ca_registrar_secret,
  build_ca_registrar_rotation_job, enrollment_credential_secret_validation_error,
  credential_secret_username,
}
use fabric_ops.Rotation.Steps.{
  Outside, job_phase, ca_registrar_rotation_job_state, promote_ca_registrar_secret, rotate,
  early_status, advance,
}
use fabric_ops.Rotation.Promotion.{Retained, boot, previous, staged_name, job_name, Safe}

pub apart : (a b : String) → a ≢ b → (a == b) ≡ false
apart a b h = by_cases _ refl
  where
    by_cases : (t : Bool) → (a == b) ≡ t → (a == b) ≡ false
    by_cases true e = absurd (h ((eq_iff a b).0 e))
    by_cases false e = e

job_phase-ready :
    (found : Option Job)
    → (job_phase found).0 ≡ ready
    → (j : Job) × (found ≡ some j) × (job_failed j ≡ false) × (job_succeeded j ≡ true)
unfolding job_phase
job_phase-ready none h = absurd (cc)
job_phase-ready (some j) h =
    let tests = by_tests (job_failed j) (job_succeeded j) h in (j, refl, tests.0, tests.1)
  where
    by_tests :
        (is_failed is_done : Bool)
        → (if◌then◌else◌ {A = CaRegistrarRotationPhase × String} is_failed
            (
              CaRegistrarRotationPhase.failed,
              "Registrar rotation job failed; active bootstrap Secret was retained",
            )
            (if is_done
              then (ready, "Registrar rotation job completed")
              else (rotating, "Registrar rotation job is running"))).0
          ≡ ready
        → (is_failed ≡ false) × (is_done ≡ true)
    by_tests true d e = absurd (cc)
    by_tests false true e = (refl, refl)
    by_tests false false e = absurd (cc)

-- Without an early return the active Secret can be used.
early_status-none :
    (o : Outside) (net : FabricNetwork) (org : Org) (status : CaRegistrarRotationStatus)
    (ca_ready : Bool) (active staged : Secret) (request_id : String)
    → early_status o net org status ca_ready active staged request_id ≡ none
    → enrollment_credential_secret_validation_error active ≡ ""
unfolding early_status
early_status-none o net org status ca_ready active staged request_id h =
    (eq_iff (enrollment_credential_secret_validation_error active) "").0
      (by_test (enrollment_credential_secret_validation_error active == "") _ _ h)
  where
    by_test :
        (b : Bool) (s : CaRegistrarRotationStatus) (rest : Option CaRegistrarRotationStatus)
        → (if not b then some s else rest) ≡ none
        → b ≡ true
    by_test true s rest e = refl
    by_test false s rest e = absurd (cc)

module _ (o : Outside) (net : FabricNetwork) (org : Org) (request_id : String) where
  abbrev active_secret : String
  active_secret = boot o net org request_id

  abbrev previous_secret : String
  previous_secret = previous o net org request_id

  abbrev staged_secret : String
  staged_secret = staged_name o net org request_id

  abbrev rotation_job : String
  rotation_job = job_name o net org request_id

  abbrev SafeFrom : Map Secret → World → Type 0
  SafeFrom = Safe o net org request_id

  module _ (boot-previous : active_secret ≢ previous_secret)
      (boot-staged : active_secret ≢ staged_secret)
      (previous-staged : previous_secret ≢ staged_secret) where
    abbrev Moved : Map Secret → Map Job → Secret → Secret → Unit {0} → World → Type 0
    Moved ss js active staged _ w =
        (w.jobs ≡ js)
        × Holds previous_secret active.content w
        × Holds active_secret staged.content w
        × (lookup staged_secret w.secrets ≡ lookup staged_secret ss)

    promote-Moves :
        (ss : Map Secret) (js : Map Job) (active staged : Secret) (w : World)
        → At ss js w
        → After
            (Moved ss js active staged)
            (Retained active_secret ss)
            (promote_ca_registrar_secret o net org active staged request_id w)
    unfolding promote_ca_registrar_secret build_ca_registrar_previous_secret
        build_promoted_ca_registrar_secret credential_secret
    promote-Moves ss js active staged w h =
        After-continue (λ _. Stored ss js before) (At ss js) _ (Retained active_secret ss) _ _
          (upsert_secret_data-Stored ss js before w h) (λ v e. ap (λ m. lookup active_secret m) e.0)
          (λ _ v a.
            After-weaken (λ _. Stored v.secrets v.jobs after) (At v.secrets v.jobs) _
              (Retained active_secret ss) _
              (upsert_secret_data-Stored v.secrets v.jobs after v (refl, refl))
              (λ u e.
                ap (λ m. lookup active_secret m) e.0
                ∙ a.1 active_secret
                    (apart previous_secret active_secret (λ e. boot-previous (sym e))))
              (λ _ u b. (
                b.0 ∙ a.0,
                (
                  a.2.0,
                  b.1 previous_secret (apart active_secret previous_secret boot-previous) ∙ a.2.1,
                  a.2.2,
                ),
                b.2,
                b.1 staged_secret (apart active_secret staged_secret boot-staged)
                    ∙ a.1 staged_secret (apart previous_secret staged_secret previous-staged),
              )))
      where
        before : Secret
        before = build_ca_registrar_previous_secret o.hash o.digest net org active

        after : Secret
        after =
            build_promoted_ca_registrar_secret o.hash o.digest net org staged request_id
              (o.format_time o.now)

    module _
        (rbac : (ss : Map Secret) (js : Map Job) (w : World)
          → At ss js w
          → After (λ _. At ss js) (At ss js) (o.ensure_enrollment_rbac w)) where
      module _ (ss : Map Secret) (active staged : Secret)
          (was_active : lookup active_secret ss ≡ some active)
          (valid_active : enrollment_credential_secret_validation_error active ≡ "")
          (was_staged : lookup staged_secret ss ≡ some staged)
          (valid_staged : enrollment_credential_secret_validation_error staged ≡ "") where
        finish-Safe :
            (status : CaRegistrarRotationStatus) (state : CaRegistrarRotationPhase × String)
            (w : World)
            → Secrets ss w
            → (state.0 ≡ ready
                → (j : Job) × (lookup rotation_job w.jobs ≡ some j)
                  × (job_failed j ≡ false)
                  × (job_succeeded j ≡ true))
            → After
                (λ _. SafeFrom ss)
                (Retained active_secret ss)
                ((elim state.0 as (λ _. Action CaRegistrarRotationStatus) [
                  | ready ↦ (do
                    promote_ca_registrar_secret o net org active staged request_id
                    give (record status {
                      phase = ready;
                      active_username = credential_secret_username staged;
                      last_rotation_time = o.now;
                      message = "CA bootstrap registrar rotation completed";
                    }))
                  | _ ↦ give (record status { phase = state.0; message = state.1 })
                ])
                  w)
        finish-Safe status (ready, m) w h job =
            After-continue (Moved ss w.jobs active staged) (Retained active_secret ss)
              (λ _. SafeFrom ss) (Retained active_secret ss)
              (λ _. give (record status {
                phase = ready;
                active_username = credential_secret_username staged;
                last_rotation_time = o.now;
                message = "CA bootstrap registrar rotation completed";
              }))
              (promote_ca_registrar_secret o net org active staged request_id w)
              (promote-Moves ss w.jobs active staged w (h, refl)) (λ v e. e)
              (λ _ v a.
                let (j, found, not_failed, succeeded) = job refl in
                inr (
                  active,
                  staged,
                  was_active,
                  valid_active,
                  (j, ap (λ m. lookup rotation_job m) a.0 ∙ found, not_failed, succeeded),
                  a.1,
                  a.3 ∙ was_staged,
                  valid_staged,
                  a.2,
                ))
        finish-Safe status (idle, m) w h job = inl (ap (λ m. lookup active_secret m) h)
        finish-Safe status (waiting_for_ca, m) w h job = inl (ap (λ m. lookup active_secret m) h)
        finish-Safe status (staging, m) w h job = inl (ap (λ m. lookup active_secret m) h)
        finish-Safe status (rotating, m) w h job = inl (ap (λ m. lookup active_secret m) h)
        finish-Safe status (CaRegistrarRotationPhase.failed, m) w h job =
            inl (ap (λ m. lookup active_secret m) h)
        finish-Safe status (unset, m) w h job = inl (ap (λ m. lookup active_secret m) h)

        job_state-Ready :
            (w : World)
            → Secrets ss w
            → After
                (λ (state : CaRegistrarRotationPhase × String) v.
                  Secrets ss v
                  × (state.0 ≡ ready
                      → (j : Job) × (lookup rotation_job v.jobs ≡ some j)
                        × (job_failed j ≡ false)
                        × (job_succeeded j ≡ true)))
                (Secrets ss)
                (ca_registrar_rotation_job_state rotation_job w)
        unfolding ca_registrar_rotation_job_state
        job_state-Ready w h =
            After-continue (λ found v. (found ≡ lookup rotation_job w.jobs) × At ss w.jobs v)
              (At ss w.jobs) _ (Secrets ss) _ _ (get_job-At ss w.jobs rotation_job w (h, refl))
              (λ v e. e.0)
              (λ found v a. (
                a.1.0,
                λ is_ready.
                    let (j, e, not_failed, succeeded) = job_phase-ready found is_ready in
                    (j, ap (λ m. lookup rotation_job m) a.1.1 ∙ sym a.0 ∙ e, not_failed, succeeded),
              ))

        rotate-Safe :
            (status : CaRegistrarRotationStatus) (w : World)
            → Secrets ss w
            → After
                (λ _. SafeFrom ss)
                (Retained active_secret ss)
                (rotate o net org status active staged request_id w)
        unfolding rotate
        rotate-Safe status w h =
            After-continue (λ _. At ss w.jobs) (At ss w.jobs) (λ _. SafeFrom ss)
              (Retained active_secret ss) _ _ (rbac ss w.jobs w (h, refl))
              (λ v e. ap (λ m. lookup active_secret m) e.0)
              (λ _ v a.
                After-continue (λ _. Secrets ss) (Secrets ss) (λ _. SafeFrom ss)
                  (Retained active_secret ss) _ _
                  (ensure_job-Secrets ss
                    (build_ca_registrar_rotation_job o.hash o.digest net org request_id) v a.0)
                  (λ u e. ap (λ m. lookup active_secret m) e)
                  (λ _ u b.
                    After-continue _ (Secrets ss) (λ _. SafeFrom ss) (Retained active_secret ss) _ _
                      (job_state-Ready u b) (λ t e. ap (λ m. lookup active_secret m) e)
                      (λ state t c. finish-Safe status state t c.0 c.1)))

      pub advance-Safe :
          (ss : Map Secret) (active staged : Secret)
          → lookup active_secret ss ≡ some active
          → lookup staged_secret ss ≡ some staged
          → enrollment_credential_secret_validation_error staged ≡ ""
          → (status : CaRegistrarRotationStatus) (ca_ready : Bool) (w : World) → Secrets ss w
          → After
              (λ _. SafeFrom ss)
              (Retained active_secret ss)
              (advance o net org status ca_ready active staged request_id w)
      unfolding advance
      advance-Safe ss active staged was_active was_staged valid_staged status ca_ready w h =
          by_return _ refl
        where
          by_return :
              (early : Option CaRegistrarRotationStatus)
              → early_status o net org status ca_ready active staged request_id ≡ early
              → After
                  (λ _. SafeFrom ss)
                  (Retained active_secret ss)
                  ((elim early as (λ _. Action CaRegistrarRotationStatus) [
                    | some returned ↦ give returned
                    | none ↦ rotate o net org status active staged request_id
                  ])
                    w)
          by_return (some s) e = inl (ap (λ m. lookup active_secret m) h)
          by_return none e =
              rotate-Safe ss active staged was_active
                (early_status-none o net org status ca_ready active staged request_id e) was_staged
                valid_staged status w h
          -- The password that is drawn makes credentials that can be used.
