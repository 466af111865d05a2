-- ===== src/Rotation/Steps.antt =====
-- `reconcileCARegistrarRotation` of internal/controller/fabricnetwork_ca_registrar_rotation.go, call by
-- call. The status that comes with an error is left out: its caller drops it. Parameters: the random
-- password (`none` where it cannot be read), the clock, how a time is written and read, and
-- `ensureEnrollmentRBAC`, which writes roles.
use fabric_ops.Prelude.{
  ℕ, String, Bool, true, false, not, [], Option, none, some, ◌==◌, if◌then◌else◌,
}
use fabric_ops.Text.{◌<>◌}
use fabric_ops.Api.Spec.{FabricNetwork, Org}
use fabric_ops.Api.Status.{
  CaRegistrarRotationPhase, idle, waiting_for_ca, staging, rotating, ready,
  CaRegistrarRotationStatus,
}
use fabric_ops.Cluster.Calls.{
  Secret, Job, Action, give, fail, ◌>>=◌, ◌>>◌, get_secret, get_job, no_password,
}
use fabric_ops.Cluster.Objects.{read_text, job_failed, job_succeeded}
use fabric_ops.Cluster.Writes.{ensure_secret, ensure_job, upsert_secret_data}
use fabric_ops.Rotation.Secrets.{
  annotation_rotation_time, ca_bootstrap_secret_name, ca_registrar_staged_secret_name,
  ca_registrar_previous_secret_name, ca_registrar_rotation_job_name,
  build_ca_registrar_staged_secret, build_ca_registrar_previous_secret,
  build_promoted_ca_registrar_secret, build_ca_registrar_rotation_job,
  enrollment_credential_secret_validation_error, ca_registrar_rotation_promoted,
  ca_registrar_rotation_request_id, credential_secret_username,
}

-- A Secret that is not there is the zero Secret.
abbrev pub or_zero : Option Secret → Secret
or_zero none = record {
  meta = record { name = ""; labels = []; annotations = [] };
  kind = "";
  content = [];
}
or_zero (some s) = s

unfoldable pub ca_registrar_rotation_blocks_work : CaRegistrarRotationStatus → Bool
ca_registrar_rotation_blocks_work status = elim status.phase [
  | waiting_for_ca ↦ true
  | staging ↦ true
  | rotating ↦ true
  | _ ↦ false
]

unfoldable pub job_phase : Option Job → CaRegistrarRotationPhase × String
unfolding job_failed job_succeeded
job_phase none = (staging, "Registrar rotation job is pending")
job_phase (some job) =
    if job_failed job
    then (
      CaRegistrarRotationPhase.failed,
      "Registrar rotation job failed; active bootstrap Secret was retained",
    )
    else if job_succeeded job
    then (ready, "Registrar rotation job completed")
    else (rotating, "Registrar rotation job is running")

unfoldable pub ca_registrar_rotation_job_state : String → Action (CaRegistrarRotationPhase × String)
unfolding get_job job_phase
ca_registrar_rotation_job_state name = do found ← get_job name; give (job_phase found)

module _ (parse_time : String → Option ℕ) where
  -- 0 where there is no time that can be read.
  unfoldable pub ca_registrar_secret_rotation_time : Secret → ℕ
  ca_registrar_secret_rotation_time s =
      let text = read_text annotation_rotation_time s.meta.annotations in
      if text == "" then 0 else elim (parse_time text) [ none ↦ 0 | some t ↦ t ]

-- What is not the program's, or writes no Secret and no Job.
pub record Outside : Type 0 where
  pub hash : String → String
  pub digest : String → String
  pub password : Option String
  pub now : ℕ
  pub format_time : ℕ → String
  pub parse_time : String → Option ℕ
  pub ensure_enrollment_rbac : Action (Unit {0})

module _ (o : Outside) (net : FabricNetwork) (org : Org) where
  unfoldable pub ensure_ca_registrar_staged_secret : String → Action Secret
  unfolding get_secret ensure_secret build_ca_registrar_staged_secret
      enrollment_credential_secret_validation_error
  ensure_ca_registrar_staged_secret request_id = elim o.password [
    | none ↦ fail no_password
    | some password ↦ (do
      ensure_secret (build_ca_registrar_staged_secret o.hash o.digest net org request_id password)
          enrollment_credential_secret_validation_error
      found ← get_secret (ca_registrar_staged_secret_name o.hash o.digest org request_id)
      give (or_zero found))
  ]

  unfoldable pub promote_ca_registrar_secret : Secret → Secret → String → Action (Unit {0})
  unfolding upsert_secret_data build_ca_registrar_previous_secret build_promoted_ca_registrar_secret
  promote_ca_registrar_secret active staged request_id = do
    upsert_secret_data (build_ca_registrar_previous_secret o.hash o.digest net org active)
    upsert_secret_data (
        build_promoted_ca_registrar_secret o.hash o.digest net org staged request_id
          (o.format_time o.now))

  -- The status before the request is looked at.
  unfoldable pub observed_status : Option Secret → Option Secret → CaRegistrarRotationStatus
  unfolding ca_bootstrap_secret_name ca_registrar_previous_secret_name
      ca_registrar_rotation_request_id credential_secret_username ca_registrar_secret_rotation_time
  observed_status active previous = record {
    observed_request_id = ca_registrar_rotation_request_id org;
    phase = idle;
    active_secret_name = ca_bootstrap_secret_name o.hash o.digest org;
    active_username = elim active [ none ↦ "" | some s ↦ credential_secret_username s ];
    previous_secret_name = elim previous [
      | none ↦ ""
      | some _ ↦ ca_registrar_previous_secret_name o.hash o.digest org
    ];
    staged_secret_name = "";
    rotation_job_name = "";
    last_rotation_time = elim active [
      | none ↦ 0
      | some s ↦ ca_registrar_secret_rotation_time o.parse_time s
    ];
    message = "";
  }

  -- The status of a request, before its phase is known.
  unfoldable pub requested_status : Option Secret → String → CaRegistrarRotationStatus
  unfolding observed_status ca_registrar_staged_secret_name ca_registrar_previous_secret_name
      ca_registrar_rotation_job_name
  requested_status active request_id = record (observed_status active none) {
    previous_secret_name = ca_registrar_previous_secret_name o.hash o.digest org;
    staged_secret_name = ca_registrar_staged_secret_name o.hash o.digest org request_id;
    rotation_job_name = ca_registrar_rotation_job_name o.hash o.digest org request_id;
  }

  -- From the Job to the promotion.
  unfoldable pub rotate :
      CaRegistrarRotationStatus → Secret → Secret → String → Action CaRegistrarRotationStatus
  unfolding ensure_job build_ca_registrar_rotation_job ca_registrar_rotation_job_state
      promote_ca_registrar_secret credential_secret_username
  rotate status active staged request_id = do
    o.ensure_enrollment_rbac
    ensure_job (build_ca_registrar_rotation_job o.hash o.digest net org request_id)
    state ←
        ca_registrar_rotation_job_state
          (ca_registrar_rotation_job_name o.hash o.digest org request_id)
    elim state.0 as (λ _. Action CaRegistrarRotationStatus) [
      | ready ↦ (do
        promote_ca_registrar_secret active staged request_id
        give (record status {
          phase = ready;
          active_username = credential_secret_username staged;
          last_rotation_time = o.now;
          message = "CA bootstrap registrar rotation completed";
        }))
      | _ ↦ give (record status { phase = state.0; message = state.1 })
    ]

  -- The status of a return before the Job is looked at.
  unfoldable pub early_status :
      CaRegistrarRotationStatus → Bool → Secret → Secret → String → Option CaRegistrarRotationStatus
  unfolding enrollment_credential_secret_validation_error ca_registrar_rotation_promoted
      credential_secret_username
  early_status status ca_ready active staged request_id =
      let reason = enrollment_credential_secret_validation_error active in
      if not (reason == "")
      then some (record status {
        phase = CaRegistrarRotationPhase.failed;
        message = "Active CA bootstrap Secret is invalid: " <> reason;
      })
      else if ca_registrar_rotation_promoted active staged request_id
      then some (record status {
        phase = ready;
        active_username = credential_secret_username active;
        message = "CA bootstrap registrar rotation completed";
      })
      else if not ca_ready
      then some (record status {
        phase = waiting_for_ca;
        message = "Waiting for Fabric CA readiness before rotating the bootstrap registrar";
      })
      else none

  -- What is done with the active Secret once there is a staged one.
  unfoldable pub advance :
      CaRegistrarRotationStatus → Bool → Secret → Secret → String → Action CaRegistrarRotationStatus
  unfolding rotate early_status
  advance status ca_ready active staged request_id =
      elim (early_status status ca_ready active staged request_id) [
        | some returned ↦ give returned
        | none ↦ rotate status active staged request_id
      ]

  unfoldable pub reconcile_ca_registrar_rotation : Bool → Action CaRegistrarRotationStatus
  unfolding get_secret ca_bootstrap_secret_name ca_registrar_previous_secret_name
      ca_registrar_rotation_request_id ensure_ca_registrar_staged_secret observed_status
      requested_status advance
  reconcile_ca_registrar_rotation ca_ready = do
    active ← get_secret (ca_bootstrap_secret_name o.hash o.digest org)
    previous ← get_secret (ca_registrar_previous_secret_name o.hash o.digest org)
    (if ca_registrar_rotation_request_id org == ""
        then give (observed_status active previous)
        else (do
          staged ← ensure_ca_registrar_staged_secret (ca_registrar_rotation_request_id org)
          elim active [
            | none ↦ give (record (requested_status none (ca_registrar_rotation_request_id org)) {
              phase = CaRegistrarRotationPhase.failed;
              message = "Active CA bootstrap Secret is missing";
            })
            | some s ↦
                advance (requested_status (some s) (ca_registrar_rotation_request_id org)) ca_ready
                  s staged (ca_registrar_rotation_request_id org)
          ]))
