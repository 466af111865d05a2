-- ===== src/Certificates/Condition.antt =====
-- The condition on the certificates of a network: `certificateLifecycleConditionStatus` and its tables
-- in internal/controller/fabricnetwork_certificate_lifecycle.go, and those of the registrar's rotation
-- in fabricnetwork_ca_registrar_rotation.go.
pub mod Priority
pub mod Quiet
use fabric_ops.Prelude.{
  ℕ, ◌+◌, ◌-◌, String, Bool, true, false, not, ◌&&◌, ◌||◌, List, [], ◌∷◌, ◌++◌, Option, none, some,
  ◌==◌, ltb, leb, length, if◌then◌else◌,
}
use fabric_ops.Text.{◌<>◌, itoa}
use fabric_ops.Api.Status.{
  CertificateState, valid, renewal_due, renewing, renewal_failed, expired, missing, invalid, other,
  CertificateStatus, CaRegistrarRotationPhase, idle, waiting_for_ca, staging, rotating, ready,
  failed, unset, CaRegistrarRotationStatus, OrgStatus,
}

abbrev pub state_text : CertificateState → String
state_text valid = "Valid"
state_text renewal_due = "RenewalDue"
state_text renewing = "Renewing"
state_text renewal_failed = "RenewalFailed"
state_text expired = "Expired"
state_text missing = "Missing"
state_text invalid = "Invalid"
state_text (other s) = s

abbrev pub phase_text : CaRegistrarRotationPhase → String
phase_text idle = "Idle"
phase_text waiting_for_ca = "WaitingForCA"
phase_text staging = "Staging"
phase_text rotating = "Rotating"
phase_text ready = "Ready"
phase_text failed = "Failed"
phase_text unset = ""

unfoldable pub certificate_reason : CertificateState → String
certificate_reason renewal_failed = "CertificateRenewalFailed"
certificate_reason expired = "CertificateExpired"
certificate_reason invalid = "CertificateMaterialInvalid"
certificate_reason missing = "CertificateMaterialMissing"
certificate_reason renewing = "CertificateRenewalRunning"
certificate_reason renewal_due = "CertificateRenewalRequired"
certificate_reason _ = "CertificateLifecyclePending"

unfoldable pub certificate_state_priority : CertificateState → ℕ
certificate_state_priority renewal_failed = 60
certificate_state_priority expired = 50
certificate_state_priority invalid = 40
certificate_state_priority missing = 30
certificate_state_priority renewing = 20
certificate_state_priority renewal_due = 10
certificate_state_priority _ = 0

unfoldable pub certificate_reason_priority : String → ℕ
certificate_reason_priority reason =
    if reason == "CARegistrarRotationFailed"
    then 70
    else if reason == "CertificateRenewalFailed"
    then 60
    else if reason == "CertificateExpired"
    then 50
    else if reason == "CertificateMaterialInvalid"
    then 40
    else if reason == "CertificateMaterialMissing"
    then 30
    else if reason == "CARegistrarRotationWaitingForCA"
        || reason == "CARegistrarRotationStaging"
        || reason == "CARegistrarRotationRunning"
    then 25
    else if reason == "CertificateRenewalRunning"
    then 20
    else if reason == "CertificateRenewalRequired"
    then 10
    else 0

unfoldable pub ca_registrar_rotation_reason : CaRegistrarRotationPhase → String
ca_registrar_rotation_reason failed = "CARegistrarRotationFailed"
ca_registrar_rotation_reason waiting_for_ca = "CARegistrarRotationWaitingForCA"
ca_registrar_rotation_reason staging = "CARegistrarRotationStaging"
ca_registrar_rotation_reason rotating = "CARegistrarRotationRunning"
ca_registrar_rotation_reason _ = "CARegistrarRotationPending"

-- `head`, then the Job and the message when there is one.
abbrev pub with_details : (head job message : String) → String
with_details head job message =
    head
    <> (if job == "" then "" else " via Job " <> job)
    <> (if message == "" then "" else ": " <> message)

rotation_message : String → CaRegistrarRotationStatus → String
rotation_message org s =
    with_details (org <> " CA registrar rotation " <> phase_text s.phase) s.rotation_job_name
      s.message

-- The problem and its priority, `none` where the source returns false.
unfoldable pub ca_registrar_rotation_condition_problem :
    String → CaRegistrarRotationStatus → Option (String × ℕ)
unfolding rotation_message
ca_registrar_rotation_condition_problem org s = elim s.phase [
  | failed ↦ some (rotation_message org s, 70)
  | waiting_for_ca ↦ some (rotation_message org s, 25)
  | staging ↦ some (rotation_message org s, 25)
  | rotating ↦ some (rotation_message org s, 25)
  | _ ↦ none
]

unfoldable pub certificate_problem_message : String → CertificateStatus → String
certificate_problem_message org c =
    with_details (org <> " " <> c.name <> " " <> state_text c.state) c.renewal_job_name c.message

-- The states that the loop passes over.
unfoldable pub is_fine : CertificateState → Bool
is_fine valid = true
is_fine (other s) = s == ""
is_fine _ = false

-- What the loops keep.
pub record Report : Type 0 where
  pub reason : String
  pub rotation : List String
  pub certificates : List String

-- A reason gives way to a graver one.
unfoldable pub graver : String → ℕ → String → String
unfolding certificate_reason_priority
graver reason priority new =
    if reason == "CertificateLifecycleReady" || ltb (certificate_reason_priority reason) priority
    then new
    else reason

unfoldable pub add_rotation : Report → String → CaRegistrarRotationStatus → Report
unfolding ca_registrar_rotation_condition_problem ca_registrar_rotation_reason graver
add_rotation r org s = elim (ca_registrar_rotation_condition_problem org s) [
  | none ↦ r
  | some (problem, priority) ↦ record {
    reason = graver r.reason priority (ca_registrar_rotation_reason s.phase);
    rotation = r.rotation ++ (problem ∷ []);
    certificates = r.certificates;
  }
]

unfoldable pub add_certificate : Report → String → CertificateStatus → Report
unfolding is_fine graver certificate_state_priority certificate_reason certificate_problem_message
add_certificate r org c = if is_fine c.state then r else record {
  reason = graver r.reason (certificate_state_priority c.state) (certificate_reason c.state);
  rotation = r.rotation;
  certificates = r.certificates ++ (certificate_problem_message org c ∷ []);
}

unfoldable pub add_certificates : Report → String → List CertificateStatus → Report
unfolding add_certificate
add_certificates r org [] = r
add_certificates r org (c ∷ cs) = add_certificates (add_certificate r org c) org cs

unfoldable pub add_orgs : Report → List OrgStatus → Report
unfolding add_rotation add_certificates
add_orgs r [] = r
add_orgs r (o ∷ os) =
    add_orgs
      (add_certificates (add_rotation r o.name o.ca_registrar_rotation) o.name o.certificates) os

-- `problems[:4]`.
first_four : List String → List String
first_four (a ∷ b ∷ c ∷ d ∷ _) = a ∷ b ∷ c ∷ d ∷ []
first_four problems = problems

semicolons : List String → String
semicolons [] = ""
semicolons (x ∷ []) = x
semicolons (x ∷ y ∷ xs) = x <> "; " <> semicolons (y ∷ xs)

-- The status (true for ConditionTrue), the reason and the message.
unfoldable pub condition_of : Report → Bool × String × String
unfolding first_four semicolons itoa
condition_of r =
    let problems = r.rotation ++ r.certificates in
    let shown =
      if ltb 4 (length problems)
      then first_four problems
        ++ ((itoa (length problems - 4) <> " more certificate items need attention") ∷ [])
      else problems in
    elim problems [
      | [] ↦ (true, r.reason, "All Fabric certificates are valid")
      | _ ∷ _ ↦ (false, r.reason, semicolons shown)
    ]

abbrev pub empty_report : Report
empty_report = record { reason = "CertificateLifecycleReady"; rotation = []; certificates = [] }

unfoldable pub certificate_lifecycle_condition_status : List OrgStatus → Bool × String × String
unfolding add_orgs condition_of
certificate_lifecycle_condition_status statuses = condition_of (add_orgs empty_report statuses)
