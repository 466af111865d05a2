-- ===== src/Certificates/Condition/Priority.antt =====
-- The reason of the condition is that of a gravest problem.
use fabric_ops.Prelude.{
  ℕ, ◌≤◌, String, Bool, true, false, ◌||◌, ltb, List, [], ◌∷◌, ◌≡◌, refl, sym, subst, ◌==◌, All,
  arith, eq_iff, if◌then◌else◌,
}
use fabric_ops.Api.Status.{
  CertificateState, valid, renewal_due, renewing, renewal_failed, expired, missing, invalid, other,
  CertificateStatus, CaRegistrarRotationPhase, idle, waiting_for_ca, staging, rotating, ready,
  failed, unset, CaRegistrarRotationStatus, OrgStatus,
}
use fabric_ops.Certificates.Condition.{
  certificate_reason, certificate_state_priority, certificate_reason_priority,
  ca_registrar_rotation_reason, ca_registrar_rotation_condition_problem, is_fine, Report, graver,
  add_rotation, add_certificate, add_certificates, add_orgs, condition_of, empty_report,
  certificate_lifecycle_condition_status,
}

-- How grave a phase is: 70 for a failure, 25 while the rotation is under way.
abbrev pub phase_priority : CaRegistrarRotationPhase → ℕ
phase_priority failed = 70
phase_priority waiting_for_ca = 25
phase_priority staging = 25
phase_priority rotating = 25
phase_priority _ = 0

reason_priority-state :
    (s : CertificateState)
    → certificate_reason_priority (certificate_reason s) ≡ certificate_state_priority s
unfolding certificate_reason_priority certificate_reason certificate_state_priority
reason_priority-state valid = refl
reason_priority-state renewal_due = refl
reason_priority-state renewing = refl
reason_priority-state renewal_failed = refl
reason_priority-state expired = refl
reason_priority-state missing = refl
reason_priority-state invalid = refl
reason_priority-state (other s) = refl

reason_priority-phase :
    (p : CaRegistrarRotationPhase)
    → certificate_reason_priority (ca_registrar_rotation_reason p) ≡ phase_priority p
unfolding certificate_reason_priority ca_registrar_rotation_reason
reason_priority-phase idle = refl
reason_priority-phase waiting_for_ca = refl
reason_priority-phase staging = refl
reason_priority-phase rotating = refl
reason_priority-phase ready = refl
reason_priority-phase failed = refl
reason_priority-phase unset = refl

ready-zero :
    (reason : String)
    → (reason == "CertificateLifecycleReady") ≡ true
    → certificate_reason_priority reason ≡ 0
unfolding certificate_reason_priority
ready-zero reason e =
    subst (λ r. certificate_reason_priority r ≡ 0)
      (sym ((eq_iff reason "CertificateLifecycleReady").0 e)) refl

choice-max :
    (first : Bool) (reason new : String) (n : ℕ)
    → certificate_reason_priority new ≡ n
    → (first ≡ true → certificate_reason_priority reason ≡ 0)
    → (certificate_reason_priority reason
        ≤ certificate_reason_priority
            (if first || ltb (certificate_reason_priority reason) n then new else reason))
      × (n
          ≤ certificate_reason_priority
              (if first || ltb (certificate_reason_priority reason) n then new else reason))
choice-max true reason new n e zero = let h = zero refl in (omega (arith, e, h), omega (arith, e))
choice-max false reason new n e zero = ground (arith, e)

-- The graver of two reasons is as grave as both.
graver-max :
    (reason new : String) (n : ℕ)
    → certificate_reason_priority new ≡ n
    → (certificate_reason_priority reason ≤ certificate_reason_priority (graver reason n new))
      × (n ≤ certificate_reason_priority (graver reason n new))
unfolding graver
graver-max reason new n e =
    choice-max (reason == "CertificateLifecycleReady") reason new n e (ready-zero reason)

-- The reason of the report is as grave as this.
abbrev pub Covers : Report → ℕ → Type 0
Covers r n = n ≤ certificate_reason_priority r.reason

add_rotation-Covers :
    (r : Report) (org : String) (s : CaRegistrarRotationStatus) (n : ℕ)
    → (Covers r n → Covers (add_rotation r org s) n)
      × Covers (add_rotation r org s) (phase_priority s.phase)
unfolding add_rotation ca_registrar_rotation_condition_problem
add_rotation-Covers r org s n = ground (
  arith,
  graver-max r.reason (ca_registrar_rotation_reason s.phase) (phase_priority s.phase)
      (reason_priority-phase s.phase),
)

fine-zero : (s : CertificateState) → is_fine s ≡ true → certificate_state_priority s ≡ 0
unfolding is_fine certificate_state_priority
fine-zero s e = ground (arith, e)

add_certificate-Covers :
    (r : Report) (org : String) (c : CertificateStatus) (n : ℕ)
    → (Covers r n → Covers (add_certificate r org c) n)
      × Covers (add_certificate r org c) (certificate_state_priority c.state)
unfolding add_certificate
add_certificate-Covers r org c n = ground (
  arith,
  fine-zero c.state,
  graver-max r.reason (certificate_reason c.state) (certificate_state_priority c.state)
      (reason_priority-state c.state),
)

add_certificates-Covers :
    (r : Report) (org : String) (cs : List CertificateStatus)
    → ((n : ℕ) → Covers r n → Covers (add_certificates r org cs) n)
      × All (λ c. Covers (add_certificates r org cs) (certificate_state_priority c.state)) cs
unfolding add_certificates
add_certificates-Covers r org [] = (λ n h. h, tt)
add_certificates-Covers r org (c ∷ cs) =
    let rest = add_certificates-Covers (add_certificate r org c) org cs in
    (
      λ n h. rest.0 n ((add_certificate-Covers r org c n).0 h),
      (rest.0 _ (add_certificate-Covers r org c 0).1, rest.1),
    )

-- The report covers what is wrong in the organization.
abbrev pub CoversOrg : String → OrgStatus → Type 0
CoversOrg reason o =
    (phase_priority o.ca_registrar_rotation.phase ≤ certificate_reason_priority reason)
    × All (λ c. certificate_state_priority c.state ≤ certificate_reason_priority reason)
        o.certificates

add_orgs-Covers :
    (r : Report) (os : List OrgStatus)
    → ((n : ℕ) → Covers r n → Covers (add_orgs r os) n) × All (CoversOrg (add_orgs r os).reason) os
unfolding add_orgs
add_orgs-Covers r [] = (λ n h. h, tt)
add_orgs-Covers r (o ∷ os) =
    let first = add_rotation r o.name o.ca_registrar_rotation in
    let own = add_certificates-Covers first o.name o.certificates in
    let rest = add_orgs-Covers (add_certificates first o.name o.certificates) os in
    let turn = add_rotation-Covers r o.name o.ca_registrar_rotation in
    (
      λ n h. rest.0 n (own.0 n ((turn n).0 h)),
      (
        (
          rest.0 _ (own.0 _ (turn 0).1),
          later (add_certificates first o.name o.certificates)
              (add_orgs (add_certificates first o.name o.certificates) os) rest.0 o.certificates
              own.1,
        ),
        rest.1,
      ),
    )
  where
    later :
        (a b : Report)
        → ((n : ℕ) → Covers a n → Covers b n)
        → (cs : List CertificateStatus)
        → All (λ c. Covers a (certificate_state_priority c.state)) cs
        → All (λ c. Covers b (certificate_state_priority c.state)) cs
    later a b f [] h = tt
    later a b f (c ∷ cs) h = (f _ h.0, later a b f cs h.1)

condition_of-reason : (r : Report) → (condition_of r).1 ≡ r.reason
unfolding condition_of
condition_of-reason r = ground arith

-- The reason that the condition on certificates gives is at least as grave as the state of
-- each certificate and as the phase of each rotation: its priority is not below theirs.
pub certificate_lifecycle_condition_status-CoversOrg :
    (statuses : List OrgStatus)
    → All (CoversOrg (certificate_lifecycle_condition_status statuses).1) statuses
unfolding certificate_lifecycle_condition_status
certificate_lifecycle_condition_status-CoversOrg statuses =
    subst (λ reason. All (CoversOrg reason) statuses)
      (sym (condition_of-reason (add_orgs empty_report statuses)))
      (add_orgs-Covers empty_report statuses).1
