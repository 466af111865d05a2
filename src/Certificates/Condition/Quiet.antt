-- ===== src/Certificates/Condition/Quiet.antt =====
-- When the condition is true.
use fabric_ops.Prelude.{String, Bool, true, false, List, [], ◌∷◌, ◌++◌, ◌≡◌, ◌↔◌, refl, All, arith}
use fabric_ops.Api.Status.{
  CertificateStatus, CaRegistrarRotationStatus, CaRegistrarRotationPhase, waiting_for_ca, staging,
  rotating, failed, OrgStatus,
}
use fabric_ops.Certificates.Condition.{
  ca_registrar_rotation_condition_problem, is_fine, Report, add_rotation, add_certificate,
  add_certificates, add_orgs, condition_of, empty_report, certificate_lifecycle_condition_status,
}

-- The rotation has not failed and is not under way.
abbrev pub is_settled : CaRegistrarRotationPhase → Bool
is_settled failed = false
is_settled waiting_for_ca = false
is_settled staging = false
is_settled rotating = false
is_settled _ = true

-- Nothing is wrong in the organization.
abbrev pub Quiet : OrgStatus → Type 0
Quiet o =
    (is_settled o.ca_registrar_rotation.phase ≡ true)
    × All (λ c. is_fine c.state ≡ true) o.certificates

abbrev Empty : Report → Type 0
Empty r = (r.rotation ≡ []) × (r.certificates ≡ [])

append-one {ℓ} : {A : Type ℓ} (xs : List A) (x : A) → xs ++ (x ∷ []) ≡ [] → ⊥
append-one [] x e = ground (arith, e)
append-one (y ∷ ys) x e = ground (arith, e)

rotation-Empty :
    (r : Report) (org : String) (s : CaRegistrarRotationStatus)
    → Empty (add_rotation r org s) ↔ (Empty r × (is_settled s.phase ≡ true))
unfolding add_rotation ca_registrar_rotation_condition_problem
rotation-Empty r org s = grind (arith, append-one)

certificate-Empty :
    (r : Report) (org : String) (c : CertificateStatus)
    → Empty (add_certificate r org c) ↔ (Empty r × (is_fine c.state ≡ true))
unfolding add_certificate
certificate-Empty r org c = grind (arith, append-one)

certificates-Empty :
    (r : Report) (org : String) (cs : List CertificateStatus)
    → Empty (add_certificates r org cs) ↔ (Empty r × All (λ c. is_fine c.state ≡ true) cs)
unfolding add_certificates
certificates-Empty r org [] = ground arith
certificates-Empty r org (c ∷ cs) =
    let one = certificate-Empty r org c in
    let rest = certificates-Empty (add_certificate r org c) org cs in
    (
      λ h. let found = rest.0 h in let now = one.0 found.0 in (now.0, (now.1, found.1)),
      λ h. rest.1 (one.1 (h.0, h.1.0), h.1.1),
    )

orgs-Empty : (r : Report) (os : List OrgStatus) → Empty (add_orgs r os) ↔ (Empty r × All Quiet os)
unfolding add_orgs
orgs-Empty r [] = ground arith
orgs-Empty r (o ∷ os) =
    let first = add_rotation r o.name o.ca_registrar_rotation in
    let turn = rotation-Empty r o.name o.ca_registrar_rotation in
    let own = certificates-Empty first o.name o.certificates in
    let rest = orgs-Empty (add_certificates first o.name o.certificates) os in
    (
      λ h.
          let found = rest.0 h in
          let held = own.0 found.0 in
          let now = turn.0 held.0 in (now.0, ((now.1, held.1), found.1)),
      λ h. rest.1 (own.1 (turn.1 (h.0, h.1.0.0), h.1.0.1), h.1.1),
    )

both-empty : (xs ys : List String) → xs ++ ys ≡ [] → (xs ≡ []) × (ys ≡ [])
both-empty [] ys e = (refl, e)
both-empty (x ∷ xs) ys e = ground (arith, e)

condition_of-Empty : (r : Report) → ((condition_of r).0 ≡ true) ↔ Empty r
unfolding condition_of
condition_of-Empty r = grind (arith, both-empty)

-- The condition on certificates is true exactly if in every organization each certificate is
-- valid or has no state yet, and the rotation has not failed and is not under way.
pub certificate_lifecycle_condition_status-Quiet :
    (statuses : List OrgStatus)
    → ((certificate_lifecycle_condition_status statuses).0 ≡ true) ↔ All Quiet statuses
unfolding certificate_lifecycle_condition_status
certificate_lifecycle_condition_status-Quiet statuses =
    let read = condition_of-Empty (add_orgs empty_report statuses) in
    let kept = orgs-Empty empty_report statuses in
    (λ h. (kept.0 (read.0 h)).1, λ h. read.1 (kept.1 ((refl, refl), h)))
