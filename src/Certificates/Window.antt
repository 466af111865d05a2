-- ===== src/Certificates/Window.antt =====
-- `certificateState`, `certificateStateNeedsRenewal` and `certificateStatusesNeedRenewal`.
pub mod Forward
use fabric_ops.Prelude.{
  ℕ, ◌+◌, String, Bool, true, false, not, ◌||◌, List, [], ◌∷◌, ltb, if◌then◌else◌,
}
use fabric_ops.Api.Status.{
  CertificateState, valid, renewal_due, renewing, renewal_failed, expired, missing, invalid, other,
  CertificateStatus,
}

-- 30 days, in seconds.
abbrev pub default_certificate_renew_before : ℕ
default_certificate_renew_before = 2592000

unfoldable pub certificate_state : ℕ → ℕ → ℕ → Bool → CertificateState × String
certificate_state now not_before not_after renewable =
    if ltb now not_before
    then (invalid, "Certificate is not valid yet")
    else if not (ltb now not_after)
    then (
      expired,
      if renewable
          then "Certificate expired and will be renewed by Fabric CA"
          else "CA root material is expired and requires CA rollover or refreshed enrollment output",
    )
    else if not (ltb (now + default_certificate_renew_before) not_after)
    then (
      renewal_due,
      if renewable
          then "Certificate is inside the renewal window"
          else "CA root material is inside the renewal window",
    )
    else (valid, "")

unfoldable pub certificate_state_needs_renewal : CertificateState → Bool
certificate_state_needs_renewal expired = true
certificate_state_needs_renewal renewal_due = true
certificate_state_needs_renewal _ = false

-- The cases of the switch in `certificateStatusesNeedRenewal`.
unfoldable pub is_renewal_state : CertificateState → Bool
is_renewal_state expired = true
is_renewal_state renewal_due = true
is_renewal_state renewing = true
is_renewal_state renewal_failed = true
is_renewal_state _ = false

unfoldable pub certificate_statuses_need_renewal : List CertificateStatus → Bool
certificate_statuses_need_renewal [] = false
certificate_statuses_need_renewal (s ∷ ss) =
    is_renewal_state s.state || certificate_statuses_need_renewal ss
