-- ===== src/Certificates/Window/Forward.antt =====
-- What the state of a certificate says about the clock.
use fabric_ops.Prelude.{ℕ, ◌+◌, ◌≤◌, ◌<◌, ◌≡◌, Bool, ◌↔◌, arith}
use fabric_ops.Api.Status.{CertificateState, valid, renewal_due, expired, invalid}
use fabric_ops.Certificates.Window.{certificate_state, default_certificate_renew_before}

-- The state of a certificate is decided by where the clock stands in its life, and by nothing else.
pub record Windows (now not_before not_after : ℕ) (state : CertificateState) : Type 0 where
  pub early : (state ≡ invalid) ↔ (now < not_before)
  pub over : not_before ≤ now → (state ≡ expired) ↔ (not_after ≤ now)
  pub due :
      not_before ≤ now
      → (state ≡ renewal_due)
        ↔ ((now < not_after) × (not_after ≤ now + default_certificate_renew_before))
  pub fine :
      not_before ≤ now → (state ≡ valid) ↔ (now + default_certificate_renew_before < not_after)

-- The state of a certificate is invalid exactly before its first second; from then on it is
-- expired exactly from its end, due for renewal exactly in the 30 days before its end, and
-- valid exactly before those days.
pub certificate_state-Windows :
    (now not_before not_after : ℕ) (renewable : Bool)
    → Windows now not_before not_after (certificate_state now not_before not_after renewable).0
unfolding certificate_state
certificate_state-Windows now not_before not_after renewable = record {
  early = ground arith;
  over = λ h. ground arith;
  due = λ h. ground arith;
  fine = λ h. ground arith;
}
