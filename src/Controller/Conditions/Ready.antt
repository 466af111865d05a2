-- ===== src/Controller/Conditions/Ready.antt =====
-- When a network is reported as ready, and what its conditions then say.
use fabric_ops.Prelude.{
  ℕ, String, Bool, true, false, ◌&&◌, List, [], ◌∷◌, Option, some, ◌≡◌, ◌≢◌, ◌↔◌, refl, ◌∙◌, ◌==◌,
  All, all, differ, if◌then◌else◌, arith,
}
use fabric_ops.Api.Status.{OrgStatus}
use fabric_ops.Api.Network.{
  ChannelStatus, ChaincodeStatus, condition_true, condition_false, Condition, creating, ready,
  failed, FabricNetworkStatus,
}
use fabric_ops.Certificates.Condition.Quiet.{Quiet, certificate_lifecycle_condition_status-Quiet}
use fabric_ops.Controller.Orgs.{all_orgs_ready}
use fabric_ops.Controller.Conditions.{
  Finding, named_condition, truth, is_ready, all_channels_ready, all_chaincodes_ready,
  find_condition, SetsCondition, conditions_with, verdict,
}

-- There are organizations, all are ready with their certificates in order, and so are the channels and the chaincodes.
abbrev pub EverythingReady : List OrgStatus → List ChannelStatus → List ChaincodeStatus → Type 0
EverythingReady orgs channels chaincodes =
    (orgs ≢ [])
    × All (λ s. s.ready ≡ true) orgs
    × All Quiet orgs
    × All (λ s. s.ready ≡ true) channels
    × All (λ s. s.ready ≡ true) chaincodes

all-All {ℓ} :
    {A : Type ℓ} (p : A → Bool) (xs : List A) → (all p xs ≡ true) ↔ All (λ x. p x ≡ true) xs
all-All p [] = ground arith
all-All p (x ∷ xs) = ground (arith, all-All p xs)

all_orgs_ready-All :
    (orgs : List OrgStatus)
    → (all_orgs_ready orgs ≡ true) ↔ ((orgs ≢ []) × All (λ s. s.ready ≡ true) orgs)
unfolding all_orgs_ready
all_orgs_ready-All [] = (λ h. absurd (cc), λ h. absurd (h.0 refl))
all_orgs_ready-All (s ∷ rest) =
    let every = all-All (λ (o : OrgStatus). o.ready) (s ∷ rest) in
    (λ h. (λ e. absurd (cc), every.0 h), λ h. every.1 h.1)

and_iff :
    (a b c d : Bool)
    → (a && b && c && d ≡ true) ↔ ((a ≡ true) × (b ≡ true) × (c ≡ true) × (d ≡ true))
and_iff a b c d = ground arith

pub is_ready-EverythingReady :
    (orgs : List OrgStatus) (channels : List ChannelStatus) (chaincodes : List ChaincodeStatus)
    → (is_ready orgs channels chaincodes ≡ true) ↔ EverythingReady orgs channels chaincodes
unfolding is_ready all_channels_ready all_chaincodes_ready
is_ready-EverythingReady orgs channels chaincodes =
    let o = all_orgs_ready-All orgs in
    let c = all-All (λ (s : ChannelStatus). s.ready) channels in
    let d = all-All (λ (s : ChaincodeStatus). s.ready) chaincodes in
    let q = certificate_lifecycle_condition_status-Quiet orgs in
    let every = and_iff _ _ _ _ in
    (
      λ h.
          let r = every.0 h in let there = o.0 r.0 in (there.0, there.1, q.0 r.3, c.0 r.1, d.0 r.2),
      λ h. every.1 (o.1 (h.0, h.1), c.1 h.3, d.1 h.4, q.1 h.2),
    )

truth-true : (b : Bool) → (truth b ≡ condition_true) ↔ (b ≡ true)
truth-true true = ground arith
truth-true false = (λ h. absurd (cc), λ h. absurd (cc))

abbrev pub Set : Type 0
Set = List Condition → Condition → List Condition

-- The condition of that kind is what was found, of that generation.
abbrev pub Reports : List Condition → ℕ → String → Finding → Type 0
Reports conditions generation kind finding =
    find_condition kind conditions ≡ some (named_condition kind finding generation)

module _ (set : Set) (law : SetsCondition set) (generation : ℕ) where
  kept :
      (old : List Condition) (kind other : String) (finding : Finding) (c : Option Condition)
      → (kind == other) ≡ false
      → find_condition kind old ≡ c
      → find_condition kind (set old (named_condition other finding generation)) ≡ c
  kept old kind other finding c apart e =
      (law old (named_condition other finding generation)).1 kind (differ kind other apart) ∙ e

  now :
      (old : List Condition) (kind : String) (finding : Finding)
      → Reports (set old (named_condition kind finding generation)) generation kind finding
  now old kind finding = (law old (named_condition kind finding generation)).0

  pub conditions_with-Reports :
      (old : List Condition) (overall identity certificates channels observability : Finding)
      → let now =
          conditions_with set old generation overall identity certificates channels observability in
        Reports now generation "Ready" overall
        × Reports now generation "IdentityMaterialReady" identity
        × Reports now generation "CertificateLifecycleReady" certificates
        × Reports now generation "ChannelsReady" channels
        × Reports now generation "ObservabilityReady" observability
  unfolding conditions_with
  conditions_with-Reports old f1 f2 f3 f4 f5 = (
    kept _ "Ready" "ObservabilityReady" f5 _ refl (
        kept _ "Ready" "ChannelsReady" f4 _ refl (
          kept _ "Ready" "CertificateLifecycleReady" f3 _ refl
            (kept _ "Ready" "IdentityMaterialReady" f2 _ refl (now _ "Ready" f1)))),
    kept _ "IdentityMaterialReady" "ObservabilityReady" f5 _ refl (
        kept _ "IdentityMaterialReady" "ChannelsReady" f4 _ refl (
          kept _ "IdentityMaterialReady" "CertificateLifecycleReady" f3 _ refl
            (now _ "IdentityMaterialReady" f2))),
    kept _ "CertificateLifecycleReady" "ObservabilityReady" f5 _ refl (
        kept _ "CertificateLifecycleReady" "ChannelsReady" f4 _ refl
          (now _ "CertificateLifecycleReady" f3)),
    kept _ "ChannelsReady" "ObservabilityReady" f5 _ refl (now _ "ChannelsReady" f4),
    now _ "ObservabilityReady" f5,
  )

-- A status says that the network is ready only where everything is, and its condition Ready agrees with
-- its phase and is of the generation that was read.
abbrev pub Honest : ℕ → FabricNetworkStatus → Type 0
Honest generation s =
    ((s.phase ≡ ready)
      ↔ ((s.phase ≢ failed) × EverythingReady s.org_status s.channel_status s.chaincode_status))
    × ((c : Condition) × (find_condition "Ready" s.conditions ≡ some c)
        × (c.observed_generation ≡ generation)
        × ((c.status ≡ condition_true) ↔ (s.phase ≡ ready)))

module _ (set : Set) (law : SetsCondition set) (generation : ℕ) where
  pub verdict-Honest :
      (old : List Condition) (orgs : List OrgStatus) (channels : List ChannelStatus)
      (chaincodes : List ChaincodeStatus)
      → Honest generation (verdict set old generation orgs channels chaincodes)
  unfolding verdict
  verdict-Honest old orgs channels chaincodes = (
    by_phase (is_ready orgs channels chaincodes)
        (is_ready-EverythingReady orgs channels chaincodes),
    (
      _,
      (conditions_with-Reports set law generation old _ _ _ _ _).0,
      refl,
      by_truth (is_ready orgs channels chaincodes),
    ),
  )
    where
      by_truth : (b : Bool) → (truth b ≡ condition_true) ↔ ((if b then ready else creating) ≡ ready)
      by_truth true = ground arith
      by_truth false = (λ h. absurd (cc), λ h. absurd (cc))

      by_phase :
          {P : Type 0} (b : Bool)
          → (b ≡ true) ↔ P
          → ((if b then ready else creating) ≡ ready)
            ↔ (((if b then ready else creating) ≢ failed) × P)
      by_phase true e = (λ h. (λ f. absurd (cc), e.0 refl), λ h. refl)
      by_phase false e = (λ h. absurd (cc), λ h. absurd (ground (arith, e.1 h.1)))

  pub failed-Honest :
      (s : FabricNetworkStatus) (f : Finding)
      → s.phase ≡ failed
      → f.0 ≡ condition_false
      → Reports s.conditions generation "Ready" f
      → Honest generation s
  failed-Honest s f is_failed is_false reports = (
    (λ h. absurd (cc), λ h. absurd (h.0 is_failed)),
    (named_condition "Ready" f generation, reports, refl, (λ h. absurd (cc), λ h. absurd (cc))),
  )
