-- ===== src/Controller/Conditions.antt =====
-- The conditions and the status of a network as `Reconcile` of
-- internal/controller/fabricnetwork_controller.go composes them. `meta.SetStatusCondition` is not the
-- program's: a function `set` and the laws of `SetsCondition`.
pub mod Ready
use fabric_ops.Prelude.{
  ℕ, String, Bool, true, false, not, ◌&&◌, ◌||◌, List, [], ◌∷◌, ◌++◌, Option, none, some, ◌≡◌, ◌≢◌,
  ◌==◌, all, if◌then◌else◌,
}
use fabric_ops.Text.{◌<>◌, join}
use fabric_ops.Api.Status.{OrgStatus}
use fabric_ops.Api.Network.{
  ChannelStatus, ChaincodeStatus, ConditionStatus, condition_true, condition_false,
  condition_unknown, Condition, Phase, creating, ready, failed, FabricNetworkStatus,
}
use fabric_ops.Certificates.Condition.{certificate_lifecycle_condition_status}
use fabric_ops.Controller.Orgs.{all_orgs_ready}

unfoldable pub identity_material_ready : List OrgStatus → Bool
identity_material_ready statuses = all (λ s. s.identity_ready) statuses

identity_errors : List OrgStatus → List String
identity_errors [] = []
identity_errors (s ∷ rest) =
    let others = identity_errors rest in
    if s.identity_error == "" then others else (s.name <> ": " <> s.identity_error) ∷ others

-- The texts joined, or the text that stands for none.
or_joined : String → String → List String → String
unfolding join
or_joined separator default [] = default
or_joined separator default (s ∷ rest) = join separator (s ∷ rest)

unfoldable pub identity_material_message : List OrgStatus → String
unfolding identity_errors or_joined
identity_material_message statuses =
    or_joined "; " "All required identity material is present" (identity_errors statuses)

pending_endpoints : OrgStatus → List String
pending_endpoints s =
    (if s.ca_ready then [] else "CA not ready" ∷ [])
    ++ (if s.orderers_ready then [] else "orderers not ready" ∷ [])
    ++ (if s.peers_ready then [] else "peers not ready" ∷ [])

observability_messages : List OrgStatus → List String
unfolding pending_endpoints join
observability_messages [] = []
observability_messages (s ∷ rest) =
    let others = observability_messages rest in
    elim (pending_endpoints s) [
      | [] ↦ others
      | m ∷ ms ↦ (s.name <> ": " <> join ", " (m ∷ ms)) ∷ others
    ]

unfoldable pub observability_status_message : List OrgStatus → String
unfolding all_orgs_ready observability_messages or_joined
observability_status_message statuses =
    if all_orgs_ready statuses
    then "All Fabric operations endpoints are exposed"
    else or_joined "; " "Waiting for Fabric operations endpoints" (observability_messages statuses)

unfoldable pub all_channels_ready : List ChannelStatus → Bool
all_channels_ready statuses = all (λ s. s.ready) statuses

channel_messages : List ChannelStatus → List String
channel_messages [] = []
channel_messages (s ∷ rest) =
    let others = channel_messages rest in
    if not s.ready && not (s.message == "") then (s.name <> ": " <> s.message) ∷ others else others

unfoldable pub channel_status_message : List ChannelStatus → String
unfolding channel_messages or_joined
channel_status_message [] = "No channels declared"
channel_status_message (s ∷ rest) =
    or_joined "; " "All declared channels are ready" (channel_messages (s ∷ rest))

unfoldable pub all_chaincodes_ready : List ChaincodeStatus → Bool
all_chaincodes_ready statuses = all (λ s. s.ready) statuses

-- The status, the reason and the message of a condition.
abbrev pub Finding : Type 0
Finding = ConditionStatus × String × String

abbrev pub named_condition : String → Finding → ℕ → Condition
named_condition kind finding generation = record {
  kind = kind;
  status = finding.0;
  reason = finding.1;
  message = finding.2;
  observed_generation = generation;
}

abbrev pub truth : Bool → ConditionStatus
truth true = condition_true
truth false = condition_false

unfoldable pub channels_finding : List ChannelStatus → Finding
unfolding all_channels_ready channel_status_message
channels_finding [] = (condition_true, "NoChannelsDeclared", channel_status_message [])
channels_finding (c ∷ rest) =
    let message = channel_status_message (c ∷ rest) in
    if all_channels_ready (c ∷ rest)
    then (condition_true, "ChannelsReady", message)
    else (condition_false, "ChannelBootstrapPending", message)

unfoldable pub identity_finding : List OrgStatus → Finding
unfolding identity_material_ready identity_material_message
identity_finding statuses = (
  truth (identity_material_ready statuses),
  if identity_material_ready statuses then "IdentityMaterialPresent" else "IdentityMaterialMissing",
  identity_material_message statuses,
)

unfoldable pub certificate_finding : List OrgStatus → Finding
unfolding certificate_lifecycle_condition_status
certificate_finding statuses =
    let status = certificate_lifecycle_condition_status statuses in
    (truth status.0, status.1, status.2)

unfoldable pub observability_finding : List OrgStatus → Finding
unfolding all_orgs_ready observability_status_message
observability_finding statuses = (
  truth (all_orgs_ready statuses),
  if all_orgs_ready statuses then "OperationsEndpointsReady" else "OperationsEndpointsPending",
  observability_status_message statuses,
)

-- Every component, every channel and every chaincode is ready, and the certificates are in order.
unfoldable pub is_ready : List OrgStatus → List ChannelStatus → List ChaincodeStatus → Bool
unfolding all_orgs_ready all_channels_ready all_chaincodes_ready
    certificate_lifecycle_condition_status
is_ready orgs channels chaincodes =
    all_orgs_ready orgs
    && all_channels_ready channels
    && all_chaincodes_ready chaincodes
    && (certificate_lifecycle_condition_status orgs).0

-- The reason and the message of the condition Ready.
unfoldable pub ready_reason : List ChannelStatus → List ChaincodeStatus → String × String
ready_reason [] [] = ("ComponentsReady", "All Fabric components are ready")
ready_reason (c ∷ cs) (d ∷ ds) =
    ("FabricNetworkReady", "All Fabric components, channels, and chaincodes are ready")
ready_reason (c ∷ cs) [] = ("FabricNetworkReady", "All Fabric components and channels are ready")
ready_reason [] (d ∷ ds) = ("FabricNetworkReady", "All Fabric components and chaincodes are ready")

unfoldable pub waiting_reason :
    List OrgStatus → List ChannelStatus → List ChaincodeStatus → String × String
unfolding all_orgs_ready all_channels_ready all_chaincodes_ready identity_material_ready
    certificate_lifecycle_condition_status
waiting_reason orgs channels chaincodes =
    if not (identity_material_ready orgs)
    then ("IdentityMaterialMissing", "Waiting for required Fabric identity material")
    else if all_orgs_ready orgs && not (certificate_lifecycle_condition_status orgs).0
    then ("CertificateLifecyclePending", "Waiting for Fabric certificate lifecycle to become ready")
    else if all_orgs_ready orgs && not (all_channels_ready channels)
    then ("ChannelsNotReady", "Waiting for Fabric channels to become ready")
    else if all_orgs_ready orgs
        && all_channels_ready channels
        && not (all_chaincodes_ready chaincodes)
    then ("ChaincodesNotReady", "Waiting for Fabric chaincodes to become ready")
    else ("ComponentsNotReady", "Waiting for Fabric components to become ready")

-- The condition of that kind.
abbrev pub find_condition : String → List Condition → Option Condition
find_condition kind [] = none
find_condition kind (c ∷ rest) = if c.kind == kind then some c else find_condition kind rest

-- What `SetStatusCondition` is relied on for: the condition that was set is there, and no other has changed.
abbrev pub SetsCondition : (List Condition → Condition → List Condition) → Type 0
SetsCondition set =
    (old : List Condition) (c : Condition)
    → (find_condition c.kind (set old c) ≡ some c)
      × ((kind : String)
          → kind ≢ c.kind
          → find_condition kind (set old c) ≡ find_condition kind old)

module _ (set : List Condition → Condition → List Condition) (old : List Condition)
    (generation : ℕ) where
  -- The five conditions in the order in which they are set.
  unfoldable pub conditions_with : Finding → Finding → Finding → Finding → Finding → List Condition
  conditions_with overall identity certificates channels observability =
      set
        (set
          (set
            (set (set old (named_condition "Ready" overall generation))
              (named_condition "IdentityMaterialReady" identity generation))
            (named_condition "CertificateLifecycleReady" certificates generation))
          (named_condition "ChannelsReady" channels generation))
        (named_condition "ObservabilityReady" observability generation)

  unfoldable pub topology_invalid_conditions : String → List Condition
  unfolding conditions_with
  topology_invalid_conditions message =
      conditions_with (condition_false, "TopologyInvalid", message)
        (
          condition_unknown,
          "TopologyInvalid",
          "Topology validation failed before identity material check: " <> message,
        )
        (
          condition_unknown,
          "TopologyInvalid",
          "Topology validation failed before certificate lifecycle check: " <> message,
        )
        (condition_unknown, "TopologyInvalid", message)
        (
          condition_unknown,
          "TopologyInvalid",
          "Topology validation failed before observability check: " <> message,
        )

  -- After an error: `what` says what could not be done; the last two are those of the channels and of observability.
  unfoldable pub error_conditions : String → String → Finding → String → List Condition
  unfolding conditions_with
  error_conditions what error channels observability =
      conditions_with (condition_false, "ReconcileError", what <> error)
        (condition_unknown, "ReconcileError", "Failed to check identity material: " <> error)
        (condition_unknown, "ReconcileError", "Failed to check certificate lifecycle: " <> error)
        channels (condition_unknown, "ReconcileError", observability <> error)

  -- The status at the end of a run without error.
  unfoldable pub verdict :
      List OrgStatus → List ChannelStatus → List ChaincodeStatus → FabricNetworkStatus
  unfolding is_ready ready_reason waiting_reason identity_finding certificate_finding
      channels_finding observability_finding conditions_with
  verdict orgs channels chaincodes =
      let is_done = is_ready orgs channels chaincodes in
      let reason =
        if is_done
        then ready_reason channels chaincodes
        else waiting_reason orgs channels chaincodes in
      record {
        phase = if is_done then ready else creating;
        message = reason.1;
        org_status = orgs;
        channel_status = channels;
        chaincode_status = chaincodes;
        conditions =
            conditions_with (truth is_done, reason.0, reason.1) (identity_finding orgs)
              (certificate_finding orgs) (channels_finding channels) (observability_finding orgs);
      }
