-- ===== src/Topology/Refs.antt =====
-- The checks of references and addresses: `validateChannelArtifactRef` and
-- `validateExternalEndpoints` of internal/controller/fabricnetwork_topology.go, and the selectors and
-- endpoints of fabricparticipant_topology.go.
pub mod Accepts
use fabric_ops.Prelude.{
  ℕ, ◌+◌, String, Bool, true, false, not, ◌&&◌, ◌||◌, inl, inr, List, [], ◌∷◌, ◌++◌, Option, none,
  some, ◌==◌, ltb, if◌then◌else◌,
}
use fabric_ops.Text.{◌<>◌, trim_space, itoa}
use fabric_ops.Topology.Text.{quote, split_host_port, positive_atoi}
use fabric_ops.Topology.Values.{has, OrdererInstance, desired_orderer_instances}
use fabric_ops.Api.Spec.{
  KeySelector, ChannelArtifactKeyRef, ChannelOrdererRef, ExternalEndpoint, OrgMeta,
  CaRegistrarRotationSpec, CaRegistrarConfig, CaConfig, OrdererGroup, PeerConfig, Org,
  ChannelExternalOrgState, ChannelExternalAnchorPeer, ChannelRaftUpdate, ChannelOrg,
  ChannelExternalOrg, Channel, CouchDbIndex, PrivateDataEndorsementPolicy, PrivateDataCollection,
  Chaincode, GlobalConfig, FabricNetworkSpec, FabricNetwork,
}

-- A problem is reported when the test holds.
unfoldable pub when : Bool → String → List String
when true problem = problem ∷ []
when false problem = []

-- `validateConfigMapKeySelector` and `validateSecretKeySelector`.
unfoldable pub validate_key_selector : String → KeySelector → List String
unfolding when trim_space
validate_key_selector path ref =
    when (trim_space ref.name == "") (path <> ".name is required")
    ++ when (trim_space ref.key == "") (path <> ".key is required")

unfoldable pub validate_channel_artifact_ref : String → Option ChannelArtifactKeyRef → List String
unfolding validate_key_selector
validate_channel_artifact_ref path none = (path <> " is required") ∷ []
validate_channel_artifact_ref path (some ref) = elim ref.config_map_key_ref [
  | some config_map ↦ elim ref.secret_key_ref [
    | some secret ↦ (path <> " must set exactly one of configMapKeyRef or secretKeyRef") ∷ []
    | none ↦ validate_key_selector (path <> ".configMapKeyRef") config_map
  ]
  | none ↦ elim ref.secret_key_ref [
    | some secret ↦ validate_key_selector (path <> ".secretKeyRef") secret
    | none ↦ (path <> " must set exactly one of configMapKeyRef or secretKeyRef") ∷ []
  ]
]

-- A reference that may be left out.
unfoldable pub validate_optional_ref : String → Option ChannelArtifactKeyRef → List String
unfolding validate_channel_artifact_ref
validate_optional_ref path none = []
validate_optional_ref path (some ref) = validate_channel_artifact_ref path (some ref)

unfoldable pub port_problems : String → Option ℕ → List String
port_problems path none = (path <> " port must be between 1 and 65535") ∷ []
port_problems path (some port) =
    if ltb 65535 port then (path <> " port must be between 1 and 65535") ∷ [] else []

-- The checks of an address that is not empty.
unfoldable pub address_problems : String → String → List String
unfolding split_host_port port_problems positive_atoi trim_space
address_problems path address = elim (split_host_port address) [
  | inl reason ↦ (path <> " is invalid: address " <> address <> ": " <> reason) ∷ []
  | inr (host, port) ↦
      if trim_space host == ""
      then (path <> " host is required") ∷ []
      else port_problems path (positive_atoi port)
]

unfoldable pub validate_participant_endpoint : String → String → Bool → List String
unfolding address_problems trim_space
validate_participant_endpoint path address required =
    let trimmed = trim_space address in
    if trimmed == ""
    then (if required then (path <> " is required") ∷ [] else [])
    else address_problems path trimmed

tls_host_problems : String → ℕ → List String → List String
unfolding when trim_space itoa
tls_host_problems path j [] = []
tls_host_problems path j (host ∷ hosts) =
    when (trim_space host == "") (path <> ".tlsHosts[" <> itoa j <> "] is required")
    ++ tls_host_problems path (j + 1) hosts

-- The name's part of the loop's body; `path` is the field's and `endpoint_path` the element's.
unfoldable pub endpoint_name_problems :
    String → String → List String → List String → String → List String
unfolding when quote
endpoint_name_problems path endpoint_path known seen name =
    if name == ""
    then (endpoint_path <> ".name is required") ∷ []
    else when (has name seen) (path <> " workload " <> quote name <> " is declared more than once")
      ++ when (not (has name known))
          (endpoint_path <> " references unknown workload " <> quote name)

-- The loop of `validateExternalEndpoints` from its element `i` on.
unfoldable pub endpoints_from :
    String → List String → List String → ℕ → List ExternalEndpoint → List String
unfolding endpoint_name_problems validate_participant_endpoint tls_host_problems itoa trim_space
endpoints_from path known seen i [] = []
endpoints_from path known seen i (e ∷ es) =
    let endpoint_path = path <> "[" <> itoa i <> "]" in
    let name = trim_space e.name in
    endpoint_name_problems path endpoint_path known seen name
    ++ validate_participant_endpoint (endpoint_path <> ".address") e.address true
    ++ tls_host_problems endpoint_path 0 e.tls_hosts
    ++ endpoints_from path known (if name == "" then seen else name ∷ seen) (i + 1) es

unfoldable pub validate_external_endpoints :
    String → List ExternalEndpoint → List String → List String
unfolding endpoints_from
validate_external_endpoints path endpoints known = endpoints_from path known [] 0 endpoints

-- One round of the loop of `channelOrdererRefMatchesAny`.
unfoldable pub matches_orderer : ChannelOrdererRef → OrdererInstance → Bool
unfolding trim_space
matches_orderer ref o =
    (trim_space ref.org == "" || ref.org == o.org.organization.name)
    && (trim_space ref.name == "" || ref.name == o.name)

unfoldable pub any_matches : ChannelOrdererRef → List OrdererInstance → Bool
unfolding matches_orderer
any_matches ref [] = false
any_matches ref (o ∷ os) = matches_orderer ref o || any_matches ref os

unfoldable pub channel_orderer_ref_matches_any :
    (String → String) → FabricNetwork → ChannelOrdererRef → Bool
unfolding any_matches desired_orderer_instances trim_space
channel_orderer_ref_matches_any hash net ref =
    if trim_space ref.org == "" && trim_space ref.name == ""
    then false
    else any_matches ref (desired_orderer_instances hash net)
