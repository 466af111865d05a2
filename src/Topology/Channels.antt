-- ===== src/Topology/Channels.antt =====
-- The loop over the channels of `validateFabricNetworkTopology`, and `validateChannelRaftUpdate` of
-- internal/controller/fabricnetwork_raft_update.go. `validation.IsDNS1123Label` finds no fault is the
-- parameter `is_dns_label`.
pub mod Members
pub mod Instances
pub mod Reconfiguration
use fabric_ops.Prelude.{
  ℕ, zero, suc, ◌+◌, String, Bool, true, false, not, ◌&&◌, ◌||◌, List, [], ◌∷◌, ◌++◌, Option, none,
  some, ◌==◌, ltb, if◌then◌else◌,
}
use fabric_ops.Prelude.Maps.{Map, lookup, insert, has_key}
use fabric_ops.Text.{◌<>◌, trim_space}
use fabric_ops.Topology.Text.{quote, comma_separated}
use fabric_ops.Topology.Values.{orgs_by_name, network_uses_bft_orderers, unknown_channel_peers}
use fabric_ops.Topology.Refs.{
  when, validate_channel_artifact_ref, validate_optional_ref, channel_orderer_ref_matches_any,
}
use fabric_ops.Topology.External.{validate_channel_external_orgs}
use fabric_ops.Api.Spec.{
  KeySelector, ChannelArtifactKeyRef, ChannelOrdererRef, ExternalEndpoint, OrgMeta,
  CaRegistrarRotationSpec, CaRegistrarConfig, CaConfig, OrdererGroup, PeerConfig, Org,
  ChannelExternalOrgState, ChannelExternalAnchorPeer, ChannelRaftUpdate, ChannelOrg,
  ChannelExternalOrg, Channel, CouchDbIndex, PrivateDataEndorsementPolicy, PrivateDataCollection,
  Chaincode, GlobalConfig, FabricNetworkSpec, FabricNetwork,
}

unfoldable pub peer_problems : String → ℕ → (peers unknown : List String) → List String
unfolding comma_separated
peer_problems at zero peers unknown = (at <> " has no peer instances") ∷ []
peer_problems at (suc _) [] unknown = (at <> " must include at least one peer") ∷ []
peer_problems at (suc _) (_ ∷ _) [] = []
peer_problems at (suc _) (_ ∷ _) (u ∷ us) =
    (at <> " references unknown peers: " <> comma_separated (u ∷ us)) ∷ []

module _ (hash : String → String) (is_dns_label : String → Bool) (net : FabricNetwork) where
  unfoldable pub is_ordering_org : Map Org → String → Bool
  unfolding lookup
  is_ordering_org orgs name = elim (lookup name orgs) [
    | none ↦ false
    | some o ↦ elim o.orderers [ [] ↦ false | _ ∷ _ ↦ true ]
  ]

  unfoldable pub raft_update_problems : String → ChannelRaftUpdate → List String
  unfolding validate_channel_artifact_ref validate_optional_ref when is_ordering_org orgs_by_name
      channel_orderer_ref_matches_any network_uses_bft_orderers
  raft_update_problems path op =
      validate_channel_artifact_ref (path <> ".planRef") (some op.plan_ref)
      ++ validate_optional_ref (path <> ".signedUpdateRef") op.signed_update_ref
      ++ when (not (is_dns_label op.operation_id))
          (path <> " operationID must be a non-empty DNS label")
      ++ when (not (is_ordering_org (orgs_by_name net) op.admin_org))
          (path <> " adminOrg must be a local ordering organization")
      ++ when
          (not (op.orderer.org == op.admin_org)
            || op.orderer.name == ""
            || not (channel_orderer_ref_matches_any hash net op.orderer))
          (path <> " orderer must name an instance within adminOrg")
      ++ when (network_uses_bft_orderers hash net) (path <> " does not support BFT reconfiguration")

  unfoldable pub validate_channel_raft_update : Channel → List String
  unfolding raft_update_problems
  validate_channel_raft_update channel = elim channel.raft_update [
    | none ↦ []
    | some op ↦ raft_update_problems ("channel " <> channel.name <> " raftUpdate") op
  ]

  -- What is found in a local organization that the network declares.
  unfoldable pub known_org_problems : String → String → Org → List String → List String
  unfolding peer_problems unknown_channel_peers quote
  known_org_problems channel name org peers =
      let at = "channel " <> quote channel <> " org " <> quote name in
      elim org.peer [
        | none ↦ (at <> " has no peer instances") ∷ []
        | some config ↦
            peer_problems at config.instances peers (unknown_channel_peers hash org peers)
      ]

  unfoldable pub channel_org_problems : Map Org → String → ChannelOrg → List String
  unfolding known_org_problems lookup quote trim_space
  channel_org_problems orgs channel o =
      let name = trim_space o.name in
      elim (lookup name orgs) [
        | none ↦ ("channel " <> quote channel <> " references unknown org " <> quote name) ∷ []
        | some org ↦ known_org_problems channel name org o.peers
      ]

  unfoldable pub channel_orgs_problems : Map Org → Channel → List ChannelOrg → List String
  unfolding channel_org_problems validate_optional_ref trim_space
  channel_orgs_problems orgs channel [] = []
  channel_orgs_problems orgs channel (o ∷ os) =
      validate_optional_ref ("channel " <> channel.name <> " org " <> o.name <> " signedUpdateRef")
        o.signed_update_ref
      ++ channel_org_problems orgs (trim_space channel.name) o
      ++ channel_orgs_problems orgs channel os

  -- `localChannelOrgNames`, each once.
  unfoldable pub local_org_names : List ChannelOrg → List String
  unfolding trim_space
  local_org_names [] = []
  local_org_names (o ∷ os) =
      let rest = local_org_names os in
      let name = trim_space o.name in if name == "" then rest else name ∷ rest

  -- The loop's body for a channel with a name.
  unfoldable pub channel_problems : Map Org → Channel → List String
  unfolding when channel_orgs_problems validate_channel_external_orgs local_org_names
      validate_channel_raft_update quote trim_space
  channel_problems orgs channel =
      when (elim channel.orgs [ [] ↦ true | _ ∷ _ ↦ false ])
        ("channel " <> quote (trim_space channel.name) <> " must include at least one peer org")
      ++ channel_orgs_problems orgs channel channel.orgs
      ++ validate_channel_external_orgs hash net channel orgs (local_org_names channel.orgs)
      ++ validate_channel_raft_update channel

  -- The loop; `seen` is the map `channels` before it, and the second result the one after it.
  unfoldable pub channels_from : Map Org → Map Channel → List Channel → List String × Map Channel
  unfolding when channel_problems insert has_key quote trim_space
  channels_from orgs seen [] = ([], seen)
  channels_from orgs seen (c ∷ cs) =
      let name = trim_space c.name in
      let rest = channels_from orgs (if name == "" then seen else insert name c seen) cs in
      if name == "" then rest else (
        when (has_key name seen) ("channel " <> quote name <> " is declared more than once")
            ++ channel_problems orgs c
            ++ rest.0,
        rest.1,
      )
