-- ===== src/Topology/Network.antt =====
-- `validateFabricNetworkTopology` of internal/controller/fabricnetwork_topology.go.
pub mod Parts
pub mod Orgs
pub mod Channels
pub mod Chaincodes
pub mod Orderers
use fabric_ops.Prelude.{
  ℕ, ◌+◌, String, Bool, true, false, not, ◌&&◌, ◌||◌, List, [], ◌∷◌, ◌++◌, Option, none, some, ◌==◌,
  length, ltb, nat_eq, if◌then◌else◌,
}
use fabric_ops.Prelude.Maps.{Map, lookup, insert, has_key}
use fabric_ops.Text.{◌<>◌, trim_space}
use fabric_ops.Topology.Text.{quote}
use fabric_ops.Topology.Values.{has, chaincode_package_label}
use fabric_ops.Topology.Refs.{when}
use fabric_ops.Topology.Orgs.{
  consensus_types, validate_org_orderer_consensus, validate_org_peer_database,
  validate_org_external_endpoints,
}
use fabric_ops.Topology.Channels.{channels_from}
use fabric_ops.Topology.Policies.{validate_chaincode_endorsement_policy_topology}
use fabric_ops.Topology.Chaincodes.{
  validate_chaincode_private_data_topology, validate_chaincode_couchdb_indexes,
}
use fabric_ops.Api.Spec.{
  KeySelector, ChannelArtifactKeyRef, ChannelOrdererRef, ExternalEndpoint, OrgMeta,
  CaRegistrarRotationSpec, CaRegistrarConfig, CaConfig, OrdererGroup, PeerConfig, Org,
  ChannelExternalOrgState, ChannelExternalAnchorPeer, ChannelRaftUpdate, ChannelOrg,
  ChannelExternalOrg, Channel, CouchDbIndex, PrivateDataEndorsementPolicy, PrivateDataCollection,
  Chaincode, GlobalConfig, FabricNetworkSpec, FabricNetwork,
}

-- The sum of the instances of the groups.
unfoldable pub orderer_count : List OrdererGroup → ℕ
orderer_count [] = 0
orderer_count (g ∷ gs) = g.instances + orderer_count gs

-- What the loop over the organizations keeps.
pub record OrgScan : Type 0 where
  pub problems : List String
  pub orgs : Map Org
  pub orderers : ℕ
  pub consensus : List String

module _ (hash : String → String) (is_dns_label : String → Bool) (net : FabricNetwork) where
  unfoldable pub org_problems : Map Org → String → Org → List String
  unfolding when validate_org_orderer_consensus validate_org_peer_database
      validate_org_external_endpoints has_key quote
  org_problems seen name org =
      when (has_key name seen) ("org " <> quote name <> " is declared more than once")
      ++ validate_org_orderer_consensus net org
      ++ validate_org_peer_database org
      ++ validate_org_external_endpoints hash org

  -- One round for an organization with a name.
  unfoldable pub scan_org : OrgScan → String → Org → OrgScan
  unfolding org_problems insert orderer_count consensus_types
  scan_org scan name org = record {
    problems = scan.problems ++ org_problems scan.orgs name org;
    orgs = insert name org scan.orgs;
    orderers = scan.orderers + orderer_count org.orderers;
    consensus = consensus_types scan.consensus org.orderers;
  }

  unfoldable pub scan_orgs : OrgScan → List Org → OrgScan
  unfolding scan_org trim_space
  scan_orgs scan [] = scan
  scan_orgs scan (o ∷ os) =
      let name = trim_space o.organization.name in
      scan_orgs (if name == "" then scan else scan_org scan name o) os

  -- The label is used by another chaincode.
  unfoldable pub label_problems : (label key : String) → Option String → List String
  unfolding quote
  label_problems label key none = []
  label_problems label key (some previous) =
      ("chaincode package label "
        <> quote label
        <> " is used by both "
        <> quote previous
        <> " and "
        <> quote key)
      ∷ []

  -- The checks that need the chaincode's channel.
  unfoldable pub package_problems : Map Org → Chaincode → Option Channel → List String
  unfolding validate_chaincode_endorsement_policy_topology validate_chaincode_private_data_topology
      validate_chaincode_couchdb_indexes
  package_problems orgs cc none = []
  package_problems orgs cc (some c) =
      validate_chaincode_endorsement_policy_topology cc c orgs
      ++ validate_chaincode_private_data_topology cc c orgs
      ++ validate_chaincode_couchdb_indexes hash cc

  -- What is found in a chaincode with a name, on a channel with a name.
  unfoldable pub chaincode_problems :
      Map Org
      → Map Channel
      → List String
      → Map String
      → (name channel : String) → Chaincode
      → List String
  unfolding when lookup has_key chaincode_package_label label_problems package_problems quote
  chaincode_problems orgs channels seen labels name channel cc =
      let key = channel <> "/" <> name in
      let label = chaincode_package_label cc in
      when (has key seen)
        ("chaincode " <> quote name <> " is declared more than once on channel " <> quote channel)
      ++ when (not (has_key channel channels))
          ("chaincode " <> quote name <> " references unknown channel " <> quote channel)
      ++ label_problems label key (lookup label labels)
      ++ package_problems orgs cc (lookup channel channels)

  unfoldable pub chaincodes_from :
      Map Org → Map Channel → List String → Map String → List Chaincode → List String
  unfolding chaincode_problems chaincode_package_label insert trim_space
  chaincodes_from orgs channels seen labels [] = []
  chaincodes_from orgs channels seen labels (cc ∷ ccs) =
      let name = trim_space cc.name in
      let channel = trim_space cc.channel in
      let key = channel <> "/" <> name in
      elim (name == "" || channel == "") [
        | true ↦ chaincodes_from orgs channels seen labels ccs
        | false ↦
            chaincode_problems orgs channels seen labels name channel cc
            ++ chaincodes_from orgs channels (key ∷ seen)
                (insert (chaincode_package_label cc) key labels) ccs
      ]

  -- The problems after the loop over the organizations.
  unfoldable pub network_problems : OrgScan → List String
  unfolding when
  network_problems scan =
      when (nat_eq scan.orderers 0) "at least one orderer instance is required"
      ++ when (ltb 1 (length scan.consensus))
          "orderer consensus types must match across all orderer groups"
      ++ when (ltb 0 (length net.spec.channels) && not net.spec.global.tls)
          "spec.global.tls must be true when channels are declared"

  unfoldable pub initial_scan : OrgScan
  unfolding when
  initial_scan = record {
    problems =
        when (nat_eq (length net.spec.orgs) 0) "spec.orgs must include at least one organization";
    orgs = [];
    orderers = 0;
    consensus = [];
  }

  -- The state of the loop over the organizations at its end.
  unfoldable pub final_scan : OrgScan
  unfolding scan_orgs initial_scan
  final_scan = scan_orgs initial_scan net.spec.orgs

  -- The loop over the channels: its problems, and the map `channels` at its end.
  unfoldable pub scan_channels : List String × Map Channel
  unfolding channels_from final_scan
  scan_channels = channels_from hash is_dns_label net final_scan.orgs [] net.spec.channels

  unfoldable pub validate_fabric_network_topology : List String
  unfolding final_scan scan_channels network_problems chaincodes_from
  validate_fabric_network_topology =
      final_scan.problems
      ++ network_problems final_scan
      ++ scan_channels.0
      ++ chaincodes_from final_scan.orgs scan_channels.1 [] [] net.spec.chaincodes
