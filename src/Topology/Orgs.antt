-- ===== src/Topology/Orgs.antt =====
-- The checks of one organization in internal/controller/fabricnetwork_topology.go:
-- `validateOrgOrdererConsensus`, `validateOrgPeerDatabase` and `validateOrgExternalEndpoints`.
use fabric_ops.Prelude.{
  ℕ, ◌+◌, String, not, ◌&&◌, List, [], ◌∷◌, ◌++◌, none, some, ◌==◌, length, ltb, if◌then◌else◌,
}
use fabric_ops.Text.{◌<>◌, trim_space, itoa}
use fabric_ops.Topology.Text.{quote}
use fabric_ops.Topology.Values.{
  has, bft, orderer_consensus_type, fabric_capabilities, normalize_peer_database, instance_names,
  desired_peer_names,
}
use fabric_ops.Topology.Refs.{when, validate_external_endpoints}
use fabric_ops.Api.Spec.{OrdererGroup, Org, FabricNetwork}

-- The set of the consensus types, each once.
unfoldable pub add_name : String → List String → List String
add_name x set = if has x set then set else x ∷ set

unfoldable pub consensus_types : List String → List OrdererGroup → List String
unfolding add_name orderer_consensus_type
consensus_types set [] = set
consensus_types set (g ∷ gs) = consensus_types (add_name (orderer_consensus_type g.kind) set) gs

unfoldable pub bft_problems : FabricNetwork → Org → ℕ → List OrdererGroup → List String
unfolding orderer_consensus_type fabric_capabilities when quote itoa
bft_problems net org i [] = []
bft_problems net org i (g ∷ gs) =
    when
      (orderer_consensus_type g.kind == bft
        && not (fabric_capabilities net.spec.global.fabric_version).is_v3)
      ("org "
        <> quote org.organization.name
        <> " orderers["
        <> itoa i
        <> "].type "
        <> quote g.kind
        <> " requires spec.global.fabricVersion 3.x")
    ++ bft_problems net org (i + 1) gs

unfoldable pub validate_org_orderer_consensus : FabricNetwork → Org → List String
unfolding bft_problems consensus_types when quote
validate_org_orderer_consensus net org =
    bft_problems net org 0 org.orderers
    ++ when (ltb 1 (length (consensus_types [] org.orderers))) (
        "org "
        <> quote org.organization.name
        <> " mixes orderer consensus types; all orderer groups must use the same consensus type")

unfoldable pub validate_org_peer_database : Org → List String
unfolding normalize_peer_database quote
validate_org_peer_database org = elim org.peer [
  | none ↦ []
  | some peer ↦ elim (normalize_peer_database peer.db) [
    | some _ ↦ []
    | none ↦
        ("org "
          <> quote org.organization.name
          <> " peer.db "
          <> quote peer.db
          <> " is unsupported; supported values are LevelDB and CouchDB")
        ∷ []
  ]
]

module _ (hash : String → String) where
  group_endpoint_problems : String → ℕ → List OrdererGroup → List String
  unfolding validate_external_endpoints instance_names quote itoa
  group_endpoint_problems org i [] = []
  group_endpoint_problems org i (g ∷ gs) =
      validate_external_endpoints
        ("org " <> quote org <> " orderers[" <> itoa i <> "].externalEndpoints")
        g.external_endpoints (instance_names hash g.prefix g.instances)
      ++ group_endpoint_problems org (i + 1) gs

  unfoldable pub validate_org_external_endpoints : Org → List String
  unfolding group_endpoint_problems validate_external_endpoints desired_peer_names quote trim_space
  validate_org_external_endpoints org =
      let name = trim_space org.organization.name in
      group_endpoint_problems name 0 org.orderers ++ elim org.peer [
        | none ↦ []
        | some peer ↦
            validate_external_endpoints ("org " <> quote name <> " peer.externalEndpoints")
              peer.external_endpoints (desired_peer_names hash org)
      ]
