-- ===== src/Endpoints/Status.antt =====
-- The addresses in the status of an organization: internal/controller/fabricnetwork_endpoint_status.go, and
-- `peerDatabaseStatus` of fabricnetwork_peer_db.go.
use fabric_ops.Prelude.{ℕ, zero, suc, ◌+◌, String, List, [], ◌∷◌, ◌++◌, none, some}
use fabric_ops.Text.{◌<>◌, trim_space, itoa}
use fabric_ops.Naming.{sanitize_name}
use fabric_ops.Topology.Values.{
  OrdererInstance, normalize_peer_database, PeerDatabase, level_db, couch_db,
}
use fabric_ops.Api.Spec.{Org, OrdererGroup}
use fabric_ops.Api.Status.{OrdererEndpointStatus, PeerEndpointStatus}
use fabric_ops.Endpoints.{
  service_dns, orderer_advertised_client_address, orderer_tls_hostname_override,
  peer_advertised_address, peer_tls_hostname_override,
}

abbrev database_text : PeerDatabase → String
database_text level_db = "LevelDB"
database_text couch_db = "CouchDB"

unfoldable pub peer_database_status : Org → String
unfolding normalize_peer_database trim_space
peer_database_status org = elim org.peer [
  | none ↦ ""
  | some p ↦ elim (normalize_peer_database p.db) [
    | none ↦ trim_space p.db
    | some db ↦ database_text db
  ]
]

module _ (hash : String → String) where
  unfoldable pub operations_service_name : String → String
  unfolding sanitize_name
  operations_service_name workload = sanitize_name hash (workload <> "-operations")

  unfoldable pub ca_endpoint_status : Org → String → String
  unfolding sanitize_name service_dns
  ca_endpoint_status org namespace =
      "http://" <> service_dns (sanitize_name hash (org.organization.name <> "-ca")) namespace 7054

  -- The addresses of one orderer.
  unfoldable pub orderer_endpoint_status : OrdererInstance → String → OrdererEndpointStatus
  unfolding orderer_advertised_client_address orderer_tls_hostname_override service_dns
      operations_service_name
  orderer_endpoint_status orderer namespace = record {
    name = orderer.name;
    namespace = namespace;
    client_address = orderer_advertised_client_address orderer namespace;
    tls_hostname_override = orderer_tls_hostname_override orderer;
    admin_address = service_dns orderer.name namespace 9443;
    operations_address =
        "http://" <> service_dns (operations_service_name orderer.name) namespace 8443;
  }

  -- The inner loop of `ordererEndpointStatuses`, from its counter on.
  unfoldable pub orderer_statuses_of :
      Org → String → OrdererGroup → ℕ → ℕ → List OrdererEndpointStatus
  unfolding orderer_endpoint_status sanitize_name itoa
  orderer_statuses_of org namespace g i zero = []
  orderer_statuses_of org namespace g i (suc left) =
      let name = sanitize_name hash (g.prefix <> itoa i) in
      orderer_endpoint_status (record { org = org; group = g; name = name }) namespace
      ∷ orderer_statuses_of org namespace g (i + 1) left

  unfoldable pub orderer_statuses_from :
      Org → String → List OrdererGroup → List OrdererEndpointStatus
  unfolding orderer_statuses_of
  orderer_statuses_from org namespace [] = []
  orderer_statuses_from org namespace (g ∷ groups) =
      orderer_statuses_of org namespace g 0 g.instances
      ++ orderer_statuses_from org namespace groups

  unfoldable pub orderer_endpoint_statuses : Org → String → List OrdererEndpointStatus
  unfolding orderer_statuses_from
  orderer_endpoint_statuses org namespace = orderer_statuses_from org namespace org.orderers

  -- The addresses of one peer.
  unfoldable pub peer_endpoint_status : Org → String → String → PeerEndpointStatus
  unfolding peer_advertised_address peer_tls_hostname_override service_dns operations_service_name
      peer_database_status
  peer_endpoint_status org namespace name = record {
    name = name;
    address = peer_advertised_address org name namespace;
    tls_hostname_override = peer_tls_hostname_override org name;
    chaincode_address = service_dns name namespace 7052;
    operations_address = "http://" <> service_dns (operations_service_name name) namespace 9443;
    database = peer_database_status org;
  }

  -- The loop of `peerEndpointStatuses`, from its counter on.
  unfoldable pub peer_statuses_of : Org → String → String → ℕ → ℕ → List PeerEndpointStatus
  unfolding peer_endpoint_status sanitize_name itoa
  peer_statuses_of org namespace prefix i zero = []
  peer_statuses_of org namespace prefix i (suc left) =
      peer_endpoint_status org namespace (sanitize_name hash (prefix <> itoa i))
      ∷ peer_statuses_of org namespace prefix (i + 1) left

  unfoldable pub peer_endpoint_statuses : Org → String → List PeerEndpointStatus
  unfolding peer_statuses_of
  peer_endpoint_statuses org namespace = elim org.peer [
    | none ↦ []
    | some p ↦ peer_statuses_of org namespace p.prefix 0 p.instances
  ]

  unfoldable pub org_endpoint_status :
      Org → String → String × List OrdererEndpointStatus × List PeerEndpointStatus
  unfolding ca_endpoint_status orderer_endpoint_statuses peer_endpoint_statuses
  org_endpoint_status org namespace = (
    ca_endpoint_status org namespace,
    orderer_endpoint_statuses org namespace,
    peer_endpoint_statuses org namespace,
  )
