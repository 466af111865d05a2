-- ===== src/Topology/Chaincodes.antt =====
-- The checks of a chaincode's private data and indexes, `validateChaincodePrivateDataTopology` and
-- `validateChaincodeCouchDBIndexes` of internal/controller/fabricnetwork_topology.go. The peers of an
-- organization on a channel are fewer than 2^31, so that their number is an int32.
pub mod Counts
pub mod Peers
use fabric_ops.Prelude.{
  ℕ, ◌+◌, ◌-◌, String, Bool, true, false, not, ◌&&◌, ◌||◌, List, [], ◌∷◌, ◌++◌, Option, none, some,
  ◌==◌, length, ltb, if◌then◌else◌,
}
use fabric_ops.Prelude.Maps.{Map, lookup, insert, has_key}
use fabric_ops.Text.{◌<>◌, trim_space, itoa}
use fabric_ops.Topology.Text.{quote, has_prefix}
use fabric_ops.Topology.Values.{has, chaincode_couchdb_index_path}
use fabric_ops.Topology.Refs.{when}
use fabric_ops.Api.Spec.{
  KeySelector, ChannelArtifactKeyRef, ChannelOrdererRef, ExternalEndpoint, OrgMeta,
  CaRegistrarRotationSpec, CaRegistrarConfig, CaConfig, OrdererGroup, PeerConfig, Org,
  ChannelExternalOrgState, ChannelExternalAnchorPeer, ChannelRaftUpdate, ChannelOrg,
  ChannelExternalOrg, Channel, CouchDbIndex, PrivateDataEndorsementPolicy, PrivateDataCollection,
  Chaincode, GlobalConfig, FabricNetworkSpec, FabricNetwork,
}

counts_from : Map ℕ → List ChannelOrg → Map ℕ
unfolding insert
counts_from counts [] = counts
counts_from counts (o ∷ os) = counts_from (insert o.name (length o.peers) counts) os

unfoldable pub channel_peer_counts_by_org : Channel → Map ℕ
unfolding counts_from
channel_peer_counts_by_org channel = counts_from [] channel.orgs

-- The loop over a collection's organizations: the problems, and the sum of the peers.
unfoldable pub authorized_peers :
    (at channel : String) → Map Org → Map ℕ → List String → List String × ℕ
unfolding lookup has_key quote trim_space
authorized_peers at channel orgs counts [] = ([], 0)
authorized_peers at channel orgs counts (n ∷ ns) =
    let rest = authorized_peers at channel orgs counts ns in
    let name = trim_space n in
    if not (has_key name orgs)
    then ((at <> " references unknown org " <> quote name) ∷ rest.0, rest.1)
    else elim (lookup name counts) [
      | none ↦ (
        (at <> " references org " <> quote name <> " outside channel " <> quote channel) ∷ rest.0,
        rest.1,
      )
      | some peers ↦ (rest.0, peers + rest.1)
    ]

unfoldable pub or_else : Option ℕ → ℕ → ℕ
or_else none n = n
or_else (some m) n = m

-- The bounds on the numbers of peers; `available` is max(authorizedPeers-1, 0).
unfoldable pub peer_count_problems : String → ℕ → PrivateDataCollection → List String
unfolding when or_else itoa
peer_count_problems at available c =
    let maximum = or_else c.max_peer_count available in
    let required = or_else c.required_peer_count 0 in
    when (ltb available maximum) (
      at
      <> " maxPeerCount "
      <> itoa maximum
      <> " exceeds available authorized peers "
      <> itoa available)
    ++ when (ltb maximum required)
        (at <> " requiredPeerCount " <> itoa required <> " exceeds maxPeerCount " <> itoa maximum)

unfoldable pub two_policies : Option PrivateDataEndorsementPolicy → Bool
unfolding trim_space
two_policies none = false
two_policies (some p) =
    not (trim_space p.signature_policy == "") && not (trim_space p.channel_config_policy == "")

-- The loop's body for a collection with a name.
unfoldable pub collection_problems :
    Chaincode → Channel → Map Org → List String → String → PrivateDataCollection → List String
unfolding when authorized_peers peer_count_problems two_policies channel_peer_counts_by_org
    has_prefix quote
collection_problems cc channel orgs seen name c =
    let at = "chaincode " <> quote cc.name <> " private data collection " <> quote name in
    let peers =
      authorized_peers at channel.name orgs (channel_peer_counts_by_org channel) c.org_names in
    when (has_prefix name "_") (at <> " must not start with _")
    ++ when (has name seen) (at <> " is declared more than once")
    ++ when (elim c.org_names [ [] ↦ true | _ ∷ _ ↦ false ])
        (at <> " must include at least one org")
    ++ peers.0
    ++ peer_count_problems at (peers.1 - 1) c
    ++ when (two_policies c.endorsement_policy) (at <> " must use only one endorsementPolicy field")

unfoldable pub collections_from :
    Chaincode → Channel → Map Org → List String → List PrivateDataCollection → List String
unfolding collection_problems quote trim_space
collections_from cc channel orgs seen [] = []
collections_from cc channel orgs seen (c ∷ cs) =
    let name = trim_space c.name in
    let rest = collections_from cc channel orgs (if name == "" then seen else name ∷ seen) cs in
    if name == ""
    then ("chaincode " <> quote cc.name <> " private data collection name is required") ∷ rest
    else collection_problems cc channel orgs seen name c ++ rest

unfoldable pub validate_chaincode_private_data_topology :
    Chaincode → Channel → Map Org → List String
unfolding collections_from
validate_chaincode_private_data_topology cc channel orgs =
    collections_from cc channel orgs [] cc.private_data

unfoldable pub collection_names : List PrivateDataCollection → List String
unfolding trim_space
collection_names [] = []
collection_names (c ∷ cs) =
    let rest = collection_names cs in
    let name = trim_space c.name in if name == "" then rest else name ∷ rest

field_problems : String → List String → List String
unfolding when trim_space
field_problems at [] = []
field_problems at (f ∷ fs) =
    when (trim_space f == "") (at <> " has an empty field") ++ field_problems at fs

module _ (hash : String → String) (cc : Chaincode) where
  unfoldable pub index_problems : List String → CouchDbIndex → List String
  unfolding when field_problems collection_names chaincode_couchdb_index_path quote trim_space
  index_problems seen index =
      let at =
        "chaincode " <> quote cc.name <> " CouchDB index " <> quote (trim_space index.name) in
      let collection = trim_space index.collection in
      let path = chaincode_couchdb_index_path hash index in
      when (elim index.fields [ [] ↦ true | _ ∷ _ ↦ false ])
        (at <> " must include at least one field")
      ++ field_problems at index.fields
      ++ when (not (collection == "") && not (has collection (collection_names cc.private_data)))
          (at <> " references unknown private data collection " <> quote collection)
      ++ when (has path seen) (
          "chaincode "
          <> quote cc.name
          <> " CouchDB index package path "
          <> quote path
          <> " is declared more than once")

  unfoldable pub indexes_from : List String → List CouchDbIndex → List String
  unfolding index_problems chaincode_couchdb_index_path quote trim_space
  indexes_from seen [] = []
  indexes_from seen (i ∷ is) =
      let rest =
        indexes_from
          (if trim_space i.name == "" then seen else chaincode_couchdb_index_path hash i ∷ seen)
          is in
      if trim_space i.name == ""
      then ("chaincode " <> quote cc.name <> " CouchDB index name is required") ∷ rest
      else index_problems seen i ++ rest

  unfoldable pub validate_chaincode_couchdb_indexes : List String
  unfolding indexes_from
  validate_chaincode_couchdb_indexes = indexes_from [] cc.couchdb_indexes
