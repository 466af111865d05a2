-- ===== src/Topology/Values.antt =====
-- What the checks compute from a specification: the pure helpers of
-- internal/controller/fabricnetwork_channel.go, _chaincode.go, _external_org.go and _peer_db.go.
use fabric_ops.Prelude.{
  ℕ, zero, suc, ◌+◌, String, Bool, true, false, not, ◌||◌, List, [], ◌∷◌, ◌++◌, map, Option, none,
  some, ◌==◌, any, if◌then◌else◌,
}
use fabric_ops.Prelude.Maps.{Map, insert}
use fabric_ops.Text.{◌<>◌, trim_space, to_lower, itoa}
use fabric_ops.Topology.Text.{has_prefix, trim_first}
use fabric_ops.Naming.{sanitize_name}
use fabric_ops.Api.Spec.{
  OrdererGroup, Org, ChannelExternalOrgState, ChannelExternalOrg, CouchDbIndex, Chaincode,
  FabricNetwork,
}

-- A Go map[string]struct{}: `_, ok := set[x]`.
abbrev pub has : String → List String → Bool
has x = any λ y. y == x

abbrev pub bft : String
bft = "BFT"

abbrev pub etcd_raft : String
etcd_raft = "etcdraft"

unfoldable pub orderer_consensus_type : String → String
unfolding to_lower trim_space
orderer_consensus_type kind =
    let s = to_lower (trim_space kind) in
    if has s ("raft" ∷ "etcdraft" ∷ "" ∷ [])
    then etcd_raft
    else if has s ("bft" ∷ "smartbft" ∷ "smart-bft" ∷ [])
    then bft
    else kind

pub record FabricCapabilitySet : Type 0 where
  pub channel : String
  pub orderer : String
  pub application : String
  pub is_v3 : Bool

unfoldable pub fabric_capabilities : String → FabricCapabilitySet
unfolding trim_first trim_space has_prefix
fabric_capabilities version =
    let v = trim_first "v" (trim_space version) in
    if has_prefix v "3."
    then record { channel = "V2_0"; orderer = "V2_0"; application = "V2_5"; is_v3 = true }
    else if has_prefix v "2.5." || v == "2.5"
    then record { channel = "V2_0"; orderer = "V2_0"; application = "V2_5"; is_v3 = false }
    else record { channel = "V2_0"; orderer = "V2_0"; application = "V2_0"; is_v3 = false }

pub data PeerDatabase : Type 0 where
  level_db couch_db : PeerDatabase

-- `none` where the source returns "" and false.
unfoldable pub normalize_peer_database : String → Option PeerDatabase
unfolding to_lower trim_space
normalize_peer_database db =
    let s = to_lower (trim_space db) in
    if has s ("leveldb" ∷ "level-db" ∷ "level_db" ∷ [])
    then some level_db
    else if has s ("couchdb" ∷ "couch-db" ∷ "couch_db" ∷ [])
    then some couch_db
    else none

unfoldable pub channel_external_org_is_present : ChannelExternalOrg → Bool
channel_external_org_is_present org = elim org.state [
  | ChannelExternalOrgState.absent ↦ false
  | _ ↦ true
]

unfoldable pub chaincode_package_label : Chaincode → String
unfolding trim_space
chaincode_package_label cc =
    if not (trim_space cc.package_label == "")
    then cc.package_label
    else cc.channel <> "_" <> cc.name <> "_" <> cc.version

insert_orgs : Map Org → List Org → Map Org
unfolding insert
insert_orgs m [] = m
insert_orgs m (o ∷ os) = insert_orgs (insert o.organization.name o m) os

unfoldable pub orgs_by_name : FabricNetwork → Map Org
unfolding insert_orgs
orgs_by_name net = insert_orgs [] net.spec.orgs

-- The numbers from `i` on, `n` of them: the counter of `for i := 0; i < n; i++`.
unfoldable pub counting : ℕ → ℕ → List ℕ
counting i zero = []
counting i (suc n) = i ∷ counting (i + 1) n

-- `ordererInstance`; its namespace is not read here.
pub record OrdererInstance : Type 0 where
  pub org : Org
  pub group : OrdererGroup
  pub name : String

unfoldable pub unknown_names : List String → List String → List String
unknown_names known [] = []
unknown_names known (p ∷ ps) =
    let rest = unknown_names known ps in if has p known then rest else p ∷ rest

module _ (hash : String → String) where
  unfoldable pub instance_names : String → ℕ → List String
  unfolding counting sanitize_name itoa
  instance_names prefix n = map (λ i. sanitize_name hash (prefix <> itoa i)) (counting 0 n)

  -- The inner loop of `desiredOrdererInstances`, from its counter on.
  unfoldable pub group_instances_from : Org → OrdererGroup → ℕ → ℕ → List OrdererInstance
  unfolding sanitize_name itoa
  group_instances_from o g i zero = []
  group_instances_from o g i (suc left) =
      record { org = o; group = g; name = sanitize_name hash (g.prefix <> itoa i) }
      ∷ group_instances_from o g (i + 1) left

  unfoldable pub group_instances : Org → OrdererGroup → List OrdererInstance
  unfolding group_instances_from
  group_instances o g = group_instances_from o g 0 g.instances

  unfoldable pub org_instances : Org → List OrdererGroup → List OrdererInstance
  unfolding group_instances
  org_instances o [] = []
  org_instances o (g ∷ gs) = group_instances o g ++ org_instances o gs

  unfoldable pub instances_of : List Org → List OrdererInstance
  unfolding org_instances
  instances_of [] = []
  instances_of (o ∷ os) = org_instances o o.orderers ++ instances_of os

  unfoldable pub desired_orderer_instances : FabricNetwork → List OrdererInstance
  unfolding instances_of
  desired_orderer_instances net = instances_of net.spec.orgs

  unfoldable pub network_uses_bft_orderers : FabricNetwork → Bool
  unfolding desired_orderer_instances orderer_consensus_type
  network_uses_bft_orderers net =
      any (λ o. orderer_consensus_type o.group.kind == bft) (desired_orderer_instances net)

  unfoldable pub desired_peer_names : Org → List String
  unfolding instance_names
  desired_peer_names o = elim o.peer [ none ↦ [] | some p ↦ instance_names p.prefix p.instances ]

  unfoldable pub unknown_channel_peers : Org → List String → List String
  unfolding desired_peer_names unknown_names
  unknown_channel_peers o peers = unknown_names (desired_peer_names o) peers

  unfoldable pub chaincode_couchdb_index_path : CouchDbIndex → String
  unfolding sanitize_name trim_space
  chaincode_couchdb_index_path index =
      let file = sanitize_name hash index.name <> ".json" in
      let collection = trim_space index.collection in
      if not (collection == "")
      then "metadata/META-INF/statedb/couchdb/collections/" <> collection <> "/indexes/" <> file
      else "metadata/META-INF/statedb/couchdb/indexes/" <> file
