-- ===== src/Topology/Examples.antt =====
-- A small network in which nothing is found.
use fabric_ops.Prelude.{
  differ, ◌≤◌, ◌<◌, String, Bool, true, false, [], ◌∷◌, none, some, ◌≡◌, refl, All, length,
}
use fabric_ops.Prelude.Maps.{Map, lookup}
use fabric_ops.Text.{trim_space}
use fabric_ops.Naming.{max_kubernetes_name_length, str_length, sanitize_name}
use fabric_ops.Naming.Bounds.{length-sanitize_name}
use fabric_ops.Topology.Values.{orderer_consensus_type}
use fabric_ops.Topology.Lists.{Distinct}
use fabric_ops.Topology.Chaincodes.{
  validate_chaincode_private_data_topology, channel_peer_counts_by_org,
}
use fabric_ops.Topology.Chaincodes.Counts.{peers_of}
use fabric_ops.Topology.Network.{
  orderer_count, final_scan, scan_channels, validate_fabric_network_topology,
}
use fabric_ops.Topology.Channels.{validate_channel_raft_update}
use fabric_ops.Topology.Channels.Reconfiguration.{Sendable, validate_channel_raft_update-Sendable}
use fabric_ops.Topology.Network.Orgs.{Declares, orgs-Declares, declared_orgs, orgs-Distinct}
use fabric_ops.Topology.Network.Orderers.{named_groups, orderers-agree}
use fabric_ops.Topology.Network.Channels.{declared_channels, SoundIfNamed, channels-Sound}
use fabric_ops.Topology.Network.Chaincodes.{
  Deployable, declared_chaincodes, keys, labels, chaincodes-Deployable,
}
use fabric_ops.Api.Spec.{
  ChannelRaftUpdate, Org, Channel, PrivateDataCollection, Chaincode, FabricNetwork,
}

abbrev zeros : String → String
zeros s = "00000000"

abbrev any_label : String → Bool
any_label s = true

abbrev org : String → Org
org name = record {
  organization = record { name = name; domain = "example.com"; msp_name = "MSP" };
  ca = record { db = "sqlite"; registrar = none };
  orderers =
      record {
        group_name = "group1";
        kind = "raft";
        instances = 2;
        prefix = "orderer";
        external_endpoints = [];
      }
      ∷ [];
  peer = some (record { instances = 2; db = "CouchDB"; prefix = "peer"; external_endpoints = [] });
}

abbrev collection : PrivateDataCollection
collection = record {
  name = "prices";
  org_names = "Org1" ∷ "Org2" ∷ [];
  policy = "";
  required_peer_count = some 1;
  max_peer_count = some 2;
  block_to_live = none;
  member_only_read = none;
  member_only_write = none;
  endorsement_policy = none;
}

abbrev chaincode : Chaincode
chaincode = record {
  name = "asset";
  version = "1.0";
  channel = "trade";
  image = "asset";
  sequence = 1;
  package_label = "";
  endorsement_policy = "OR('MSP.peer')";
  init_required = false;
  private_data = collection ∷ [];
  couchdb_indexes = [];
}

abbrev channel : Channel
channel = record {
  name = "trade";
  orgs =
      record { name = "Org1"; peers = "peer0" ∷ "peer1" ∷ []; signed_update_ref = none }
      ∷ record { name = "Org2"; peers = "peer0" ∷ []; signed_update_ref = none }
      ∷ [];
  external_orgs = [];
  raft_update = none;
}

abbrev network : FabricNetwork
network = record {
  name = "net";
  namespace = "default";
  uid = "";
  spec = record {
    global = record { fabric_version = "2.5.4"; tls = true };
    orgs = org "Org1" ∷ org "Org2" ∷ [];
    channels = channel ∷ [];
    chaincodes = chaincode ∷ [];
  };
}

network_ok : validate_fabric_network_topology zeros any_label network ≡ []
unfolding validate_fabric_network_topology
network_ok = refl

orgs-Distinct_example : Distinct (declared_orgs network.spec.orgs)
orgs-Distinct_example = orgs-Distinct zeros any_label network network_ok

orderers-agree_example :
    (0 < orderer_count (named_groups network.spec.orgs))
    × ((kind : String) × All
          (λ g. orderer_consensus_type g.kind ≡ kind)
          (named_groups network.spec.orgs))
    × (0 < length network.spec.channels → network.spec.global.tls ≡ true)
orderers-agree_example = orderers-agree zeros any_label network network_ok

channels-Sound_example :
    Distinct (declared_channels network.spec.channels)
    × All
        (SoundIfNamed zeros any_label network (final_scan zeros any_label network).orgs)
        network.spec.channels
channels-Sound_example = channels-Sound zeros any_label network network_ok

chaincodes-Deployable_example :
    Distinct (keys (declared_chaincodes network.spec.chaincodes))
    × Distinct (labels (declared_chaincodes network.spec.chaincodes))
    × All
        (Deployable zeros any_label network
          (final_scan zeros any_label network).orgs
          (scan_channels zeros any_label network).1)
        (declared_chaincodes network.spec.chaincodes)
chaincodes-Deployable_example = chaincodes-Deployable zeros any_label network network_ok

-- The organizations after the first loop.
abbrev orgs : Map Org
orgs = (final_scan zeros any_label network).orgs

-- An organization with one peer on the channel, listed three times.
abbrev repeated : PrivateDataCollection
repeated = record collection { org_names = "Org2" ∷ "Org2" ∷ "Org2" ∷ [] }

repeated_counts :
    (validate_chaincode_private_data_topology
        (record chaincode { private_data = repeated ∷ [] })
        channel
        orgs
      ≡ [])
    × (peers_of (channel_peer_counts_by_org channel) repeated.org_names ≡ 1)
unfolding validate_chaincode_private_data_topology final_scan
repeated_counts = (refl, refl)

zeros-eight : (s : String) → str_length (zeros s) ≡ 8
zeros-eight s = refl

length-sanitize_name_example :
    str_length (sanitize_name zeros "Org One!") ≤ max_kubernetes_name_length
length-sanitize_name_example = length-sanitize_name zeros zeros-eight "Org One!"

org_1 : lookup "Org1" (final_scan zeros any_label network).orgs ≡ some (org "Org1")
unfolding lookup final_scan
org_1 = refl

orgs-Declares_example : Declares network.spec.orgs "Org1" (org "Org1")
orgs-Declares_example = orgs-Declares zeros any_label network "Org1" (org "Org1") org_1

abbrev update : ChannelRaftUpdate
update = record {
  operation_id = "op-1";
  admin_org = "Org1";
  orderer = record { org = "Org1"; name = "orderer1" };
  plan_ref = record {
    config_map_key_ref = some (record { name = "plan"; key = "plan.json" });
    secret_key_ref = none;
  };
  signed_update_ref = none;
}

abbrev updated_channel : Channel
updated_channel = record channel { raft_update = some update }

update_ok : validate_channel_raft_update zeros any_label network updated_channel ≡ []
unfolding validate_channel_raft_update
update_ok = refl

validate_channel_raft_update-Sendable_example : Sendable zeros any_label network update
unfolding trim_space
validate_channel_raft_update-Sendable_example =
    validate_channel_raft_update-Sendable zeros any_label network updated_channel update refl
      (differ _ _ refl) (differ _ _ refl) update_ok
