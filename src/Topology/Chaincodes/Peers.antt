-- ===== src/Topology/Chaincodes/Peers.antt =====
-- The collections of a chaincode in which nothing is found.
use fabric_ops.Prelude.{ℕ, ◌-◌, ◌≤◌, String, true, List, [], ◌≡◌, ◌≢◌, map, All}
use fabric_ops.Prelude.Maps.{Map, has_key}
use fabric_ops.Text.{trim_space}
use fabric_ops.Topology.Lists.{Distinct, Apart}
use fabric_ops.Topology.Chaincodes.{channel_peer_counts_by_org, or_else, collection_names}
use fabric_ops.Topology.Chaincodes.Counts.{peers_of}
use fabric_ops.Api.Spec.{PrivateDataCollection, Org, Chaincode, Channel}

-- The organizations are known to the network and are on the channel.
abbrev pub Authorized : Map Org → Map ℕ → List String → Type 0
Authorized orgs counts =
    All λ n. (has_key (trim_space n) orgs ≡ true) × (has_key (trim_space n) counts ≡ true)

-- What a collection may ask for: organizations of the channel, and peers that they have. One of
-- those peers is the endorser, so that one fewer is left to disseminate to.
pub record Fit (orgs : Map Org) (counts : Map ℕ) (c : PrivateDataCollection) : Type 0 where
  pub named : trim_space c.name ≢ ""
  pub some_orgs : c.org_names ≢ []
  pub authorized : Authorized orgs counts c.org_names
  pub maximum : or_else c.max_peer_count 0 ≤ peers_of counts (map trim_space c.org_names) - 1
  pub required :
      or_else c.required_peer_count 0
      ≤ or_else c.max_peer_count (peers_of counts (map trim_space c.org_names) - 1)

-- The collection lists no organization twice.
abbrev pub ListedOnce : PrivateDataCollection → Type 0
ListedOnce c = Distinct (map trim_space c.org_names)

-- The names are apart from those seen, and the collections fit.
Clear : Chaincode → Channel → Map Org → List String → List PrivateDataCollection → Type 0
Clear cc channel orgs seen cs =
    Apart seen (collection_names cs)
    × Distinct (collection_names cs)
    × All (Fit orgs (channel_peer_counts_by_org channel)) cs
