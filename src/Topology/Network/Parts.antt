-- ===== src/Topology/Network/Parts.antt =====
-- A network in which nothing is found: none of the four parts of the check finds anything.
use fabric_ops.Prelude.{String, Bool, List, [], ◌++◌, ◌≡◌}
use fabric_ops.Topology.Lists.{append-empty}
use fabric_ops.Topology.Network.{
  final_scan, scan_channels, network_problems, chaincodes_from, validate_fabric_network_topology,
}
use fabric_ops.Api.Spec.{FabricNetwork}

module _ (hash : String → String) (is_dns_label : String → Bool) (net : FabricNetwork) where
  scan : fabric_ops.Topology.Network.OrgScan
  scan = final_scan hash is_dns_label net

  channels : List String
  channels = (scan_channels hash is_dns_label net).0

  chaincodes : List String
  unfolding scan
  chaincodes =
      chaincodes_from hash is_dns_label net scan.orgs (scan_channels hash is_dns_label net).1 [] []
        net.spec.chaincodes

  pub validate-parts :
      validate_fabric_network_topology hash is_dns_label net ≡ []
      → ((final_scan hash is_dns_label net).problems ≡ [])
        × (network_problems hash is_dns_label net (final_scan hash is_dns_label net) ≡ [])
        × ((scan_channels hash is_dns_label net).0 ≡ [])
        × (chaincodes_from hash is_dns_label net
              (final_scan hash is_dns_label net).orgs
              (scan_channels hash is_dns_label net).1
              []
              []
              net.spec.chaincodes
            ≡ [])
  unfolding validate_fabric_network_topology scan channels chaincodes
  validate-parts e =
      let network = network_problems hash is_dns_label net scan in
      let last = append-empty (scan.problems ++ network ++ channels) chaincodes e in
      let third = append-empty (scan.problems ++ network) channels last.0 in
      let second = append-empty scan.problems network third.0 in
      (second.0, second.1, third.1, last.1)
