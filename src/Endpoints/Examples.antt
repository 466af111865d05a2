-- ===== src/Endpoints/Examples.antt =====
-- An endpoint of an orderer outside the cluster.
use fabric_ops.Prelude.{
  String, true, not, ◌&&◌, List, [], ◌∷◌, none, map, ◌≡◌, refl, ◌==◌, differ, arith,
}
use fabric_ops.Text.{trim_space}
use fabric_ops.Topology.Values.{has, OrdererInstance, desired_orderer_instances}
use fabric_ops.Api.Spec.{FabricNetwork, ExternalEndpoint, Org}
use fabric_ops.Endpoints.{
  workload_external_address, orderer_port, unique_trimmed_strings, external_endpoint_for_workload,
  workload_tls_hostname_override, workload_csr_hosts, endpoint_host, endpoint_port,
}
use fabric_ops.Topology.Lists.{Distinct}
use fabric_ops.Endpoints.Unique.{unique_trimmed_strings-Distinct}
use fabric_ops.Endpoints.Covered.{
  IsPort, workload_tls_hostname_override-Covered, endpoint_port-IsPort,
}
use fabric_ops.Topology.Refs.{validate_external_endpoints}
use fabric_ops.Endpoints.Advertised.{IsAdvertised, validate_external_endpoints-IsAdvertised}
use fabric_ops.Endpoints.Names.{status_names, orderer_endpoint_statuses-desired_orderer_instances}

abbrev endpoints : List ExternalEndpoint
endpoints =
    record {
      name = "orderer0 ";
      address = " [fd00::1]:7443";
      tls_hosts = "orderer.example.com" ∷ "" ∷ "orderer.example.com" ∷ [];
      tls_hostname_override = " override.example.com";
    }
    ∷ []

read_address :
    (endpoint_host " [fd00::1]:7443" ≡ "fd00::1")
    × ((endpoint_port " [fd00::1]:7443" orderer_port ≡ 7443)
        × (endpoint_port "host:70000" orderer_port ≡ orderer_port))
unfolding endpoint_host endpoint_port
read_address = (refl, (refl, refl))

abbrev csr_hosts : List String
csr_hosts =
    "orderer0" ∷ "orderer0.org1" ∷ "orderer0.org1.svc" ∷ "orderer0.org1.svc.cluster.local"
    ∷ "localhost" ∷ "fd00::1" ∷ "orderer.example.com" ∷ "override.example.com" ∷ []

requested : workload_csr_hosts "orderer0" "org1" endpoints ≡ csr_hosts
unfolding workload_csr_hosts
requested = refl

abbrev values : List String
values = " a" ∷ "" ∷ "b" ∷ "a " ∷ []

unique_trimmed_strings-Distinct_example :
    Distinct (unique_trimmed_strings values)
    × ((x : String)
        → has x (unique_trimmed_strings values) ≡ (not (x == "") && has x (map trim_space values)))
unique_trimmed_strings-Distinct_example = unique_trimmed_strings-Distinct values

workload_tls_hostname_override-Covered_example :
    has
      (workload_tls_hostname_override endpoints "orderer0")
      (workload_csr_hosts "orderer0" "org1" endpoints)
    ≡ true
unfolding workload_tls_hostname_override external_endpoint_for_workload trim_space
workload_tls_hostname_override-Covered_example =
    workload_tls_hostname_override-Covered endpoints "orderer0" "org1" (differ _ _ refl)

endpoint_port-IsPort_example : IsPort (endpoint_port " [fd00::1]:7443" orderer_port)
endpoint_port-IsPort_example = endpoint_port-IsPort " [fd00::1]:7443" orderer_port (ground (arith))

-- The endpoint of a group that runs one orderer, and its advertised port.
abbrev outside : List ExternalEndpoint
outside =
    record {
      name = "orderer0 ";
      address = " orderer.example.com:7443";
      tls_hosts = "orderer.example.com" ∷ [];
      tls_hostname_override = "";
    }
    ∷ []

outside_ok : validate_external_endpoints "externalEndpoints" outside ("orderer0" ∷ []) ≡ []
unfolding validate_external_endpoints
outside_ok = refl

validate_external_endpoints-IsAdvertised_example :
    IsAdvertised "orderer.example.com:7443"
      (workload_external_address "orderer0.org1:7050" outside "orderer0")
unfolding trim_space external_endpoint_for_workload
validate_external_endpoints-IsAdvertised_example =
    validate_external_endpoints-IsAdvertised "externalEndpoints" outside ("orderer0" ∷ [])
      "orderer0.org1:7050" "orderer0" _ outside_ok refl

abbrev org : Org
org = record {
  organization = record { name = "Org1"; domain = "org1.example.com"; msp_name = "Org1MSP" };
  ca = record { db = "sqlite"; registrar = none };
  orderers =
      record {
        group_name = "g";
        kind = "etcdraft";
        instances = 2;
        prefix = "orderer";
        external_endpoints = endpoints;
      }
      ∷ [];
  peer = none;
}

abbrev net : FabricNetwork
net = record {
  name = "net";
  namespace = "fabric";
  uid = "";
  spec = record {
    global = record { fabric_version = "2.5"; tls = true };
    orgs = org ∷ [];
    channels = [];
    chaincodes = [];
  };
}

orderer_endpoint_statuses-desired_orderer_instances_example :
    status_names (λ s. "0") (λ o. "org1") net.spec.orgs
    ≡ map (λ (i : OrdererInstance). i.name) (desired_orderer_instances (λ s. "0") net)
orderer_endpoint_statuses-desired_orderer_instances_example =
    orderer_endpoint_statuses-desired_orderer_instances (λ s. "0") (λ o. "org1") net
