-- ===== src/Endpoints.antt =====
-- The addresses of orderers and peers: internal/controller/fabricnetwork_external_endpoint.go,
-- `serviceDNS` of fabricnetwork_org.go and `workloadDNSNames` of fabricnetwork_identity.go.
pub mod Unique
pub mod Covered
pub mod Advertised
pub mod Status
pub mod Names
mod Examples
use Prim.Native.Char.{Char}
use fabric_ops.Prelude.{
  ℕ, zero, suc, String, Bool, true, false, not, ◌&&◌, ◌||◌, List, [], ◌∷◌, ◌++◌, Option, none, some,
  inl, inr, ◌==◌, leb, if◌then◌else◌,
}
use fabric_ops.Text.{◌<>◌, trim_space, contains_char, itoa}
use fabric_ops.Topology.Text.{split_host_port, positive_atoi}
use fabric_ops.Topology.Values.{has, OrdererInstance}
use fabric_ops.Api.Spec.{ExternalEndpoint, Org, OrdererGroup, PeerConfig}

abbrev pub orderer_port : ℕ
orderer_port = 7050

abbrev pub peer_port : ℕ
peer_port = 7051

unfoldable pub service_dns : String → String → ℕ → String
unfolding itoa
service_dns name namespace port = name <> "." <> namespace <> ".svc.cluster.local:" <> itoa port

-- The loop of `uniqueTrimmedStrings`.
unfoldable pub unique_from : List String → List String → List String
unfolding trim_space
unique_from seen [] = []
unique_from seen (value ∷ rest) =
    let text = trim_space value in
    let skipped = unique_from seen rest in
    let taken = unique_from (text ∷ seen) rest in
    if text == "" || has text seen then skipped else text ∷ taken

unfoldable pub unique_trimmed_strings : List String → List String
unfolding unique_from
unique_trimmed_strings values = unique_from [] values

trim_left_set : String → String → String
unfolding contains_char
trim_left_set set String.[] = String.[]
trim_left_set set (String.◌∷◌ c s) =
    let rest = trim_left_set set s in if contains_char c set then rest else String.◌∷◌ c s

trim_right_set : String → String → String
unfolding contains_char
trim_right_set set String.[] = String.[]
trim_right_set set (String.◌∷◌ c s) =
    let rest = trim_right_set set s in
    if contains_char c set && rest == "" then String.[] else String.◌∷◌ c rest

unfoldable pub endpoint_host : String → String
unfolding trim_space split_host_port trim_left_set trim_right_set
endpoint_host address = elim (split_host_port (trim_space address)) [
  | inl error ↦ ""
  | inr (host, port) ↦ trim_right_set "[]" (trim_left_set "[]" host)
]

unfoldable pub endpoint_port : String → ℕ → ℕ
unfolding trim_space split_host_port positive_atoi
endpoint_port address default = elim (split_host_port (trim_space address)) [
  | inl error ↦ default
  | inr (host, port) ↦ elim (positive_atoi port) [
    | none ↦ default
    | some n ↦ if leb n 65535 then n else default
  ]
]

unfoldable pub external_endpoint_for_workload :
    List ExternalEndpoint → String → Option ExternalEndpoint
unfolding trim_space
external_endpoint_for_workload [] name = none
external_endpoint_for_workload (e ∷ rest) name =
    let later = external_endpoint_for_workload rest name in
    if trim_space e.name == name then some e else later

unfoldable pub workload_tls_hostname_override : List ExternalEndpoint → String → String
unfolding external_endpoint_for_workload trim_space
workload_tls_hostname_override endpoints name =
    elim (external_endpoint_for_workload endpoints name) [
      | none ↦ ""
      | some e ↦ trim_space e.tls_hostname_override
    ]

unfoldable pub workload_external_address : String → List ExternalEndpoint → String → String
unfolding external_endpoint_for_workload trim_space
workload_external_address default endpoints name =
    elim (external_endpoint_for_workload endpoints name) [
      | none ↦ default
      | some e ↦ if trim_space e.address == "" then default else trim_space e.address
    ]

unfoldable pub workload_dns_names : String → String → List String
workload_dns_names name namespace =
    name
    ∷ (name <> "." <> namespace)
    ∷ (name <> "." <> namespace <> ".svc")
    ∷ (name <> "." <> namespace <> ".svc.cluster.local")
    ∷ "localhost"
    ∷ []

-- The hosts that an endpoint adds.
unfoldable pub endpoint_hosts : ExternalEndpoint → List String
unfolding endpoint_host
endpoint_hosts e =
    (if endpoint_host e.address == "" then [] else endpoint_host e.address ∷ [])
    ++ e.tls_hosts
    ++ e.tls_hostname_override ∷ []

unfoldable pub workload_csr_hosts : String → String → List ExternalEndpoint → List String
unfolding workload_dns_names external_endpoint_for_workload endpoint_hosts unique_trimmed_strings
workload_csr_hosts name namespace endpoints = elim (external_endpoint_for_workload endpoints name) [
  | none ↦ workload_dns_names name namespace
  | some e ↦ unique_trimmed_strings (workload_dns_names name namespace ++ endpoint_hosts e)
]

-- The functions for an orderer, in its namespace.
unfoldable pub orderer_advertised_client_address : OrdererInstance → String → String
unfolding workload_external_address service_dns
orderer_advertised_client_address orderer namespace =
    workload_external_address (service_dns orderer.name namespace orderer_port)
      orderer.group.external_endpoints orderer.name

unfoldable pub orderer_advertised_host : OrdererInstance → String → String
unfolding orderer_advertised_client_address endpoint_host
orderer_advertised_host orderer namespace =
    endpoint_host (orderer_advertised_client_address orderer namespace)

unfoldable pub orderer_advertised_port : OrdererInstance → String → ℕ
unfolding orderer_advertised_client_address endpoint_port
orderer_advertised_port orderer namespace =
    endpoint_port (orderer_advertised_client_address orderer namespace) orderer_port

unfoldable pub orderer_tls_hostname_override : OrdererInstance → String
unfolding workload_tls_hostname_override
orderer_tls_hostname_override orderer =
    workload_tls_hostname_override orderer.group.external_endpoints orderer.name

unfoldable pub orderer_connection_profile_tls_host : OrdererInstance → String → String
unfolding orderer_tls_hostname_override orderer_advertised_host
orderer_connection_profile_tls_host orderer namespace =
    if orderer_tls_hostname_override orderer == ""
    then orderer_advertised_host orderer namespace
    else orderer_tls_hostname_override orderer

unfoldable pub orderer_workload_csr_hosts : OrdererGroup → String → String → List String
unfolding workload_csr_hosts
orderer_workload_csr_hosts group name namespace =
    workload_csr_hosts name namespace group.external_endpoints

-- The functions for the peer of that name of an organization, in its namespace.
unfoldable pub peer_advertised_address : Org → String → String → String
unfolding workload_external_address service_dns
peer_advertised_address org name namespace = elim org.peer [
  | none ↦ service_dns name namespace peer_port
  | some p ↦
      workload_external_address (service_dns name namespace peer_port) p.external_endpoints name
]

unfoldable pub peer_advertised_port : Org → String → String → ℕ
unfolding peer_advertised_address endpoint_port
peer_advertised_port org name namespace =
    endpoint_port (peer_advertised_address org name namespace) peer_port

unfoldable pub peer_advertised_host : Org → String → String → String
unfolding peer_advertised_address endpoint_host
peer_advertised_host org name namespace = endpoint_host (peer_advertised_address org name namespace)

unfoldable pub peer_tls_hostname_override : Org → String → String
unfolding workload_tls_hostname_override
peer_tls_hostname_override org name = elim org.peer [
  | none ↦ ""
  | some p ↦ workload_tls_hostname_override p.external_endpoints name
]

unfoldable pub peer_connection_profile_tls_host : Org → String → String → String
unfolding peer_tls_hostname_override peer_advertised_host
peer_connection_profile_tls_host org name namespace =
    if peer_tls_hostname_override org name == ""
    then peer_advertised_host org name namespace
    else peer_tls_hostname_override org name

unfoldable pub peer_workload_csr_hosts : Org → String → String → List String
unfolding workload_csr_hosts workload_dns_names
peer_workload_csr_hosts org name namespace = elim org.peer [
  | none ↦ workload_dns_names name namespace
  | some p ↦ workload_csr_hosts name namespace p.external_endpoints
]
