-- ===== src/Endpoints/Advertised.antt =====
-- What is advertised of a workload whose external endpoints are valid.
use fabric_ops.Prelude.{
  ℕ, ◌+◌, ◌≤◌, String, Bool, true, false, List, [], ◌∷◌, none, some, ◌≡◌, ◌≢◌, ◌⊎◌, inl, inr, refl,
  sym, ap, subst, ◌∙◌, ◌==◌, eq_iff, leb, if◌then◌else◌, arith,
}
use fabric_ops.Text.{◌<>◌, trim_space, itoa}
use fabric_ops.Text.Trim.{trim_space-trim_space}
use fabric_ops.Topology.Text.{split_host_port, positive_atoi}
use fabric_ops.Topology.Lists.{append-empty}
use fabric_ops.Topology.Refs.{
  validate_participant_endpoint, endpoint_name_problems, endpoints_from,
  validate_external_endpoints,
}
use fabric_ops.Topology.Refs.Accepts.{Reachable, validate_participant_endpoint-Reachable}
use fabric_ops.Api.Spec.{ExternalEndpoint}
use fabric_ops.Endpoints.{external_endpoint_for_workload, workload_external_address, endpoint_port}
use fabric_ops.Endpoints.Covered.{IsPort, atoi_positive}

-- The endpoint of a workload has a reachable address.
found-Reachable :
    (path : String) (known seen : List String) (i : ℕ) (es : List ExternalEndpoint) (name : String)
    (e : ExternalEndpoint)
    → endpoints_from path known seen i es ≡ []
    → external_endpoint_for_workload es name ≡ some e
    → Reachable (trim_space e.address)
unfolding endpoints_from external_endpoint_for_workload
found-Reachable path known seen i [] name e h found = absurd (cc)
found-Reachable path known seen i (first ∷ rest) name e h found =
    let at = path <> "[" <> itoa i <> "]" in
    let last = append-empty _ (endpoints_from path known _ (i + 1) rest) h in
    let hosts = append-empty _ _ last.0 in
    let address =
      append-empty (endpoint_name_problems path at known seen (trim_space first.name))
        (validate_participant_endpoint (at <> ".address") first.address true) hosts.0 in
    by_name (trim_space first.name == name) found
      (validate_participant_endpoint-Reachable (at <> ".address") first.address address.1)
      (found-Reachable path known
        (if trim_space first.name == "" then seen else trim_space first.name ∷ seen) (i + 1) rest
        name e last.1)
  where
    by_name :
        (b : Bool)
        → (if b then some first else external_endpoint_for_workload rest name) ≡ some e
        → Reachable (trim_space first.address)
        → (external_endpoint_for_workload rest name ≡ some e → Reachable (trim_space e.address))
        → Reachable (trim_space e.address)
    by_name true g now later =
        subst (λ (x : ExternalEndpoint). Reachable (trim_space x.address)) (same g) now
      where
        same : some first ≡ some e → first ≡ e
        same g = cc
    by_name false g now later = later g

-- The address can be reached, and its port is read whatever the default.
abbrev pub IsAdvertised : String → String → Type 0
IsAdvertised written advertised =
    (advertised ≡ written)
    × ((host : String) × (port : String) × (n : ℕ) × (split_host_port written ≡ inr (host, port))
        × (trim_space host ≢ "")
        × (positive_atoi port ≡ some n)
        × IsPort n
        × ((default : ℕ) → endpoint_port advertised default ≡ n))

blank_unsplit : (host port : String) → split_host_port "" ≡ inr (host, port) → ⊥
unfolding split_host_port
blank_unsplit host port e = absurd (cc)

nonblank-Reachable : (address : String) → Reachable address → (address == "") ≡ false
nonblank-Reachable address (host, port, n, split, named, number, small) =
    by_test (address == "") refl
  where
    by_test : (b : Bool) → (address == "") ≡ b → b ≡ false
    by_test true e = absurd (
        blank_unsplit host port
          (subst (λ a. split_host_port a ≡ inr (host, port)) ((eq_iff address "").0 e) split))
    by_test false e = refl

limit_passed : (n default : ℕ) → n ≤ 65535 → (if leb n 65535 then n else default) ≡ n
limit_passed n default h = ground arith

read_port :
    (default n : ℕ) (host port address : String)
    → split_host_port (trim_space address) ≡ inr (host, port)
    → positive_atoi port ≡ some n
    → n ≤ 65535
    → endpoint_port address default ≡ n
unfolding endpoint_port
read_port default n host port address split number small =
    ap
      (λ (r : String ⊎ (String × String)). elim r as (λ _. ℕ) [
        | inl error ↦ default
        | inr (host, port) ↦ elim (positive_atoi port) [
          | none ↦ default
          | some n ↦ if leb n 65535 then n else default
        ]
      ])
      split
    ∙ ap (λ o. elim o as (λ _. ℕ) [ none ↦ default | some n ↦ if leb n 65535 then n else default ])
        number
    ∙ limit_passed n default small

found-address :
    (default : String) (es : List ExternalEndpoint) (name : String) (e : ExternalEndpoint)
    → external_endpoint_for_workload es name ≡ some e
    → (trim_space e.address == "") ≡ false
    → workload_external_address default es name ≡ trim_space e.address
unfolding workload_external_address
found-address default es name e found written =
    ap
      (λ o. elim o as (λ _. String) [
        | none ↦ default
        | some x ↦ if trim_space x.address == "" then default else trim_space x.address
      ])
      found
    ∙ ap (λ (b : Bool). if b then default else trim_space e.address) written

-- When validateExternalEndpoints finds nothing in the external endpoints and a workload has
-- one, the address that is advertised of the workload is the one that is written, without
-- the space around it, whatever the default; it splits into a host that is not blank and a
-- port that is a number from 1 to 65535, and that number is the port that is read from it,
-- whatever the default.
pub validate_external_endpoints-IsAdvertised :
    (path : String) (es : List ExternalEndpoint) (known : List String) (default name : String)
    (e : ExternalEndpoint)
    → validate_external_endpoints path es known ≡ []
    → external_endpoint_for_workload es name ≡ some e
    → IsAdvertised (trim_space e.address) (workload_external_address default es name)
unfolding validate_external_endpoints
validate_external_endpoints-IsAdvertised path es known default name e valid found =
    let reachable = found-Reachable path known [] 0 es name e valid found in
    let (host, port, n, split, named, number, small) = reachable in
    let address =
      found-address default es name e found (nonblank-Reachable (trim_space e.address) reachable) in
    (
      address,
      (
        host,
        port,
        n,
        split,
        named,
        number,
        (atoi_positive port n number, small),
        λ other.
            subst (λ a. endpoint_port a other ≡ n) (sym address)
              (read_port other n host port (trim_space e.address)
                (subst (λ a. split_host_port a ≡ inr (host, port))
                  (sym (trim_space-trim_space e.address)) split)
                number small),
      ),
    )
