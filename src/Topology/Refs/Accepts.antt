-- ===== src/Topology/Refs/Accepts.antt =====
-- What the checks of references and addresses let pass.
use fabric_ops.Prelude.{
  ℕ, ◌≤◌, String, true, [], Option, none, some, ◌≡◌, ◌≢◌, ◌⊎◌, inl, inr, refl, ◌==◌, arith, eq_iff,
  Bool-cases,
}
use fabric_ops.Text.{trim_space}
use fabric_ops.Topology.Text.{split_host_port, positive_atoi}
use fabric_ops.Topology.Refs.{validate_participant_endpoint, address_problems, port_problems}

-- A host, and a port that positive_atoi reads as a number of at most 65535.
abbrev pub Reachable : String → Type 0
Reachable address =
    (host : String) × (port : String) × (n : ℕ) × (split_host_port address ≡ inr (host, port))
    × (trim_space host ≢ "")
    × (positive_atoi port ≡ some n)
    × (n ≤ 65535)

port_problems-empty :
    (path : String) (port : Option ℕ)
    → port_problems path port ≡ []
    → (n : ℕ) × (port ≡ some n) × (n ≤ 65535)
unfolding port_problems
port_problems-empty path none e = ground (arith, e)
port_problems-empty path (some n) e = (n, refl, ground (arith, e))

Sum-cases :
    (s : String ⊎ (String × String))
    → ((r : String) × (s ≡ inl r)) ⊎ ((hp : String × String) × (s ≡ inr hp))
Sum-cases (inl r) = inl (r, refl)
Sum-cases (inr hp) = inr (hp, refl)

address_problems-empty :
    (path address : String) → address_problems path address ≡ [] → Reachable address
unfolding address_problems
address_problems-empty path address e = elim (Sum-cases (split_host_port address)) [
  | inl (r, bad) ↦ ground (arith, e, bad)
  | inr ((host, port), good) ↦ elim (Bool-cases (trim_space host == "")) [
    | inl blank ↦ ground (arith, e, good, blank)
    | inr named ↦
        let found =
          port_problems-empty path (positive_atoi port) (ground (arith, e, good, named)) in
        (
          host,
          port,
          found.0,
          good,
          ground (arith, named, eq_iff (trim_space host) ""),
          found.1,
          found.2,
        )
  ]
]

-- A required address in which nothing is found is reachable, without the space around it.
pub validate_participant_endpoint-Reachable :
    (path address : String)
    → validate_participant_endpoint path address true ≡ []
    → Reachable (trim_space address)
unfolding validate_participant_endpoint
validate_participant_endpoint-Reachable path address e =
    elim (Bool-cases (trim_space address == "")) [
      | inl blank ↦ ground (arith, e, blank)
      | inr named ↦ address_problems-empty path (trim_space address) (ground (arith, e, named))
    ]
