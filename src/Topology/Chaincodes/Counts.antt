-- ===== src/Topology/Chaincodes/Counts.antt =====
-- The peers of the organizations of a collection, as the loop adds them up and as there are.
use fabric_ops.Prelude.{
  ℕ, ◌+◌, ◌≤◌, String, List, [], ◌∷◌, ◌≡◌, refl, map, arith, eq_iff, if◌then◌else◌,
}
use fabric_ops.Prelude.Maps.{Map, lookup}
use fabric_ops.Text.{trim_space}
use fabric_ops.Topology.Values.{has}
use fabric_ops.Topology.Lists.{Distinct}
use fabric_ops.Topology.Chaincodes.{or_else}

-- What the loop over the organizations adds up, an organization as often as it is listed.
abbrev pub listed_peers : Map ℕ → List String → ℕ
listed_peers counts [] = 0
listed_peers counts (n ∷ ns) = or_else (lookup (trim_space n) counts) 0 + listed_peers counts ns

-- The peers that the named organizations have on the channel, each organization of the channel once.
abbrev pub peers_of : Map ℕ → List String → ℕ
peers_of [] names = 0
peers_of ((org, peers) ∷ counts) names =
    (if has org names then peers else 0) + peers_of counts names

abbrev pub count_of : Map ℕ → List String → ℕ
count_of counts [] = 0
count_of counts (n ∷ ns) = or_else (lookup n counts) 0 + count_of counts ns

pub listed_peers-count_of :
    (counts : Map ℕ) (ns : List String)
    → listed_peers counts ns ≡ count_of counts (map trim_space ns)
listed_peers-count_of counts [] = refl
listed_peers-count_of counts (n ∷ ns) = omega (arith, listed_peers-count_of counts ns)

count_of-empty : (ns : List String) → count_of [] ns ≡ 0
unfolding lookup or_else
count_of-empty [] = refl
count_of-empty (n ∷ ns) = omega (arith, count_of-empty ns)

-- One entry adds its peers at most once to names that are distinct.
count_of-entry :
    (org : String) (peers : ℕ) (counts : Map ℕ) (ns : List String)
    → Distinct ns
    → count_of ((org, peers) ∷ counts) ns ≤ (if has org ns then peers else 0) + count_of counts ns
unfolding lookup or_else
count_of-entry org peers counts [] h = omega arith
count_of-entry org peers counts (n ∷ ns) h =
    let rest = count_of-entry org peers counts ns h.1 in
    ground (arith, h.0, eq_iff org n, eq_iff n org, rest)

pub count_of-peers_of :
    (counts : Map ℕ) (ns : List String) → Distinct ns → count_of counts ns ≤ peers_of counts ns
unfolding lookup
count_of-peers_of [] ns h = omega (arith, count_of-empty ns)
count_of-peers_of ((org, peers) ∷ counts) ns h =
    let rest = count_of-peers_of counts ns h in
    let first = count_of-entry org peers counts ns h in omega (arith, rest, first)
