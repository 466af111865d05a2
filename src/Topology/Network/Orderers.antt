-- ===== src/Topology/Network/Orderers.antt =====
-- What a network without problems is, in its orderers.
use fabric_ops.Prelude.{
  ◌+◌, ◌<◌, String, Bool, true, false, not, ◌&&◌, List, [], ◌∷◌, ◌++◌, ◌≡◌, sym, ◌==◌, All, eq_iff,
  arith, length, ltb, nat_eq, if◌then◌else◌,
}
use fabric_ops.Text.{trim_space}
use fabric_ops.Topology.Values.{has, orderer_consensus_type}
use fabric_ops.Topology.Refs.{when}
use fabric_ops.Topology.Orgs.{add_name, consensus_types}
use fabric_ops.Topology.Lists.{append-empty, when-empty}
use fabric_ops.Topology.Network.{
  OrgScan, orderer_count, scan_org, scan_orgs, initial_scan, final_scan, network_problems,
  validate_fabric_network_topology,
}
use fabric_ops.Topology.Network.Parts.{validate-parts}
use fabric_ops.Api.Spec.{OrdererGroup, Org, FabricNetwork}

add_name-has :
    (x y : String) (set : List String)
    → (has y set ≡ true → has y (add_name x set) ≡ true) × (has x (add_name x set) ≡ true)
unfolding add_name
add_name-has x y set = ground (arith, eq_iff x x)

-- The consensus type of each group is in the set.
abbrev Covered : List String → List OrdererGroup → Type 0
Covered set = All λ g. has (orderer_consensus_type g.kind) set ≡ true

consensus_types-has :
    (set : List String) (gs : List OrdererGroup)
    → ((y : String) → has y set ≡ true → has y (consensus_types set gs) ≡ true)
      × Covered (consensus_types set gs) gs
unfolding consensus_types
consensus_types-has set [] = (λ y h. h, tt)
consensus_types-has set (g ∷ gs) =
    let x = orderer_consensus_type g.kind in
    let rest = consensus_types-has (add_name x set) gs in
    (λ y h. rest.0 y ((add_name-has x y set).0 h), (rest.0 x (add_name-has x x set).1, rest.1))

-- The groups of the organizations that have a name.
abbrev pub named_groups : List Org → List OrdererGroup
named_groups [] = []
named_groups (o ∷ os) =
    let rest = named_groups os in
    if trim_space o.organization.name == "" then rest else o.orderers ++ rest

orderer_count-append :
    (gs hs : List OrdererGroup) → orderer_count (gs ++ hs) ≡ orderer_count gs + orderer_count hs
unfolding orderer_count
orderer_count-append [] hs = omega arith
orderer_count-append (g ∷ gs) hs = omega (arith, orderer_count-append gs hs)

Covered-append :
    (set : List String) (gs hs : List OrdererGroup)
    → Covered set gs
    → Covered set hs
    → Covered set (gs ++ hs)
Covered-append set [] hs a b = b
Covered-append set (g ∷ gs) hs a b = (a.0, Covered-append set gs hs a.1 b)

Covered-mono :
    (set later : List String) (gs : List OrdererGroup)
    → ((y : String) → has y set ≡ true → has y later ≡ true)
    → Covered set gs
    → Covered later gs
Covered-mono set later [] f a = tt
Covered-mono set later (g ∷ gs) f a = (f _ a.0, Covered-mono set later gs f a.1)

module _ (hash : String → String) (is_dns_label : String → Bool) (net : FabricNetwork) where
  -- What a scan has seen of these groups since an earlier one.
  record Counts (before after : OrgScan) (gs : List OrdererGroup) : Type 0 where
    count : after.orderers ≡ before.orderers + orderer_count gs
    kept : (y : String) → has y before.consensus ≡ true → has y after.consensus ≡ true
    covered : Covered after.consensus gs

  scan_org-Counts :
      (scan after : OrgScan) (name : String) (o : Org) (gs : List OrdererGroup)
      → Counts (scan_org hash is_dns_label net scan name o) after gs
      → Counts scan after (o.orderers ++ gs)
  unfolding scan_org
  scan_org-Counts scan after name o gs c =
      let own = consensus_types-has scan.consensus o.orderers in
      record {
        count = omega (arith, c.count, orderer_count-append o.orderers gs);
        kept = λ y h. c.kept y (own.0 y h);
        covered =
            Covered-append after.consensus o.orderers gs
              (Covered-mono (consensus_types scan.consensus o.orderers) after.consensus o.orderers
                c.kept own.1)
              c.covered;
      }

  round :
      (blank : Bool) (scan after : OrgScan) (name : String) (o : Org) (gs : List OrdererGroup)
      → Counts (if blank then scan else scan_org hash is_dns_label net scan name o) after gs
      → Counts scan after (if blank then gs else o.orderers ++ gs)
  round true scan after name o gs c = c
  round false scan after name o gs c = scan_org-Counts scan after name o gs c

  scan_orgs-Counts :
      (os : List Org) (scan : OrgScan)
      → Counts scan (scan_orgs hash is_dns_label net scan os) (named_groups os)
  unfolding scan_orgs orderer_count
  scan_orgs-Counts [] scan = record { count = omega arith; kept = λ y h. h; covered = tt }
  scan_orgs-Counts (o ∷ os) scan =
      let name = trim_space o.organization.name in
      round (name == "") scan _ name o (named_groups os) (scan_orgs-Counts os _)

  one_type :
      (set : List String) (gs : List OrdererGroup)
      → ltb 1 (length set) ≡ false
      → Covered set gs
      → (kind : String) × All (λ g. orderer_consensus_type g.kind ≡ kind) gs
  one_type [] [] small c = ("", tt)
  one_type [] (g ∷ gs) small c = ground (arith, c.0)
  one_type (x ∷ []) gs small c = (x, same x gs c)
    where
      same :
          (x : String) (gs : List OrdererGroup)
          → Covered (x ∷ []) gs
          → All (λ g. orderer_consensus_type g.kind ≡ x) gs
      same x [] c = tt
      same x (g ∷ gs) c =
          (sym ((eq_iff x (orderer_consensus_type g.kind)).0 (ground (arith, c.0))), same x gs c.1)
  one_type (x ∷ y ∷ set) gs small c = ground (arith, small)

  -- When validateFabricNetworkTopology finds no problem, the orderer groups of the
  -- organizations that have a name have at least one instance together, they are all of one
  -- consensus type, and TLS is on if there is a channel.
  pub orderers-agree :
      validate_fabric_network_topology hash is_dns_label net ≡ []
      → (0 < orderer_count (named_groups net.spec.orgs))
        × ((kind : String) × All
              (λ g. orderer_consensus_type g.kind ≡ kind)
              (named_groups net.spec.orgs))
        × (0 < length net.spec.channels → net.spec.global.tls ≡ true)
  unfolding final_scan initial_scan network_problems
  orderers-agree e =
      let scan = final_scan hash is_dns_label net in
      let counts = scan_orgs-Counts net.spec.orgs (initial_scan hash is_dns_label net) in
      let last =
        append-empty _
          (when (ltb 0 (length net.spec.channels) && not net.spec.global.tls)
            "spec.global.tls must be true when channels are declared")
          (validate-parts hash is_dns_label net e).1 in
      let first =
        append-empty (when (nat_eq scan.orderers 0) "at least one orderer instance is required")
          (when (ltb 1 (length scan.consensus))
            "orderer consensus types must match across all orderer groups")
          last.0 in
      let some_orderer = when-empty _ _ first.0 in
      let tls = when-empty _ _ last.1 in
      (
        ground (arith, some_orderer, counts.count),
        one_type scan.consensus (named_groups net.spec.orgs) (when-empty _ _ first.1)
            counts.covered,
        ground (arith, tls),
      )
