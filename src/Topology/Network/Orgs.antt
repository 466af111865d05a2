-- ===== src/Topology/Network/Orgs.antt =====
-- What a network without problems is, in its organizations.
use fabric_ops.Prelude.{
  String, Bool, true, false, List, [], ◌∷◌, ◌≡◌, ◌⊎◌, inl, inr, refl, subst, ◌==◌, some, eq_iff,
  Bool-cases, arith, if◌then◌else◌,
}
use fabric_ops.Prelude.Maps.{Map, has_key, lookup, insert, lookup-insert}
use fabric_ops.Text.{trim_space}
use fabric_ops.Topology.Lists.{append-empty, when-empty, Distinct, Fresh, Fresh-insert}
use fabric_ops.Topology.Network.{
  OrgScan, org_problems, scan_org, scan_orgs, initial_scan, final_scan,
  validate_fabric_network_topology,
}
use fabric_ops.Topology.Network.Parts.{validate-parts}
use fabric_ops.Api.Spec.{Org, FabricNetwork}

-- The names of the organizations, less those that are blank.
abbrev pub declared_orgs : List Org → List String
declared_orgs [] = []
declared_orgs (o ∷ os) =
    let rest = declared_orgs os in
    let name = trim_space o.organization.name in if name == "" then rest else name ∷ rest

-- The value is an element of the list.
abbrev pub Among : {A : Type 0} → A → List A → Type 0
Among x [] = ⊥
Among x (y ∷ ys) = (x ≡ y) ⊎ Among x ys

-- An organization of the list has this name.
abbrev pub Declares : List Org → String → Org → Type 0
Declares os name org = Among org os × (trim_space org.organization.name ≡ name)

module _ (hash : String → String) (is_dns_label : String → Bool) (net : FabricNetwork) where
  org_problems-fresh :
      (seen : Map Org) (name : String) (org : Org)
      → org_problems hash is_dns_label net seen name org ≡ []
      → has_key name seen ≡ false
  unfolding org_problems
  org_problems-fresh seen name org e = grind (arith, append-empty, when-empty, e)

  scan_org-empty :
      (scan : OrgScan) (name : String) (org : Org)
      → (scan_org hash is_dns_label net scan name org).problems ≡ []
      → (scan.problems ≡ []) × (has_key name scan.orgs ≡ false)
  unfolding scan_org
  scan_org-empty scan name org e =
      let parts =
        append-empty scan.problems (org_problems hash is_dns_label net scan.orgs name org) e in
      (parts.0, org_problems-fresh scan.orgs name org parts.1)

  -- What is true of a scan before a list of organizations, when it finds nothing in them.
  Clear : OrgScan → List String → Type 0
  Clear scan names = (scan.problems ≡ []) × Fresh scan.orgs names × Distinct names

  Clear-cons :
      (scan : OrgScan) (name : String) (org : Org) (names : List String)
      → Clear (scan_org hash is_dns_label net scan name org) names
      → Clear scan (name ∷ names)
  unfolding Clear scan_org
  Clear-cons scan name org names (e, fresh, distinct) =
      let now = scan_org-empty scan name org e in
      let rest = Fresh-insert scan.orgs name org names fresh in
      (now.0, (now.1, rest.0), (rest.1, distinct))

  Clear-if :
      (blank : Bool) (scan : OrgScan) (name : String) (org : Org) (names : List String)
      → Clear (if blank then scan else scan_org hash is_dns_label net scan name org) names
      → Clear scan (if blank then names else name ∷ names)
  Clear-if true scan name org names c = c
  Clear-if false scan name org names c = Clear-cons scan name org names c

  -- The scan of organizations that reports nothing.
  scan_orgs-Clear :
      (os : List Org) (scan : OrgScan)
      → (scan_orgs hash is_dns_label net scan os).problems ≡ []
      → Clear scan (declared_orgs os)
  unfolding scan_orgs Clear
  scan_orgs-Clear [] scan e = (e, tt, tt)
  scan_orgs-Clear (o ∷ os) scan e =
      let name = trim_space o.organization.name in
      Clear-if (name == "") scan name o (declared_orgs os) (scan_orgs-Clear os _ e)

  -- When validateFabricNetworkTopology finds no problem, the names of the organizations that
  -- are not blank are distinct.
  pub orgs-Distinct :
      validate_fabric_network_topology hash is_dns_label net ≡ []
      → Distinct (declared_orgs net.spec.orgs)
  unfolding Clear final_scan
  orgs-Distinct e =
      (scan_orgs-Clear net.spec.orgs (initial_scan hash is_dns_label net)
        (validate-parts hash is_dns_label net e).0).2

  insert-Declares :
      (all : List Org) (m : Map Org) (k : String) (o : Org)
      → Declares all k o
      → ((n : String) (x : Org) → lookup n m ≡ some x → Declares all n x)
      → (n : String) (x : Org) → lookup n (insert k o m) ≡ some x
      → Declares all n x
  insert-Declares all m k o new old n x e = elim (Bool-cases (k == n)) [
    | inl same ↦
        let is : o ≡ x = ground (arith, e, same, lookup-insert k n o m) in
        subst (λ name. Declares all name x) ((eq_iff k n).0 same)
          (subst (λ org. Declares all k org) is new)
    | inr other ↦ old n x (ground (arith, e, other, lookup-insert k n o m))
  ]

  -- Every entry of the map is one of the organizations, under its name.
  Sourced : List Org → OrgScan → Type 0
  Sourced all scan = (n : String) (x : Org) → lookup n scan.orgs ≡ some x → Declares all n x

  Sourced-if :
      (blank : Bool) (all : List Org) (scan : OrgScan) (o : Org)
      → Among o all
      → Sourced all scan
      → Sourced all (
          if blank
          then scan
          else scan_org hash is_dns_label net scan (trim_space o.organization.name) o)
  unfolding Sourced scan_org
  Sourced-if true all scan o here old = old
  Sourced-if false all scan o here old =
      insert-Declares all scan.orgs (trim_space o.organization.name) o (here, refl) old

  scan_orgs-Sourced :
      (all os : List Org)
      → ((o : Org) → Among o os → Among o all)
      → (scan : OrgScan) → Sourced all scan
      → Sourced all (scan_orgs hash is_dns_label net scan os)
  unfolding scan_orgs
  scan_orgs-Sourced all [] within scan old = old
  scan_orgs-Sourced all (o ∷ os) within scan old =
      scan_orgs-Sourced all os (λ x h. within x (inr h)) _
        (Sourced-if (trim_space o.organization.name == "") all scan o (within o (inl refl)) old)

  -- Each entry of the map of organizations that validateFabricNetworkTopology builds is one
  -- of the organizations of the network, under its name without the space around it.
  pub orgs-Declares :
      (name : String) (org : Org)
      → lookup name (final_scan hash is_dns_label net).orgs ≡ some org
      → Declares net.spec.orgs name org
  unfolding final_scan initial_scan Sourced lookup
  orgs-Declares =
      scan_orgs-Sourced net.spec.orgs net.spec.orgs (λ o h. h) (initial_scan hash is_dns_label net)
        (λ n x e. ground (arith, e))
